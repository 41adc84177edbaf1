-- ===== src/Service/Begin.antt =====
-- The initialisation of the service from its flags (config.go, service.go).
use optimism_zkp.Prelude.{
  ◌≡◌, refl, sym, Bool, true, false, ◌&&◌, ◌||◌, Option, none, some, List, [], ◌∷◌, if◌then◌else◌,
  All, All-map, arith,
}
use optimism_zkp.Prelude.Effects.{Result, ok, err, Exec, pure, raise, gets, catch}
use optimism_zkp.Prelude.Effects.Ensures.{
  Ends, Ensures, Ensures-pure, Ensures-raise, Ensures-gets, Ensures-modify, Ensures-bind,
  Ensures-if, Ensures-weaken, Ensures-catch, Ensures-before, Ensures-given,
}
use optimism_zkp.Request.{Bytes}
use optimism_zkp.World.{Env}
use optimism_zkp.Prove.{is_blank}
use optimism_zkp.Service.{
  Resource, l1_client, rollup_provider, tx_manager, balance_metricer, metrics_srv, pprof_service,
  driver, rpc_server, CliConfig, check, Host, Service, same_resource, hold, obtain, require,
  init_addresses, init_rpc_clients, init_balance_monitor, init_metrics_server, init_pprof,
  new_l2_output_submitter, init_driver, init_from_cli_config, stop, cleaned_up,
  proposer_service_from_cli_config,
}
use optimism_zkp.Service.Cleanup.{IsReleased, IsFresh, At, stop-IsReleased}

module _ (e : Env) (h : Host) (c : CliConfig) where
  -- Nothing was released, the oracle's address is what was read, and the resources are held.
  abbrev IsReady : List Resource → Service → Type 0
  IsReady rs s =
      IsFresh s
      × (s.l2_output_oracle_addr ≡ h.parse_address c.l2oo_address)
      × All (λ r. s.held r ≡ true) rs

  abbrev fresh : (rs : List Resource) (s : Service) → IsReady rs s → IsFresh s
  fresh rs s k = k.0

  still_held :
      (r : Resource) (rs : List Resource) (held : Resource → Bool)
      → All (λ x. held x ≡ true) rs
      → All (λ x. (same_resource r x || held x) ≡ true) (r ∷ rs)
  still_held r rs held k = (itself r, All-map _ _ rs (λ x there. ground (arith, there)) k)
    where
      itself : (r : Resource) → (same_resource r r || held r) ≡ true
      itself r = ground arith

  hold-IsReady :
      (rs : List Resource) (r : Resource)
      → Ensures (IsReady rs) (hold r) (λ _. IsReady (r ∷ rs)) IsFresh
  unfolding hold
  hold-IsReady rs r = Ensures-modify _ _ _ _ (λ s k. (k.0, k.1, still_held r rs s.held k.2))

  obtain-IsReady :
      (rs : List Resource) (r : Resource)
      → Ensures (IsReady rs) (obtain e h r) (λ _. IsReady (r ∷ rs)) IsFresh
  unfolding obtain
  obtain-IsReady rs r =
      Ensures-if _ _ _ (h.starts r) _ _ (λ _. hold-IsReady rs r)
        (λ _. Ensures-raise _ _ _ _ (fresh rs))

  -- A resource that is held only where metrics are enabled.
  optional :
      (rs : List Resource) (r : Resource) (b : Bool) (m : Exec Service (Unit {0}))
      → Ensures (IsReady rs) m (λ _. IsReady (r ∷ rs)) IsFresh
      → Ensures (IsReady rs) (if b then m else pure tt) (λ _. IsReady rs) IsFresh
  optional rs r b m k =
      Ensures-if _ _ _ b _ _
        (λ _. Ensures-weaken _ _ k (λ a s there. (there.0, there.1, there.2.1)) (λ s there. there))
        (λ _. Ensures-pure _ _ _ tt (λ s there. there))

  abbrev clients : List Resource
  clients = rollup_provider ∷ l1_client ∷ []

  abbrev before_driver : List Resource
  before_driver = pprof_service ∷ tx_manager ∷ clients

  abbrev pub needed : List Resource
  needed = rpc_server ∷ driver ∷ before_driver

  clients-IsReady : Ensures (IsReady []) (init_rpc_clients e h) (λ _. IsReady clients) IsFresh
  unfolding init_rpc_clients
  clients-IsReady =
      Ensures-bind _ (λ _. IsReady (l1_client ∷ [])) _ _ _ _ (obtain-IsReady [] l1_client)
        (λ _. obtain-IsReady (l1_client ∷ []) rollup_provider)

  pprof-IsReady :
      (rs : List Resource)
      → Ensures (IsReady rs) (init_pprof e h) (λ _. IsReady (pprof_service ∷ rs)) IsFresh
  unfolding init_pprof
  pprof-IsReady rs =
      Ensures-bind _ (λ _. IsReady (pprof_service ∷ rs)) _ _ _ _ (hold-IsReady rs pprof_service)
        (λ _.
          Ensures-if _ _ _ (h.starts pprof_service) _ _ (λ _. Ensures-pure _ _ _ tt (λ s k. k))
            (λ _. Ensures-raise _ _ _ _ (fresh (pprof_service ∷ rs))))

  -- The address of the oracle was read.
  abbrev pub HasOracle : Type 0
  HasOracle = (a : Bytes) × (h.parse_address c.l2oo_address ≡ some a)

  abbrev IsDriven : List Resource → Service → Type 0
  IsDriven rs s = IsReady rs s × HasOracle

  require-IsReady :
      (rs : List Resource) (b : Bool) → Ensures (IsReady rs) (require b) (λ _. IsReady rs) IsFresh
  unfolding require
  require-IsReady rs b =
      Ensures-if _ _ _ b _ _ (λ _. Ensures-pure _ _ _ tt (λ s k. k))
        (λ _. Ensures-raise _ _ _ _ (fresh rs))

  new-IsDriven :
      (rs : List Resource) (address : Option Bytes)
      → address ≡ h.parse_address c.l2oo_address
      → Ensures
          (IsReady rs)
          (new_l2_output_submitter e h address)
          (λ _. IsDriven (driver ∷ rs))
          IsFresh
  unfolding new_l2_output_submitter
  new-IsDriven rs none same = Ensures-raise _ _ _ _ (fresh rs)
  new-IsDriven rs (some a) same =
      Ensures-bind _ (λ _. IsReady rs) _ _ _ _ (require-IsReady rs h.binds_contract)
        (λ _.
          Ensures-bind _ (λ _. IsReady rs) _ _ _ _ (require-IsReady rs h.reads_version)
            (λ _.
              Ensures-bind _ (λ _. IsReady rs) _ _ _ _ (require-IsReady rs h.parses_oracle_abi)
                (λ _.
                  Ensures-bind _ (λ _. IsReady rs) _ _ _ _ (require-IsReady rs h.parses_factory_abi)
                    (λ _.
                      Ensures-bind _ (λ _. IsReady rs) _ _ _ _ (require-IsReady rs h.opens_db)
                        (λ _.
                          Ensures-weaken _ _ (hold-IsReady rs driver) (λ u s k. (k, (a, sym same)))
                            (λ s k. k))))))

  driver-IsDriven :
      (rs : List Resource)
      → Ensures (IsReady rs) (init_driver e h) (λ _. IsDriven (driver ∷ rs)) IsFresh
  unfolding init_driver
  driver-IsDriven rs =
      Ensures-bind _ (λ address s. IsReady rs s × (address ≡ h.parse_address c.l2oo_address)) _ _
        (gets _) _ (Ensures-gets _ _ _ _ (λ s k. (k, k.1)))
        (λ address.
          Ensures-given _ _ _ _ (λ s k. k.1)
            (λ same. Ensures-before _ _ _ (λ s k. k.0) (new-IsDriven rs address same)))

  init-IsDriven : Ensures IsFresh (init_from_cli_config e h c) (λ _. IsDriven needed) IsFresh
  unfolding init_from_cli_config init_addresses init_balance_monitor init_metrics_server
  init-IsDriven =
      Ensures-bind _ (λ _. IsReady []) _ _ _ _ (Ensures-modify _ _ _ _ (λ s k. (k, refl, tt)))
        (λ _.
          Ensures-bind _ (λ _. IsReady clients) _ _ _ _ clients-IsReady
            (λ _.
              Ensures-bind _ (λ _. IsReady (tx_manager ∷ clients)) _ _ _ _
                (obtain-IsReady clients tx_manager)
                (λ _.
                  Ensures-bind _ (λ _. IsReady (tx_manager ∷ clients)) _ _ _ _
                    (optional (tx_manager ∷ clients) balance_metricer c.metrics_enabled _
                      (hold-IsReady (tx_manager ∷ clients) balance_metricer))
                    (λ _.
                      Ensures-bind _ (λ _. IsReady (tx_manager ∷ clients)) _ _ _ _
                        (optional (tx_manager ∷ clients) metrics_srv c.metrics_enabled _
                          (obtain-IsReady (tx_manager ∷ clients) metrics_srv))
                        (λ _.
                          Ensures-bind _ (λ _. IsReady before_driver) _ _ _ _
                            (pprof-IsReady (tx_manager ∷ clients))
                            (λ _.
                              Ensures-bind _ (λ _. IsDriven (driver ∷ before_driver)) _ _ _ _
                                (driver-IsDriven before_driver)
                                (λ _.
                                  Ensures-given _ _ _ _ (λ s k. k.1)
                                    (λ oracle.
                                      Ensures-before _ _ _ (λ s k. k.0)
                                        (Ensures-weaken _ _
                                          (obtain-IsReady (driver ∷ before_driver) rpc_server)
                                          (λ a s k. (k, oracle)) (λ s k. k))))))))))

  -- What is left behind a successful initialisation.
  abbrev pub IsUp : Service → Type 0
  IsUp s =
      (s.released ≡ [])
      × All (λ r. s.held r ≡ true) needed
      × HasOracle
      × (s.l2_output_oracle_addr ≡ h.parse_address c.l2oo_address)

  cleaned :
      (r : Result (Unit {0})) (s : Service)
      → Ends (λ _. IsDriven needed) IsFresh (r, s)
      → Ends (λ _. IsUp) IsReleased (cleaned_up e h r s)
  unfolding cleaned_up pure
  cleaned (ok a) s k = (k.0.0.0, k.0.2, k.1, k.0.1)
  cleaned (err x) s k =
      (Ensures-catch (At s.held []) (λ _. IsReleased) (λ _. IsUp) IsReleased IsReleased (stop e h)
          (λ r. raise x) (stop-IsReleased e h s.held)
          (λ a. Ensures-raise _ _ _ _ (λ t there. there))
          (λ y. Ensures-raise _ _ _ _ (λ t there. there))).at
        s (refl, k.0, k.1, k.2)

  -- From a service that holds no running driver and released nothing: an initialisation that succeeds holds
  -- the clients, the transaction manager, the profiler, the driver and the RPC server, has released none, and
  -- has read the oracle's address; one that fails, at whichever step, has called Stop or Close on each
  -- resource that it holds, once, and on no other, even if some of these calls fail.
  pub proposer_service_from_cli_config_lem :
      (s : Service)
      → IsFresh s
      → Ends (λ _. IsUp) IsReleased (proposer_service_from_cli_config e h c s)
  unfolding proposer_service_from_cli_config catch
  proposer_service_from_cli_config_lem s k =
      let (r, t) = init_from_cli_config e h c s in cleaned r t (init-IsDriven.at s k)

-- Flags with an address of the factory and none of the oracle pass the check, yet the service is never made.
pub factory_only :
    (e : Env) (h : Host) (c : CliConfig)
    → (c.rpc_config && c.metrics_config && c.pprof_config && c.tx_mgr_config) ≡ true
    → is_blank c.dgf_address ≡ false
    → h.parse_address c.l2oo_address ≡ none
    → (s : Service) → IsFresh s
    → (check c ≡ ok tt) × Ends (λ _ t. ⊥) IsReleased (proposer_service_from_cli_config e h c s)
unfolding check
factory_only e h c valid factory oracle s k = (
  ground (arith, valid, factory),
  (Ensures-weaken IsFresh (proposer_service_from_cli_config e h c)
        (record { at = proposer_service_from_cli_config_lem e h c })
        (λ a t up. absurd (unread (h.parse_address c.l2oo_address) up.2 oracle))
        (λ t there. there)).at
      s k,
)
  where
    unread : (o : Option Bytes) → (a : Bytes) × (o ≡ some a) → o ≡ none → ⊥
    unread o (a, read) gone = cc
