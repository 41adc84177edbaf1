-- ===== src/Service/Life.antt =====
-- From the flags to the service and back: `Main` (proposer/op/proposer/l2_output_submitter.go) with
-- `CheckRequired` (flags/flags.go) and `NewConfig` (config.go), and `Start` and `Kill` (service.go).
use optimism_zkp.Prelude.{
  ℕ, ◌≡◌, ◌≢◌, refl, sym, ap, ◌∙◌, Bool, true, false, Option, none, some, List, [], ◌∷◌,
  if◌then◌else◌, All, one_if, Bool-cases, inl, inr, count, arith,
}
use mathlib.Core.Option.{some-ne-none}
use optimism_zkp.Prelude.Effects.{
  continue, Result, ok, err, Exec, pure, lift, ◌>>=◌, ◌>>◌, rpc_failed, invalid_flags,
}
use optimism_zkp.Prelude.Effects.Ensures.{Ends}
use optimism_zkp.Request.{Bytes}
use optimism_zkp.World.{Env, World, Config}
use optimism_zkp.Driver.{start_l2_output_submitting}
use optimism_zkp.Service.{
  Resource, CliConfig, check, Host, Service, same_resource, stop, proposer_service_from_cli_config,
}
use optimism_zkp.Service.Cleanup.{IsReleased, IsFresh}
use optimism_zkp.Service.Begin.{IsUp, proposer_service_from_cli_config_lem}

-- The flags of the proposer that are read here.
pub data Flag : Type 0 where
  l1_eth_rpc rollup_rpc beacon_rpc l2oo_address dgf_address allow_non_finalized wait_node_sync
        use_cached_db :
      Flag
  max_block_range_per_span_proof max_concurrent_witness_gen witness_gen_timeout : Flag
  max_concurrent_proof_requests mock : Flag

abbrev pub required_flags : List Flag
required_flags = l1_eth_rpc ∷ rollup_rpc ∷ beacon_rpc ∷ []

-- The command line, and the L2 chain that the rollup node at an address knows; what the flags of other
-- libraries pass is known to them.
pub record Context : Type 0 where
  pub is_set : Flag → Bool
  pub string : Flag → Bytes
  pub boolean : Flag → Bool
  pub uint64 : Flag → ℕ
  pub rollup_config : Bytes → Option ℕ
  pub rpc_config : Bool
  pub metrics_config : Bool
  pub pprof_config : Bool
  pub tx_mgr_config : Bool
  pub metrics_enabled : Bool

-- The loop of `CheckRequired`.
unfoldable pub all_set : Context → List Flag → Bool
all_set x [] = true
all_set x (f ∷ fs) = if x.is_set f then all_set x fs else false

unfoldable pub check_required : Context → Result (Unit {0})
check_required x = if all_set x required_flags then ok tt else err invalid_flags

abbrev pub config_of : Context → CliConfig
config_of x = record {
  rpc_config = x.rpc_config;
  metrics_config = x.metrics_config;
  pprof_config = x.pprof_config;
  tx_mgr_config = x.tx_mgr_config;
  l2oo_address = x.string l2oo_address;
  dgf_address = x.string dgf_address;
  metrics_enabled = x.metrics_enabled;
  allow_non_finalized = x.boolean allow_non_finalized;
  wait_node_sync = x.boolean wait_node_sync;
  use_cached_db = x.boolean use_cached_db;
  max_block_range_per_span_proof = x.uint64 max_block_range_per_span_proof;
  max_concurrent_witness_gen = x.uint64 max_concurrent_witness_gen;
  witness_gen_timeout = x.uint64 witness_gen_timeout;
  max_concurrent_proof_requests = x.uint64 max_concurrent_proof_requests;
  mock = x.boolean mock;
  dispute_game_type = 6;
}

-- `NewConfig`; where the rollup node does not answer the process ends.
abbrev pub new_config_from : Context → Option ℕ → Result CliConfig
new_config_from x none = err rpc_failed
new_config_from x (some chain) = ok (config_of x)

unfoldable pub new_config : Context → Result CliConfig
new_config x = new_config_from x (x.rollup_config (x.string rollup_rpc))

abbrev pub is_some : Option Bytes → Bool
is_some none = false
is_some (some a) = true

-- The config of the driver: what `initFromCLIConfig` copied, and the addresses that were read; the
-- type of game is copied with the address of the factory.
unfoldable pub driver_config : CliConfig → Service → Config
driver_config c s = record {
  l2_output_oracle_addr = s.l2_output_oracle_addr;
  has_dispute_game_factory = is_some s.dispute_game_factory_addr;
  dispute_game_type = if is_some s.dispute_game_factory_addr then c.dispute_game_type else 0;
  allow_non_finalized = c.allow_non_finalized;
  wait_node_sync = c.wait_node_sync;
  max_block_range_per_span_proof = c.max_block_range_per_span_proof;
  max_concurrent_witness_gen = c.max_concurrent_witness_gen;
  witness_gen_timeout = c.witness_gen_timeout;
  max_concurrent_proof_requests = c.max_concurrent_proof_requests;
  mock = c.mock;
}

module _ (e : Env) (h : Host) where
  -- `Main`, from the empty service; the config is what the driver starts with.
  unfoldable pub main : Context → Exec Service CliConfig
  main x = do
    lift (check_required x)
    c ← lift (new_config x)
    lift (check c)
    proposer_service_from_cli_config e h c
    pure c

  abbrev pub in_world : Result (Unit {0}) × World → Service → Result (Unit {0}) × Service
  in_world (r, w) s = (r, record s { world = w })

  -- `Start` and `Kill`
  unfoldable pub start : CliConfig → Exec Service (Unit {0})
  start c = λ s. in_world (start_l2_output_submitting e (driver_config c s) s.world) s

  unfoldable pub kill : Exec Service (Unit {0})
  kill = stop e h

-- A service that is empty but for the driver's world.
abbrev pub IsNew : Service → Type 0
IsNew s = IsFresh s × ((r : Resource) → s.held r ≡ false)

-- What is known of the flags where `Main` succeeds.
abbrev pub IsAllowed : Context → CliConfig → Type 0
IsAllowed x c =
    All (λ f. x.is_set f ≡ true) required_flags
    × (x.rollup_config (x.string rollup_rpc) ≢ none)
    × (c ≡ config_of x)
    × (check c ≡ ok tt)

all_set-All : (x : Context) (fs : List Flag) → all_set x fs ≡ true → All (λ f. x.is_set f ≡ true) fs
unfolding all_set
all_set-All x [] h = tt
all_set-All x (f ∷ fs) h = elim (Bool-cases (x.is_set f)) [
  | inl e ↦ (e, all_set-All x fs (rw e at h))
  | inr e ↦ absurd (ground (arith, e, h))
]

new-IsReleased : (s : Service) → IsNew s → IsReleased s
unfolding count
new-IsReleased s (fresh, empty) r =
    ap (λ l. count (same_resource r) l) fresh.0 ∙ sym (ap one_if (empty r))

abbrev value_or : CliConfig → Result CliConfig → CliConfig
value_or d (ok c) = c
value_or d (err y) = d

-- A result that a call is made of.
result_first :
    {A B : Type 0} (Q : B → Service → Type 0) (E : Service → Type 0) (m : Result A)
    (k : A → Exec Service B) (s : Service)
    → E s
    → ((a : A) → m ≡ ok a → Ends Q E (k a s))
    → Ends Q E ((lift m >>= k) s)
unfolding ◌>>=◌ lift
result_first Q E (ok a) k s h f = f a refl
result_first Q E (err x) k s h f = h

module _ (e : Env) (h : Host) (x : Context) where
  -- What `Main` leaves.
  abbrev pub IsMade : CliConfig → Service → Type 0
  IsMade c s = IsAllowed x c × IsUp e h c s

  made :
      (c : CliConfig)
      → IsAllowed x c
      → (r : Result (Unit {0})) (s : Service) → Ends (λ _. IsUp e h c) IsReleased (r, s)
      → Ends IsMade IsReleased (continue (λ _. pure c) r s)
  unfolding pure
  made c allowed (ok a) s k = (allowed, k)
  made c allowed (err y) s k = k

  required-ok :
      (u : Unit {0}) → check_required x ≡ ok u → All (λ f. x.is_set f ≡ true) required_flags
  unfolding check_required
  required-ok u k = elim (Bool-cases (all_set x required_flags)) [
    | inl t ↦ all_set-All x required_flags t
    | inr f ↦ absurd (ground (arith, f, k))
  ]

  config-ok :
      (o : Option ℕ) (c : CliConfig) → new_config_from x o ≡ ok c → (o ≢ none) × (c ≡ config_of x)
  config-ok none c k = ground arith
  config-ok (some n) c k = ((λ gone. some-ne-none n gone), ap (value_or (config_of x)) (sym k))

  -- From a service that is empty but for a driver's world that does not run: Main succeeds only where
  -- the required flags are set, the rollup node answers and the flags pass the check, with the config
  -- that the flags give and the service up; where it fails, at whichever step, Stop or Close was
  -- called once on each resource that the service holds, and on no other.
  pub main_lem : (s : Service) → IsNew s → Ends IsMade IsReleased (main e h x s)
  unfolding main new_config ◌>>=◌
  main_lem s new =
      result_first IsMade IsReleased (check_required x) _ s (new-IsReleased s new) (λ u set.
        result_first IsMade IsReleased (new_config x) _ s (new-IsReleased s new) (λ c read.
          result_first IsMade IsReleased (check c) _ s (new-IsReleased s new) (λ v checked.
            let (r, t) = proposer_service_from_cli_config e h c s in
            made c (required-ok u set, (config-ok _ c read).0, (config-ok _ c read).1, checked) r t
              (proposer_service_from_cli_config_lem e h c s new.0))))
