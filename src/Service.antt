-- ===== src/Service.antt =====
-- The service around the driver: `CLIConfig.Check` (proposer/op/proposer/config.go), the initialisation and
-- the end of `ProposerService` (service.go), `NewL2OutputSubmitter` (driver.go).
pub mod Cleanup
pub mod Begin
pub mod Life
use optimism_zkp.Prelude.{
  ℕ, Bool, true, false, not, ◌&&◌, ◌||◌, Option, none, some, List, [], ◌∷◌, ◌++◌, if◌then◌else◌,
  ◌==◌,
}
use optimism_zkp.Prelude.Effects.{
  Error, Result, ok, err, Exec, pure, raise, gets, modify, ◌>>=◌, ◌>>◌, catch, rpc_failed,
  no_address, already_closed, invalid_flags, already_stopped, stop_failed,
}
use optimism_zkp.Request.{Bytes}
use optimism_zkp.World.{Env, World}
use optimism_zkp.Prove.{is_blank}
use optimism_zkp.Driver.{stop_l2_output_submitting_if_running}

-- What the service holds: a field of `ProposerService` that is not nil.
pub data Resource : Type 0 where
  l1_client rollup_provider tx_manager balance_metricer metrics_srv pprof_service driver
        rpc_server :
      Resource

-- The flags that are read, but for texts that are only handed on, and whether the parts of other
-- libraries pass their own `Check`.
pub record CliConfig : Type 0 where
  pub rpc_config : Bool
  pub metrics_config : Bool
  pub pprof_config : Bool
  pub tx_mgr_config : Bool
  pub l2oo_address : Bytes
  pub dgf_address : Bytes
  pub metrics_enabled : Bool
  pub allow_non_finalized : Bool
  pub wait_node_sync : Bool
  pub use_cached_db : Bool
  pub max_block_range_per_span_proof : ℕ
  pub max_concurrent_witness_gen : ℕ
  pub witness_gen_timeout : ℕ
  pub max_concurrent_proof_requests : ℕ
  pub mock : Bool
  pub dispute_game_type : ℕ

-- `CLIConfig.Check`
unfoldable pub check : CliConfig → Result (Unit {0})
check c =
    if not (c.rpc_config && c.metrics_config && c.pprof_config && c.tx_mgr_config)
    then err invalid_flags
    else if is_blank c.l2oo_address && is_blank c.dgf_address
    then err invalid_flags
    else ok tt

-- What is met outside: reading an address, whether a resource can be made and started, whether it stops, and
-- the calls that the driver is made with.
pub record Host : Type 0 where
  pub parse_address : Bytes → Option Bytes
  pub starts : Resource → Bool
  pub stops : Resource → Bool
  pub binds_contract : Bool
  pub reads_version : Bool
  pub parses_oracle_abi : Bool
  pub parses_factory_abi : Bool
  pub opens_db : Bool

-- `ProposerService`, the resources on which Stop or Close was called so far, and the driver's world.
pub record Service : Type 0 where
  pub held : Resource → Bool
  pub released : List Resource
  pub stopped : Bool
  pub l2_output_oracle_addr : Option Bytes
  pub dispute_game_factory_addr : Option Bytes
  pub world : World

abbrev pub rank : Resource → ℕ
rank l1_client = 0
rank rollup_provider = 1
rank tx_manager = 2
rank balance_metricer = 3
rank metrics_srv = 4
rank pprof_service = 5
rank driver = 6
rank rpc_server = 7

abbrev pub same_resource : Resource → Resource → Bool
same_resource r x = rank r == rank x

-- The field is set.
unfoldable pub hold : Resource → Exec Service (Unit {0})
hold r = modify (λ s. record s { held = λ x. same_resource r x || s.held x })

-- What has no stop that could fail.
abbrev pub closes : Resource → Bool
closes l1_client = true
closes rollup_provider = true
closes tx_manager = true
closes _ = false

abbrev pub panics : Error → Bool
panics already_closed = true
panics _ = false

-- How stopping the driver ends: whether it failed; a panic goes on.
abbrev pub joined : Result (Unit {0}) → World → Service → Result Bool × Service
joined (ok a) w s = (ok false, record s { world = w })
joined (err x) w s = ((if panics x then err x else ok true), record s { world = w })

-- The order in which `Stop` goes through the fields.
abbrev pub stop_order : List Resource
stop_order =
    driver ∷ rpc_server ∷ pprof_service ∷ balance_metricer ∷ tx_manager ∷ metrics_srv ∷ l1_client
    ∷ rollup_provider ∷ []

unfoldable pub require : Bool → Exec Service (Unit {0})
require b = if b then pure tt else raise rpc_failed

module _ (e : Env) (h : Host) where
  unfoldable pub obtain : Resource → Exec Service (Unit {0})
  obtain r = if h.starts r then hold r else raise rpc_failed

  -- `initL2ooAddress` and `initDGF`: an address that cannot be read is left out.
  unfoldable pub init_addresses : CliConfig → Exec Service (Unit {0})
  init_addresses c = modify (λ s. record s {
    l2_output_oracle_addr = h.parse_address c.l2oo_address;
    dispute_game_factory_addr = h.parse_address c.dgf_address;
  })

  unfoldable pub init_rpc_clients : Exec Service (Unit {0})
  init_rpc_clients = do obtain l1_client; obtain rollup_provider

  unfoldable pub init_balance_monitor : CliConfig → Exec Service (Unit {0})
  init_balance_monitor c = if c.metrics_enabled then hold balance_metricer else pure tt

  unfoldable pub init_metrics_server : CliConfig → Exec Service (Unit {0})
  init_metrics_server c = if c.metrics_enabled then obtain metrics_srv else pure tt

  -- The field is set before the start.
  unfoldable pub init_pprof : Exec Service (Unit {0})
  init_pprof = do hold pprof_service; if h.starts pprof_service then pure tt else raise rpc_failed

  -- `initDriver` with `NewL2OutputSubmitter`, which asks for the address of the oracle.
  unfoldable pub new_l2_output_submitter : Option Bytes → Exec Service (Unit {0})
  new_l2_output_submitter none = raise no_address
  new_l2_output_submitter (some a) = do
    require h.binds_contract
    require h.reads_version
    require h.parses_oracle_abi
    require h.parses_factory_abi
    require h.opens_db
    hold driver

  unfoldable pub init_driver : Exec Service (Unit {0})
  init_driver = do address ← gets (λ s. s.l2_output_oracle_addr); new_l2_output_submitter address

  unfoldable pub init_from_cli_config : CliConfig → Exec Service (Unit {0})
  init_from_cli_config c = do
    init_addresses c
    init_rpc_clients
    obtain tx_manager
    init_balance_monitor c
    init_metrics_server c
    init_pprof
    init_driver
    obtain rpc_server

  unfoldable pub release : Resource → Exec Service Bool
  release driver = λ s. let (r, w) = stop_l2_output_submitting_if_running e s.world in joined r w s
  release r = pure (not (closes r) && not (h.stops r))

  -- `if ps.r != nil { ... }`: whether stopping it failed.
  unfoldable pub stop_one : Resource → Exec Service Bool
  stop_one r = do
    is_held ← gets (λ s. s.held r)
    if is_held
        then (do modify (λ s. record s { released = s.released ++ r ∷ [] }); release r)
        else pure false

  unfoldable pub stop_all : List Resource → Exec Service Bool
  stop_all [] = pure false
  stop_all (r ∷ rs) = do failed ← stop_one r; later ← stop_all rs; pure (failed || later)

  unfoldable pub stop : Exec Service (Unit {0})
  stop = do
    is_stopped ← gets (λ s. s.stopped)
    if is_stopped then raise already_stopped else do
      failed ← stop_all stop_order
      if failed then raise stop_failed else modify (λ s. record s { stopped = true })

  -- The error of the initialisation comes back, joined with that of the cleanup.
  unfoldable pub cleaned_up : Result (Unit {0}) → Exec Service (Unit {0})
  cleaned_up (ok a) = pure tt
  cleaned_up (err x) = catch stop (λ r. raise x)

  unfoldable pub proposer_service_from_cli_config : CliConfig → Exec Service (Unit {0})
  proposer_service_from_cli_config c = catch (init_from_cli_config c) cleaned_up
