-- ===== src/Tests/Setup.antt =====
-- Concrete starts of the service: one in which the RPC server does not start, one with the factory's
-- address only.
use optimism_zkp.Prelude.{◌≡◌, refl, Bool, true, false, Option, none, some, [], ◌∷◌}
use optimism_zkp.Prelude.Effects.{ok}
use optimism_zkp.Prelude.Effects.Ensures.{Ends}
use optimism_zkp.Request.{Bytes}
use optimism_zkp.Service.{
  Resource, rpc_server, metrics_srv, CliConfig, check, Host, Service,
  proposer_service_from_cli_config,
}
use optimism_zkp.Service.Cleanup.{IsReleased}
use optimism_zkp.Service.Begin.{IsUp, proposer_service_from_cli_config_lem, factory_only}
use optimism_zkp.Service.Life.{Context, main, IsMade, main_lem}
use optimism_zkp.Tests.{env, world}

abbrev starts : Resource → Bool
starts rpc_server = false
starts _ = true

abbrev stops : Resource → Bool
stops metrics_srv = false
stops _ = true

-- The empty text is no address.
abbrev read_address : Bytes → Option Bytes
read_address [] = none
read_address (a ∷ s) = some (a ∷ s)

abbrev host : Host
host = record {
  parse_address = read_address;
  starts = starts;
  stops = stops;
  binds_contract = true;
  reads_version = true;
  parses_oracle_abi = true;
  parses_factory_abi = true;
  opens_db = true;
}

abbrev flags : CliConfig
flags = record {
  rpc_config = true;
  metrics_config = true;
  pprof_config = true;
  tx_mgr_config = true;
  l2oo_address = 1 ∷ [];
  dgf_address = [];
  metrics_enabled = true;
  allow_non_finalized = false;
  wait_node_sync = true;
  use_cached_db = false;
  max_block_range_per_span_proof = 100;
  max_concurrent_witness_gen = 4;
  witness_gen_timeout = 1200;
  max_concurrent_proof_requests = 10;
  mock = false;
  dispute_game_type = 6;
}

abbrev blank : Service
blank = record {
  held = λ r. false;
  released = [];
  stopped = false;
  l2_output_oracle_addr = none;
  dispute_game_factory_addr = none;
  world = record world { running = false };
}

proposer_service_from_cli_config_lem_example :
    Ends
      (λ _. IsUp env host flags)
      IsReleased
      (proposer_service_from_cli_config env host flags blank)
proposer_service_from_cli_config_lem_example =
    proposer_service_from_cli_config_lem env host flags blank (refl, refl, refl)

abbrev command_line : Context
command_line = record {
  is_set = λ f. true;
  string = λ f. 1 ∷ [];
  boolean = λ f. false;
  uint64 = λ f. 100;
  rollup_config = λ url. some 10;
  rpc_config = true;
  metrics_config = true;
  pprof_config = true;
  tx_mgr_config = true;
  metrics_enabled = false;
}

main_lem_example : Ends (IsMade env host command_line) IsReleased (main env host command_line blank)
main_lem_example = main_lem env host command_line blank ((refl, refl, refl), λ r. refl)

abbrev factory_flags : CliConfig
factory_flags = record flags { l2oo_address = []; dgf_address = 1 ∷ [] }

factory_only_example :
    (check factory_flags ≡ ok tt)
    × Ends (λ _ t. ⊥) IsReleased (proposer_service_from_cli_config env host factory_flags blank)
factory_only_example = factory_only env host factory_flags refl refl refl blank (refl, refl, refl)
