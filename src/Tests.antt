-- ===== src/Tests.antt =====
-- Concrete runs: a small table, services that answer, and each theorem at an input of them.
pub mod Handover
pub mod Whole
pub mod Setup
pub mod Parsing
pub mod Spans
pub mod Columns
use optimism_zkp.Prelude.{
  ℕ, ◌+◌, ◌^◌, ◌≤◌, ◌<◌, ◌≡◌, refl, subst, Bool, true, false, Option, none, some, List, [], ◌∷◌,
  ◌++◌, ◌⊎◌, ◌==◌, All, count, arith,
}
use optimism_zkp.Prelude.Effects.{ok, err, db_failed}
use optimism_zkp.Request.{Bytes, Request, span, Status, proving, complete, no_response}
use optimism_zkp.World.{Env, World, Config, ScansRows, SyncStatus, timeout, response, receipt}
use optimism_zkp.Range.{split_from, split_range_basic, split_at_heads}
use optimism_zkp.Range.Basic.{Splits, split_range_basic-Splits, split_from_hangs}
use optimism_zkp.Range.Heads.{SplitsTo, split_at_heads-SplitsTo}
use optimism_zkp.Range.Stage.{InRange}
use optimism_zkp.Db.{
  contiguous_end, collect_proofs, get_max_contiguous_span_proof_range,
  try_create_agg_proof_from_span_proofs,
}
use optimism_zkp.Db.Table.{find}
use optimism_zkp.Db.Claims.{IsProper, IsTidy, claims_of}
use optimism_zkp.Db.Chain.{IsNonempty, IsAhead}
use optimism_zkp.Db.Chain.Range.{EndsRun, proofs_of, get_max_contiguous-EndsRun}
use optimism_zkp.Db.Chain.Stall.{contiguous_end_duplicates}
use optimism_zkp.Db.Chain.Collect.{Links, proofs_in, collect_proofs_lem}
use optimism_zkp.Db.Chain.Create.{Created, Skipped, try_create_lem}
use optimism_zkp.Prove.{retry_request}
use optimism_zkp.Prove.Retry.{share_of}
use optimism_zkp.Prove.Conserve.{retry_request_conserves, retry_request_loses}
use optimism_zkp.Prove.Http.{attempt, is_healthy}
use optimism_zkp.Prove.Http.Backoff.{IsErr, sum, attempt_exhausts}
use optimism_zkp.Driver.{poll}
use optimism_zkp.Driver.Poll.{poll-IsTidy}

abbrev row : ℕ → Status → ℕ → ℕ → Option Bytes → Request
row key status start end proof = record {
  id = key;
  type = span;
  start_block = start;
  end_block = end;
  status = status;
  request_added_time = 1;
  prover_request_id = [];
  proof_request_time = 0;
  last_updated_time = 1;
  l1_block_number = 0;
  l1_block_hash = [];
  proof = proof;
}

abbrev stuck : Request
stuck = row 2 proving 300 400 none

abbrev table : List Request
table = stuck ∷ row 1 complete 200 300 (some (8 ∷ [])) ∷ row 0 complete 100 200 (some (7 ∷ [])) ∷ []

abbrev world : World
world = record {
  rows = table;
  next_id = 3;
  calls = 0;
  sent = [];
  spawned = [];
  slept = [];
  running = true;
  looping = true;
  closed = false;
}

abbrev sync : SyncStatus
sync = record { head_l1 = 50; unsafe_l2 = 650; safe_l2 = 600; finalized_l2 = 550 }

-- The services, with the database failing at the calls that `fault` picks out.
abbrev services : (ℕ → Bool) → Env
services fault = record {
  fault = fault;
  scan = λ n l. l;
  now = λ n. 1000 + n;
  latest_block_number = λ n. some 100;
  next_block_number = λ n. some 250;
  dial = λ n. true;
  sync_status = λ n. some sync;
  output_at_block = λ n b. none;
  safe_head_at_l1_block = λ n b. some 600;
  l1_head = λ n. some 50;
  client_block_number = λ n. some 50;
  header_by_number = λ n b. none;
  bond_amount = λ n. some 1;
  pack = λ n t. true;
  send = λ n t. receipt true;
  ticks_until_done = λ n. 9;
  get = λ n p. timeout;
  post = λ n p b. response 503 none;
  unread = λ n b. [];
  span_json = λ r. [];
  agg_json = λ r. [];
  address_hex = λ a. a;
  address_json = λ a. a;
  parse_status = λ b. none;
  parse_proof_id = λ b. some b;
  parse_config = λ b. none;
}

abbrev env : Env
env = services (λ n. false)

services-ScansRows : (fault : ℕ → Bool) → ScansRows (services fault)
services-ScansRows fault = record { rows = λ n P l h. h; each = λ n p l. refl }

abbrev config : Config
config = record {
  l2_output_oracle_addr = some (1 ∷ []);
  has_dispute_game_factory = false;
  dispute_game_type = 0;
  allow_non_finalized = false;
  wait_node_sync = false;
  max_block_range_per_span_proof = 100;
  max_concurrent_witness_gen = 4;
  witness_gen_timeout = 1200;
  max_concurrent_proof_requests = 10;
  mock = false;
}

abbrev Below : Option SyncStatus → Type 0
Below none = Unit
Below (some s) = s.finalized_l2 + 100 < 2 ^ 63

below : (s : SyncStatus) → some sync ≡ some s → s.finalized_l2 + 100 < 2 ^ 63
below s h = subst Below h (omega arith)

config-InRange : InRange env config
config-InRange = record {
  size = omega arith;
  size_small = omega arith;
  contract = λ n b h. ground arith;
  finalized = λ n s h. below s h;
}

world-IsTidy : IsTidy 3 table
unfolding count
world-IsTidy = record {
  ids = (omega arith, (omega arith, (omega arith, tt)));
  ranges = (
    (λ h. omega arith, omega arith),
    ((λ h. omega arith, omega arith), ((λ h. omega arith, omega arith), tt)),
  );
  fits = λ b. ground arith;
}

poll-IsTidy_example : IsTidy (poll env config world).1.next_id (poll env config world).1.rows
poll-IsTidy_example =
    poll-IsTidy env (services-ScansRows _) config config-InRange world world-IsTidy

stuck-IsProper : IsProper stuck
stuck-IsProper = (λ h. omega arith, omega arith)

retry_request_conserves_example :
    ((retry_request env stuck no_response world).0 ≡ ok tt)
    × ((b : ℕ) → claims_of b (retry_request env stuck no_response world).1.rows ≡ claims_of b table)
unfolding find
retry_request_conserves_example =
    retry_request_conserves env stuck no_response world world-IsTidy.ids refl refl stuck-IsProper
      (λ n. refl)

-- The third statement of the database fails.
abbrev faulty : Env
faulty = services (λ n. n == 2)

retry_request_loses_example :
    ((retry_request faulty stuck no_response world).0 ≡ err db_failed)
    × ((b : ℕ)
        → claims_of b (retry_request faulty stuck no_response world).1.rows + share_of stuck b
          ≡ claims_of b table)
unfolding find
retry_request_loses_example =
    retry_request_loses faulty stuck no_response world world-IsTidy.ids refl refl stuck-IsProper
      refl refl refl

proofs_of-table : (b : ℕ) → proofs_of 100 b table ≤ 1
unfolding count
proofs_of-table b = ground arith

table-IsNonempty : All IsNonempty table
table-IsNonempty = (omega arith, (omega arith, (omega arith, tt)))

get_max_contiguous-EndsRun_example :
    (m : ℕ) × ((get_max_contiguous_span_proof_range env 100 world).0 ≡ ok m)
    × EndsRun 100 table m
    × ((get_max_contiguous_span_proof_range env 100 world).1.rows ≡ table)
get_max_contiguous-EndsRun_example =
    get_max_contiguous-EndsRun env 100 world (services-ScansRows _) table-IsNonempty proofs_of-table
      refl

try_create_lem_example :
    (m : ℕ) × EndsRun 100 table m
    × (Created env 100 250 world m (try_create_agg_proof_from_span_proofs env 100 250 world)
        ⊎ Skipped 100 250 world m (try_create_agg_proof_from_span_proofs env 100 250 world))
try_create_lem_example =
    try_create_lem env 100 250 world (services-ScansRows _) (λ n. refl) table-IsNonempty
      proofs_of-table
