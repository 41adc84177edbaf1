-- ===== src/Ent/Mutation.antt =====
-- `ProofRequestMutation` (db/ent/mutation.go): what a builder has collected.
use optimism_zkp.Prelude.{ℕ, ◌+◌, ◌%◌, u64, Bool, true, false, Option, none, some, if◌then◌else◌}
use optimism_zkp.Request.{Bytes}
use optimism_zkp.Ent.Field.{Field, Value, Numeric, Nullable, same_nullable}

-- The values that were set, the numbers that were added (int64 in two's complement), the fields that
-- were cleared.
pub record Mutation : Type 0 where
  pub type : Option Bytes
  pub start_block : Option ℕ
  pub add_start_block : Option ℕ
  pub end_block : Option ℕ
  pub add_end_block : Option ℕ
  pub status : Option Bytes
  pub request_added_time : Option ℕ
  pub add_request_added_time : Option ℕ
  pub prover_request_id : Option Bytes
  pub proof_request_time : Option ℕ
  pub add_proof_request_time : Option ℕ
  pub last_updated_time : Option ℕ
  pub add_last_updated_time : Option ℕ
  pub l1_block_number : Option ℕ
  pub add_l1_block_number : Option ℕ
  pub l1_block_hash : Option Bytes
  pub proof : Option (Option Bytes)
  pub cleared : Nullable → Bool

-- `newProofRequestMutation`
abbrev pub new_mutation : Mutation
new_mutation = record {
  type = none;
  start_block = none;
  add_start_block = none;
  end_block = none;
  add_end_block = none;
  status = none;
  request_added_time = none;
  add_request_added_time = none;
  prover_request_id = none;
  proof_request_time = none;
  add_proof_request_time = none;
  last_updated_time = none;
  add_last_updated_time = none;
  l1_block_number = none;
  add_l1_block_number = none;
  l1_block_hash = none;
  proof = none;
  cleared = λ f. false;
}

-- `SetType`, `SetStartBlock` and so on.
unfoldable pub set : (f : Field) → Value f → Mutation → Mutation
set Field.type v m = record m { type = some v }
set Field.start_block v m = record m { start_block = some v; add_start_block = none }
set Field.end_block v m = record m { end_block = some v; add_end_block = none }
set Field.status v m = record m { status = some v }
set Field.request_added_time v m = record m {
  request_added_time = some v;
  add_request_added_time = none;
}
set Field.prover_request_id v m = record m { prover_request_id = some v }
set Field.proof_request_time v m = record m {
  proof_request_time = some v;
  add_proof_request_time = none;
}
set Field.last_updated_time v m = record m {
  last_updated_time = some v;
  add_last_updated_time = none;
}
set Field.l1_block_number v m = record m { l1_block_number = some v; add_l1_block_number = none }
set Field.l1_block_hash v m = record m { l1_block_hash = some v }
set Field.proof v m = record m { proof = some v }

-- `GetType`, `StartBlock` and so on.
unfoldable pub get : (f : Field) → Mutation → Option (Value f)
get Field.type m = m.type
get Field.start_block m = m.start_block
get Field.end_block m = m.end_block
get Field.status m = m.status
get Field.request_added_time m = m.request_added_time
get Field.prover_request_id m = m.prover_request_id
get Field.proof_request_time m = m.proof_request_time
get Field.last_updated_time m = m.last_updated_time
get Field.l1_block_number m = m.l1_block_number
get Field.l1_block_hash m = m.l1_block_hash
get Field.proof m = m.proof

abbrev plus : Option ℕ → ℕ → Option ℕ
plus none u = some u
plus (some a) u = some ((a + u) % u64)

-- `AddStartBlock` and so on.
unfoldable pub add : Numeric → ℕ → Mutation → Mutation
add Numeric.start_block u m = record m { add_start_block = plus m.add_start_block u }
add Numeric.end_block u m = record m { add_end_block = plus m.add_end_block u }
add Numeric.request_added_time u m = record m {
  add_request_added_time = plus m.add_request_added_time u;
}
add Numeric.proof_request_time u m = record m {
  add_proof_request_time = plus m.add_proof_request_time u;
}
add Numeric.last_updated_time u m = record m {
  add_last_updated_time = plus m.add_last_updated_time u;
}
add Numeric.l1_block_number u m = record m { add_l1_block_number = plus m.add_l1_block_number u }

-- `AddedStartBlock` and so on.
unfoldable pub added : Numeric → Mutation → Option ℕ
added Numeric.start_block m = m.add_start_block
added Numeric.end_block m = m.add_end_block
added Numeric.request_added_time m = m.add_request_added_time
added Numeric.proof_request_time m = m.add_proof_request_time
added Numeric.last_updated_time m = m.add_last_updated_time
added Numeric.l1_block_number m = m.add_l1_block_number

abbrev with_cleared : Nullable → Bool → (Nullable → Bool) → Nullable → Bool
with_cleared f b cleared g = if same_nullable f g then b else cleared g

-- The value and what was added to it are dropped.
abbrev dropped : Nullable → Mutation → Mutation
dropped Nullable.prover_request_id m = record m { prover_request_id = none }
dropped Nullable.proof_request_time m = record m {
  proof_request_time = none;
  add_proof_request_time = none;
}
dropped Nullable.l1_block_number m = record m { l1_block_number = none; add_l1_block_number = none }
dropped Nullable.l1_block_hash m = record m { l1_block_hash = none }
dropped Nullable.proof m = record m { proof = none }

-- `ClearProverRequestID` and so on.
unfoldable pub clear : Nullable → Mutation → Mutation
clear f m = record (dropped f m) { cleared = with_cleared f true m.cleared }

-- `ResetType`, `ResetStartBlock` and so on.
unfoldable pub reset : Field → Mutation → Mutation
reset Field.type m = record m { type = none }
reset Field.start_block m = record m { start_block = none; add_start_block = none }
reset Field.end_block m = record m { end_block = none; add_end_block = none }
reset Field.status m = record m { status = none }
reset Field.request_added_time m = record m {
  request_added_time = none;
  add_request_added_time = none;
}
reset Field.prover_request_id m = record (dropped Nullable.prover_request_id m) {
  cleared = with_cleared Nullable.prover_request_id false m.cleared;
}
reset Field.proof_request_time m = record (dropped Nullable.proof_request_time m) {
  cleared = with_cleared Nullable.proof_request_time false m.cleared;
}
reset Field.last_updated_time m = record m {
  last_updated_time = none;
  add_last_updated_time = none;
}
reset Field.l1_block_number m = record (dropped Nullable.l1_block_number m) {
  cleared = with_cleared Nullable.l1_block_number false m.cleared;
}
reset Field.l1_block_hash m = record (dropped Nullable.l1_block_hash m) {
  cleared = with_cleared Nullable.l1_block_hash false m.cleared;
}
reset Field.proof m = record (dropped Nullable.proof m) {
  cleared = with_cleared Nullable.proof false m.cleared;
}
