-- ===== src/Ent/Update.antt =====
-- `ProofRequestUpdate` and `ProofRequestUpdateOne` (db/ent/proofrequest_update.go), and the update
-- statements of db/db.go.
use optimism_zkp.Prelude.{ℕ, Bool, false, Option, none, some, [], ◌∷◌}
use optimism_zkp.Request.{Bytes, Status, complete}
use optimism_zkp.Ent.Field.{
  Field, Numeric, Nullable, Value, status_text, type_validator, status_validator,
}
use optimism_zkp.Ent.Mutation.{Mutation, new_mutation, set, get, added}
use optimism_zkp.Ent.Create.{Invalid, first_of, validated}

-- `check`
unfoldable pub update_check : Mutation → Option Invalid
update_check m = first_of (
    validated Field.type type_validator (get Field.type m)
    ∷ validated Field.status status_validator (get Field.status m)
    ∷ [])

-- What `SetField`, `AddField` and `ClearField` put into a `sqlgraph.UpdateSpec`.
pub record UpdateSpec : Type 0 where
  pub sets : (f : Field) → Option (Value f)
  pub adds : Field → Option ℕ
  pub clears : Field → Bool

abbrev pub added_of : Field → Mutation → Option ℕ
added_of Field.start_block m = added Numeric.start_block m
added_of Field.end_block m = added Numeric.end_block m
added_of Field.request_added_time m = added Numeric.request_added_time m
added_of Field.proof_request_time m = added Numeric.proof_request_time m
added_of Field.last_updated_time m = added Numeric.last_updated_time m
added_of Field.l1_block_number m = added Numeric.l1_block_number m
added_of _ m = none

abbrev pub cleared_of : Field → Mutation → Bool
cleared_of Field.prover_request_id m = m.cleared Nullable.prover_request_id
cleared_of Field.proof_request_time m = m.cleared Nullable.proof_request_time
cleared_of Field.l1_block_number m = m.cleared Nullable.l1_block_number
cleared_of Field.l1_block_hash m = m.cleared Nullable.l1_block_hash
cleared_of Field.proof m = m.cleared Nullable.proof
cleared_of _ m = false

unfoldable pub update_spec : Mutation → UpdateSpec
update_spec m = record {
  sets = λ f. get f m;
  adds = λ f. added_of f m;
  clears = λ f. cleared_of f m;
}

-- `sqlSave` as far as the statement: the error of `check`, the missing key of `UpdateOne`, or the statement.
pub data Updating : Type 0 where
  rejected : Invalid → Updating
  no_key : Updating
  update_all : UpdateSpec → Updating
  update_one : ℕ → UpdateSpec → Updating

abbrev pub all_by : Mutation → Option Invalid → Updating
all_by m none = update_all (update_spec m)
all_by m (some x) = rejected x

unfoldable pub save_all : Mutation → Updating
save_all m = all_by m (update_check m)

abbrev pub one_by : Option ℕ → Mutation → Option Invalid → Updating
one_by key m (some x) = rejected x
one_by none m none = no_key
one_by (some key) m none = update_one key (update_spec m)

unfoldable pub save_one : Option ℕ → Mutation → Updating
save_one key m = one_by key m (update_check m)

-- The builders of `UpdateProofStatus`, `SetProverRequestID`, `AddFulfilledProof` and
-- `AddL1BlockInfoToAggRequest`.
module _ (now : ℕ) where
  unfoldable pub status_builder : Status → Mutation
  status_builder status =
      set Field.last_updated_time now (set Field.status (status_text status) new_mutation)

  unfoldable pub prover_id_builder : Bytes → Mutation
  prover_id_builder prover_id =
      set Field.last_updated_time now
        (set Field.proof_request_time now (set Field.prover_request_id prover_id new_mutation))

  unfoldable pub proof_builder : Option Bytes → Mutation
  proof_builder proof =
      set Field.last_updated_time now
        (set Field.status (status_text complete) (set Field.proof proof new_mutation))

  unfoldable pub l1_builder : ℕ → Bytes → Mutation
  l1_builder number hash =
      set Field.last_updated_time now
        (set Field.l1_block_hash hash (set Field.l1_block_number number new_mutation))
