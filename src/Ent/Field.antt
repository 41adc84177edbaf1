-- ===== src/Ent/Field.antt =====
-- The columns of `proof_requests` (db/ent/proofrequest/proofrequest.go) with the Go types of their values,
-- and the validators of the two enums.
use optimism_zkp.Prelude.{ℕ, Bool, true, false, ◌||◌, Option, none, [], ◌∷◌}
use optimism_zkp.Request.{
  Bytes, ProofType, span, agg, Status, unreq, witnessgen, proving, failed, complete,
}
use optimism_zkp.Db.Table.{same_bytes}

pub data Field : Type 0 where
  type start_block end_block status request_added_time prover_request_id : Field
  proof_request_time last_updated_time l1_block_number l1_block_hash proof : Field

-- The fields that can be added to, and those that may be NULL.
pub data Numeric : Type 0 where
  start_block end_block request_added_time proof_request_time last_updated_time l1_block_number :
      Numeric

pub data Nullable : Type 0 where
  prover_request_id proof_request_time l1_block_number l1_block_hash proof : Nullable

abbrev pub same_nullable : Nullable → Nullable → Bool
same_nullable Nullable.prover_request_id Nullable.prover_request_id = true
same_nullable Nullable.proof_request_time Nullable.proof_request_time = true
same_nullable Nullable.l1_block_number Nullable.l1_block_number = true
same_nullable Nullable.l1_block_hash Nullable.l1_block_hash = true
same_nullable Nullable.proof Nullable.proof = true
same_nullable _ _ = false

-- The Go type of a field: the enums are strings, and a byte slice may be nil.
abbrev pub Value : Field → Type 0
Value Field.type = Bytes
Value Field.start_block = ℕ
Value Field.end_block = ℕ
Value Field.status = Bytes
Value Field.request_added_time = ℕ
Value Field.prover_request_id = Bytes
Value Field.proof_request_time = ℕ
Value Field.last_updated_time = ℕ
Value Field.l1_block_number = ℕ
Value Field.l1_block_hash = Bytes
Value Field.proof = Option Bytes

-- The zero value of the type.
abbrev pub zero_value : (f : Field) → Value f
zero_value Field.type = []
zero_value Field.start_block = 0
zero_value Field.end_block = 0
zero_value Field.status = []
zero_value Field.request_added_time = 0
zero_value Field.prover_request_id = []
zero_value Field.proof_request_time = 0
zero_value Field.last_updated_time = 0
zero_value Field.l1_block_number = 0
zero_value Field.l1_block_hash = []
zero_value Field.proof = none

-- "SPAN" and "AGG"
abbrev pub type_text : ProofType → Bytes
type_text span = 83 ∷ 80 ∷ 65 ∷ 78 ∷ []
type_text agg = 65 ∷ 71 ∷ 71 ∷ []

-- "UNREQ", "WITNESSGEN", "PROVING", "FAILED" and "COMPLETE"
abbrev pub status_text : Status → Bytes
status_text unreq = 85 ∷ 78 ∷ 82 ∷ 69 ∷ 81 ∷ []
status_text witnessgen = 87 ∷ 73 ∷ 84 ∷ 78 ∷ 69 ∷ 83 ∷ 83 ∷ 71 ∷ 69 ∷ 78 ∷ []
status_text proving = 80 ∷ 82 ∷ 79 ∷ 86 ∷ 73 ∷ 78 ∷ 71 ∷ []
status_text failed = 70 ∷ 65 ∷ 73 ∷ 76 ∷ 69 ∷ 68 ∷ []
status_text complete = 67 ∷ 79 ∷ 77 ∷ 80 ∷ 76 ∷ 69 ∷ 84 ∷ 69 ∷ []

-- `TypeValidator` and `StatusValidator`
unfoldable pub type_validator : Bytes → Bool
type_validator t = same_bytes t (type_text span) || same_bytes t (type_text agg)

unfoldable pub status_validator : Bytes → Bool
status_validator s =
    same_bytes s (status_text unreq)
    || same_bytes s (status_text witnessgen)
    || same_bytes s (status_text proving)
    || same_bytes s (status_text failed)
    || same_bytes s (status_text complete)
