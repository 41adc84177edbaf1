-- ===== src/Ent/Where.antt =====
-- The predicates of the package `proofrequest` (db/ent/proofrequest/where.go) and the tests of the
-- queries of db/db.go.
use optimism_zkp.Prelude.{ℕ, List, [], ◌∷◌}
use optimism_zkp.Request.{Bytes, ProofType, span, agg, Status, unreq, complete, failed}
use optimism_zkp.Ent.Field.{Field, Numeric, Value, type_text, status_text}

-- What `sql.FieldEQ` and the other constructors of ent's package `sql` are given.
pub data Predicate : Type 0 where
  id_eq : ℕ → Predicate
  field_eq field_neq : (f : Field) → Value f → Predicate
  field_in : (f : Field) → List (Value f) → Predicate
  field_gte field_lte : Numeric → ℕ → Predicate

abbrev pub type_eq : ProofType → Predicate
type_eq t = field_eq Field.type (type_text t)

abbrev pub status_eq : Status → Predicate
status_eq s = field_eq Field.status (status_text s)

abbrev pub status_neq : Status → Predicate
status_neq s = field_neq Field.status (status_text s)

-- `StatusIn` of one status.
abbrev pub status_in : Status → Predicate
status_in s = field_in Field.status (status_text s ∷ [])

abbrev pub start_block_eq : ℕ → Predicate
start_block_eq b = field_eq Field.start_block b

abbrev pub end_block_eq : ℕ → Predicate
end_block_eq b = field_eq Field.end_block b

abbrev pub l1_block_number_eq : ℕ → Predicate
l1_block_number_eq n = field_eq Field.l1_block_number n

abbrev pub l1_block_hash_eq : Bytes → Predicate
l1_block_hash_eq h = field_eq Field.l1_block_hash h

abbrev pub start_block_gte : ℕ → Predicate
start_block_gte b = field_gte Numeric.start_block b

abbrev pub end_block_lte : ℕ → Predicate
end_block_lte b = field_lte Numeric.end_block b

-- The lists that db.go hands to `Where`.
unfoldable pub where_id : ℕ → List Predicate
where_id key = id_eq key ∷ []

unfoldable pub where_status : Status → List Predicate
where_status s = status_eq s ∷ []

unfoldable pub where_statuses : Status → List Predicate
where_statuses s = status_in s ∷ []

unfoldable pub where_unrequested : ProofType → List Predicate
where_unrequested type = status_eq unreq ∷ type_eq type ∷ []

unfoldable pub where_range : ProofType → ℕ → ℕ → Status → List Predicate
where_range type start end status =
    type_eq type ∷ start_block_eq start ∷ end_block_eq end ∷ status_eq status ∷ []

unfoldable pub where_waiting_agg : ℕ → ℕ → List Predicate
where_waiting_agg start end =
    type_eq agg ∷ status_eq unreq ∷ start_block_eq start ∷ end_block_eq end ∷ []

unfoldable pub where_l1_block : ℕ → ℕ → ℕ → Bytes → List Predicate
where_l1_block start end number hash =
    type_eq agg
    ∷ status_eq unreq
    ∷ start_block_eq start
    ∷ end_block_eq end
    ∷ l1_block_number_eq number
    ∷ l1_block_hash_eq hash
    ∷ []

unfoldable pub where_completed_agg : ℕ → List Predicate
where_completed_agg start = type_eq agg ∷ start_block_eq start ∷ status_eq complete ∷ []

unfoldable pub where_live_agg : ℕ → List Predicate
where_live_agg start = type_eq agg ∷ start_block_eq start ∷ status_neq failed ∷ []

unfoldable pub where_span_from : ℕ → List Predicate
where_span_from start = type_eq span ∷ status_eq complete ∷ start_block_gte start ∷ []

unfoldable pub where_span_within : ℕ → ℕ → List Predicate
where_span_within start end =
    type_eq span ∷ status_eq complete ∷ start_block_gte start ∷ end_block_lte end ∷ []
