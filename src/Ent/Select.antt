-- ===== src/Ent/Select.antt =====
-- What SQL's tests of a column are assumed to be, for the predicates of the package `proofrequest`.
pub mod Queries
use optimism_zkp.Prelude.{
  ℕ, ◌≡◌, refl, sym, ap, ◌∙◌, Bool, true, false, inl, inr, not, ◌&&◌, ◌||◌, Option, none, some,
  List, [], ◌∷◌, leb, ◌==◌, arith,
}
use mathlib.Core.Option.{some-injective, some-ne-none}
use optimism_zkp.Prelude.Tests.{Option-cases}
use optimism_zkp.Request.{
  Bytes, Request, ProofType, span, agg, Status, unreq, witnessgen, proving, complete, failed,
  same_type, same_status,
}
use optimism_zkp.Db.Table.{same_bytes}
use optimism_zkp.Db.{
  id_is, is_type, has_status, starts_at, ends_at, is_unrequested, is_range, is_waiting_agg,
  has_l1_block, is_completed_agg, is_live_agg, is_span_from, is_span_within,
}
use optimism_zkp.Ent.Field.{Field, Numeric, Value, type_text, status_text}
use optimism_zkp.Ent.Row.{Columns, or_zero, assign_values, field_of, Represents}
use optimism_zkp.Ent.Insert.{is_required}
use optimism_zkp.Ent.Where.{
  Predicate, id_eq, field_eq, field_neq, field_in, field_gte, field_lte, type_eq, status_eq,
  status_neq, status_in, start_block_eq, end_block_eq, l1_block_number_eq, l1_block_hash_eq,
  start_block_gte, end_block_lte, where_id, where_status, where_statuses, where_unrequested,
  where_range, where_waiting_agg, where_l1_block, where_completed_agg, where_live_agg,
  where_span_from, where_span_within,
}

abbrev pub same_proof : Option Bytes → Option Bytes → Bool
same_proof (some p) (some q) = same_bytes p q
same_proof _ _ = false

-- `=` of SQL on a column's values.
abbrev pub same_value : (f : Field) → Value f → Value f → Bool
same_value Field.type v w = same_bytes v w
same_value Field.start_block v w = v == w
same_value Field.end_block v w = v == w
same_value Field.status v w = same_bytes v w
same_value Field.request_added_time v w = v == w
same_value Field.prover_request_id v w = same_bytes v w
same_value Field.proof_request_time v w = v == w
same_value Field.last_updated_time v w = v == w
same_value Field.l1_block_number v w = v == w
same_value Field.l1_block_hash v w = same_bytes v w
same_value Field.proof v w = same_proof v w

abbrev pub any_same : (f : Field) → Value f → List (Value f) → Bool
any_same f w [] = false
any_same f w (v ∷ vs) = same_value f w v || any_same f w vs

abbrev pub number_of : Numeric → Columns → Option ℕ
number_of Numeric.start_block c = c Field.start_block
number_of Numeric.end_block c = c Field.end_block
number_of Numeric.request_added_time c = c Field.request_added_time
number_of Numeric.proof_request_time c = c Field.proof_request_time
number_of Numeric.last_updated_time c = c Field.last_updated_time
number_of Numeric.l1_block_number c = c Field.l1_block_number

-- The tests of SQL on a column; NULL equals nothing.
pub record ColumnTests (matches : Predicate → ℕ → Columns → Bool) : Type 0 where
  pub id_test : (v key : ℕ) (c : Columns) → matches (id_eq v) key c ≡ (key == v)
  pub eq_test :
      (f : Field) (v w : Value f) (key : ℕ) (c : Columns)
      → c f ≡ some w
      → matches (field_eq f v) key c ≡ same_value f w v
  pub null_test :
      (f : Field) (v : Value f) (key : ℕ) (c : Columns)
      → c f ≡ none
      → matches (field_eq f v) key c ≡ false
  pub neq_test :
      (f : Field) (v w : Value f) (key : ℕ) (c : Columns)
      → c f ≡ some w
      → matches (field_neq f v) key c ≡ not (same_value f w v)
  pub in_test :
      (f : Field) (vs : List (Value f)) (w : Value f) (key : ℕ) (c : Columns)
      → c f ≡ some w
      → matches (field_in f vs) key c ≡ any_same f w vs
  pub gte_test :
      (f : Numeric) (v w key : ℕ) (c : Columns)
      → number_of f c ≡ some w
      → matches (field_gte f v) key c ≡ leb v w
  pub lte_test :
      (f : Numeric) (v w key : ℕ) (c : Columns)
      → number_of f c ≡ some w
      → matches (field_lte f v) key c ≡ leb w v

-- The required columns are not NULL.
abbrev pub IsStored : Columns → Type 0
IsStored c = (f : Field) → is_required f ≡ true → (v : Value f) × (c f ≡ some v)

module _ (matches : Predicate → ℕ → Columns → Bool) where
  -- `Where` joins its predicates by AND.
  abbrev pub selects : List Predicate → ℕ → Columns → Bool
  selects [] key c = true
  selects (p ∷ ps) key c = matches p key c && selects ps key c

abbrev pub not_null : {A : Type 0} → Option A → Bool
not_null none = false
not_null (some v) = true
