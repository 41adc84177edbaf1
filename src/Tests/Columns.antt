-- ===== src/Tests/Columns.antt =====
-- Concrete runs of the ent client: rows by their columns, builders, and the tests of SQL by a
-- function on columns.
use optimism_zkp.Prelude.{
  List, ◌∷◌, ℕ, ◌≡◌, ◌⊎◌, refl, ap, Bool, false, not, ◌&&◌, Option, none, some, [], leb, ◌==◌,
}
use optimism_zkp.Request.{Request, span, agg, proving}
use optimism_zkp.Db.Table.{
  new_row, with_status, with_prover_request_id, with_proof, with_l1_block_info,
}
use optimism_zkp.Prelude.Effects.{Result, ok}
use optimism_zkp.Db.{
  id_is, has_status, is_unrequested, is_range, is_waiting_agg, has_l1_block, is_completed_agg,
  is_live_agg, is_span_from, is_span_within,
}
use optimism_zkp.Ent.Field.{Field}
use optimism_zkp.Ent.Mutation.{new_mutation}
use optimism_zkp.Ent.Dynamic.{of_uint64, set_field}
use optimism_zkp.Ent.Laws.{HasSet, Fits, set_field_lem}
use optimism_zkp.Ent.Row.{Columns, assign_values, field_of, Represents}
use optimism_zkp.Ent.Create.{sql_save, new_entry_builder}
use optimism_zkp.Ent.Insert.{AsSpecified, Stores, sql_save_lem, new_entry-Stores}
use optimism_zkp.Ent.Update.{
  UpdateSpec, update_spec, update_all, update_one, save_all, save_one, status_builder,
  prover_id_builder, proof_builder, l1_builder,
}
use optimism_zkp.Ent.Write.{SetsColumns, KeepsColumns, updates_lem}
use optimism_zkp.Ent.Where.{
  Predicate, id_eq, field_eq, field_neq, field_in, field_gte, field_lte, where_id, where_status,
  where_statuses, where_unrequested, where_range, where_waiting_agg, where_l1_block,
  where_completed_agg, where_live_agg, where_span_from, where_span_within,
}
use optimism_zkp.Ent.Select.{
  same_value, any_same, number_of, ColumnTests, IsStored, selects, not_null,
}
use optimism_zkp.Ent.Select.Queries.{selects_lem}
use optimism_zkp.Ent.Query.{Query, asc, new_query, where_all, order_by}
use optimism_zkp.Ent.Query.Limit.{take}
use optimism_zkp.Tests.{stuck, table}

set_field_lem_example :
    HasSet "end_block" (of_uint64 9) new_mutation
    ⊎ ((set_field "end_block" (of_uint64 9) new_mutation ≡ none)
        × ((f : Field) → ¬ Fits "end_block" (of_uint64 9) f))
set_field_lem_example = set_field_lem "end_block" (of_uint64 9) new_mutation

sql_save_lem_example : AsSpecified new_mutation (sql_save new_mutation)
sql_save_lem_example = sql_save_lem new_mutation

new_entry-Stores_example :
    Stores (new_row 4 1000 agg 100 300) (sql_save (new_entry_builder agg 100 300 1000))
new_entry-Stores_example = new_entry-Stores 4 1000 agg 100 300

-- The columns of a row, none of them NULL.
abbrev columns : Request → Columns
columns r f = some (field_of r f)

columns-Represents : (r : Request) → Represents (columns r) r
unfolding assign_values
columns-Represents r f = refl

columns-IsStored : (r : Request) → IsStored (columns r)
columns-IsStored r f h = (field_of r f, refl)

abbrev coalesce : {A : Type 0} → Option A → Option A → Option A
coalesce none o = o
coalesce (some v) o = some v

-- The columns that a statement sets are replaced.
abbrev run : UpdateSpec → Columns → Columns
run s c f = coalesce (s.sets f) (c f)

run-SetsColumns : SetsColumns run
run-SetsColumns s c f v h _ _ = ap (λ o. coalesce o (c f)) h

run-KeepsColumns : KeepsColumns run
run-KeepsColumns s c f h _ _ = ap (λ o. coalesce o (c f)) h

updates_lem_example :
    ((save_all (status_builder 5 proving) ≡ update_all (update_spec (status_builder 5 proving)))
      × Represents
          (run (update_spec (status_builder 5 proving)) (columns stuck))
          (with_status 5 stuck proving))
    × ((save_all (prover_id_builder 5 []) ≡ update_all (update_spec (prover_id_builder 5 [])))
        × Represents
            (run (update_spec (prover_id_builder 5 [])) (columns stuck))
            (with_prover_request_id 5 stuck []))
    × ((save_one (some 2) (proof_builder 5 none)
          ≡ update_one 2 (update_spec (proof_builder 5 none)))
        × Represents
            (run (update_spec (proof_builder 5 none)) (columns stuck))
            (with_proof 5 stuck none))
    × ((save_all (l1_builder 5 7 []) ≡ update_all (update_spec (l1_builder 5 7 [])))
        × Represents
            (run (update_spec (l1_builder 5 7 [])) (columns stuck))
            (with_l1_block_info 5 stuck 7 []))
updates_lem_example =
    updates_lem run run-SetsColumns run-KeepsColumns (columns stuck) stuck
      (columns-Represents stuck) 5 2 proving [] none 7 []

-- A test of a value that may be NULL.
abbrev tested : {A : Type 0} → (A → Bool) → Option A → Bool
tested p none = false
tested p (some w) = p w

abbrev matches : Predicate → ℕ → Columns → Bool
matches (id_eq v) key c = key == v
matches (field_eq f v) key c = tested (λ w. same_value f w v) (c f)
matches (field_neq f v) key c = tested (λ w. not (same_value f w v)) (c f)
matches (field_in f vs) key c = tested (λ w. any_same f w vs) (c f)
matches (field_gte f v) key c = tested (λ w. leb v w) (number_of f c)
matches (field_lte f v) key c = tested (λ w. leb w v) (number_of f c)

matches-ColumnTests : ColumnTests matches
matches-ColumnTests = record {
  id_test = λ v key c. refl;
  eq_test = λ f v w key c h. ap (tested (λ x. same_value f x v)) h;
  null_test = λ f v key c h. ap (tested (λ x. same_value f x v)) h;
  neq_test = λ f v w key c h. ap (tested (λ x. not (same_value f x v))) h;
  in_test = λ f vs w key c h. ap (tested (λ x. any_same f x vs)) h;
  gte_test = λ f v w key c h. ap (tested (λ x. leb v x)) h;
  lte_test = λ f v w key c h. ap (tested (λ x. leb x v)) h;
}

selects_lem_example :
    (selects matches (where_id 2) 2 (columns stuck) ≡ id_is stuck 2)
    × (selects matches (where_status proving) 2 (columns stuck) ≡ has_status stuck proving)
    × (selects matches (where_statuses proving) 2 (columns stuck) ≡ has_status stuck proving)
    × (selects matches (where_unrequested span) 2 (columns stuck) ≡ is_unrequested stuck span)
    × (selects matches (where_range span 300 400 proving) 2 (columns stuck)
        ≡ is_range stuck span 300 400 proving)
    × (selects matches (where_waiting_agg 300 400) 2 (columns stuck) ≡ is_waiting_agg stuck 300 400)
    × (selects matches (where_l1_block 300 400 7 []) 2 (columns stuck) ≡ (
        (is_waiting_agg stuck 300 400 && has_l1_block stuck 7 [])
        && (not_null (columns stuck Field.l1_block_number)
            && not_null (columns stuck Field.l1_block_hash))))
    × (selects matches (where_completed_agg 300) 2 (columns stuck) ≡ is_completed_agg stuck 300)
    × (selects matches (where_live_agg 300) 2 (columns stuck) ≡ is_live_agg stuck 300)
    × (selects matches (where_span_from 300) 2 (columns stuck) ≡ is_span_from stuck 300)
    × (selects matches (where_span_within 300 400) 2 (columns stuck) ≡ is_span_within stuck 300 400)
selects_lem_example =
    selects_lem matches matches-ColumnTests (columns stuck) stuck (columns-IsStored stuck)
      (columns-Represents stuck) 2 300 400 7 [] span proving

-- The table as the answer to every query, with its limit.
abbrev cut : Option ℕ → Result (List Request)
cut none = ok table
cut (some n) = ok (take n table)

abbrev answers : Query → Result (List Request)
answers q = cut q.limit

-- The query of `GetNextUnrequestedProof`.
abbrev unrequested : Query
unrequested = order_by (asc Field.start_block ∷ []) (where_all (where_unrequested span) new_query)
