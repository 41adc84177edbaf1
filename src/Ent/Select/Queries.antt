-- ===== src/Ent/Select/Queries.antt =====
-- The queries of db/db.go, down to the columns: a row is selected exactly when the model of the store
-- selects it. How SQL tests a column is a parameter.
use optimism_zkp.Prelude.{
  ℕ, ◌≡◌, refl, sym, ap, ◌∙◌, Bool, true, false, inl, inr, not, ◌&&◌, ◌||◌, some, [], ◌∷◌, leb,
  ◌==◌, arith,
}
use optimism_zkp.Prelude.Tests.{Option-cases}
use optimism_zkp.Request.{
  Bytes, Request, ProofType, span, agg, Status, unreq, complete, failed, same_type, same_status,
}
use optimism_zkp.Db.Table.{same_bytes}
use optimism_zkp.Db.{
  id_is, is_type, has_status, starts_at, ends_at, is_unrequested, is_range, is_waiting_agg,
  has_l1_block, is_completed_agg, is_live_agg, is_span_from, is_span_within,
}
use optimism_zkp.Ent.Field.{Field, Numeric, Value, type_text, status_text}
use optimism_zkp.Ent.Row.{Columns, or_zero, assign_values, field_of, Represents}
use optimism_zkp.Ent.Insert.{is_required}
use optimism_zkp.Ent.Where.{
  Predicate, field_eq, type_eq, status_eq, status_neq, status_in, start_block_eq, end_block_eq,
  start_block_gte, end_block_lte, where_id, where_status, where_statuses, where_unrequested,
  where_range, where_waiting_agg, where_l1_block, where_completed_agg, where_live_agg,
  where_span_from, where_span_within,
}
use optimism_zkp.Ent.Select.{same_value, IsStored, selects, not_null, ColumnTests}

-- Conjunctions test by test, as `Where` and as a test of the model brackets them.
and_1 : {a a' : Bool} → a ≡ a' → (a && true) ≡ a'
and_1 h = ground arith

module _ {a a' b b' : Bool} where
  and_2 : a ≡ a' → b ≡ b' → (a && (b && true)) ≡ (a' && b')
  and_2 h k = ground arith

module _ {a a' b b' c c' : Bool} where
  and_3 : a ≡ a' → b ≡ b' → c ≡ c' → (a && (b && (c && true))) ≡ (a' && b' && c')
  and_3 h i j = ground arith

  and_4 :
      {d d' : Bool}
      → a ≡ a'
      → b ≡ b'
      → c ≡ c'
      → d ≡ d'
      → (a && (b && (c && (d && true)))) ≡ (a' && b' && c' && d')
  and_4 h i j k = ground arith

  and_6 :
      {d d' e f : Bool} (n x m y : Bool)
      → a ≡ a'
      → b ≡ b'
      → c ≡ c'
      → d ≡ d'
      → e ≡ (n && x)
      → f ≡ (m && y)
      → (a && (b && (c && (d && (e && (f && true))))))
        ≡ (((a' && b' && c' && d') && (x && y)) && (n && m))
  and_6 n x m y h i j k u v = ground arith

or_false : (b : Bool) → (b || false) ≡ b
or_false b = ground arith

same_type-text : (t u : ProofType) → same_bytes (type_text t) (type_text u) ≡ same_type t u
same_type-text span span = refl
same_type-text span agg = refl
same_type-text agg span = refl
same_type-text agg agg = refl

same_status-text : (s t : Status) → same_bytes (status_text s) (status_text t) ≡ same_status s t
same_status-text _ _ = ground arith

stored_value :
    (c : Columns) (r : Request) (f : Field) (v : Value f)
    → Represents c r
    → c f ≡ some v
    → c f ≡ some (field_of r f)
unfolding assign_values
stored_value c r f v h k = k ∙ ap some (sym (ap (or_zero f) k) ∙ h f)

module _ (matches : Predicate → ℕ → Columns → Bool) (tests : ColumnTests matches) where
  module _ (c : Columns) (r : Request) (h : IsStored c) (k : Represents c r) where
    required_value : (f : Field) → is_required f ≡ true → c f ≡ some (field_of r f)
    required_value f i = let (v, j) = h f i in stored_value c r f v k j

    type_eq_lem : (t : ProofType) → matches (type_eq t) r.id c ≡ is_type r t
    unfolding field_of
    type_eq_lem t =
        tests.eq_test Field.type (type_text t) (type_text r.type) r.id c
          (required_value Field.type refl)
        ∙ same_type-text r.type t

    status_eq_lem : (s : Status) → matches (status_eq s) r.id c ≡ has_status r s
    unfolding field_of
    status_eq_lem s =
        tests.eq_test Field.status (status_text s) (status_text r.status) r.id c
          (required_value Field.status refl)
        ∙ same_status-text r.status s

    status_neq_lem : (s : Status) → matches (status_neq s) r.id c ≡ not (has_status r s)
    unfolding field_of
    status_neq_lem s =
        tests.neq_test Field.status (status_text s) (status_text r.status) r.id c
          (required_value Field.status refl)
        ∙ ap not (same_status-text r.status s)

    status_in_lem : (s : Status) → matches (status_in s) r.id c ≡ has_status r s
    unfolding field_of
    status_in_lem s =
        tests.in_test Field.status (status_text s ∷ []) (status_text r.status) r.id c
          (required_value Field.status refl)
        ∙ ap (λ b. b || false) (same_status-text r.status s)
        ∙ or_false (has_status r s)

    start_block_eq_lem : (b : ℕ) → matches (start_block_eq b) r.id c ≡ starts_at r b
    unfolding field_of
    start_block_eq_lem b =
        tests.eq_test Field.start_block b r.start_block r.id c
          (required_value Field.start_block refl)

    end_block_eq_lem : (b : ℕ) → matches (end_block_eq b) r.id c ≡ ends_at r b
    unfolding field_of
    end_block_eq_lem b =
        tests.eq_test Field.end_block b r.end_block r.id c (required_value Field.end_block refl)

    start_block_gte_lem : (b : ℕ) → matches (start_block_gte b) r.id c ≡ leb b r.start_block
    unfolding field_of
    start_block_gte_lem b =
        tests.gte_test Numeric.start_block b r.start_block r.id c
          (required_value Field.start_block refl)

    end_block_lte_lem : (b : ℕ) → matches (end_block_lte b) r.id c ≡ leb r.end_block b
    unfolding field_of
    end_block_lte_lem b =
        tests.lte_test Numeric.end_block b r.end_block r.id c (required_value Field.end_block refl)

    null_or_same :
        (f : Field) (v : Value f)
        → matches (field_eq f v) r.id c ≡ (not_null (c f) && same_value f (field_of r f) v)
    null_or_same f v = elim (Option-cases (c f)) [
      | inl i ↦
          tests.null_test f v r.id c i
          ∙ sym (ap (λ o. not_null o && same_value f (field_of r f) v) i)
      | inr (w, i) ↦
          tests.eq_test f v (field_of r f) r.id c (stored_value c r f w k i)
          ∙ sym (ap (λ o. not_null o && same_value f (field_of r f) v) i)
    ]

    selects-l1_block :
        (start end number : ℕ) (hash : Bytes)
        → selects matches (where_l1_block start end number hash) r.id c ≡ (
            (is_waiting_agg r start end && has_l1_block r number hash)
            && (not_null (c Field.l1_block_number) && not_null (c Field.l1_block_hash)))
    unfolding where_l1_block field_of
    selects-l1_block start end number hash =
        and_6 (not_null (c Field.l1_block_number)) (r.l1_block_number == number)
          (not_null (c Field.l1_block_hash)) (same_bytes r.l1_block_hash hash) (type_eq_lem agg)
          (status_eq_lem unreq) (start_block_eq_lem start) (end_block_eq_lem end)
          (null_or_same Field.l1_block_number number) (null_or_same Field.l1_block_hash hash)

    -- Where SQL tests columns as documented: on columns that stand for a row, with the required ones
    -- not NULL, each list of predicates that db.go hands to `Where` selects exactly where the test of
    -- the store's model holds; in the query for an AGG request with its L1 block, a column of that
    -- block that is NULL selects nothing.
    pub selects_lem :
        (key start end number : ℕ) (hash : Bytes) (t : ProofType) (s : Status)
        → (selects matches (where_id key) r.id c ≡ id_is r key)
          × (selects matches (where_status s) r.id c ≡ has_status r s)
          × (selects matches (where_statuses s) r.id c ≡ has_status r s)
          × (selects matches (where_unrequested t) r.id c ≡ is_unrequested r t)
          × (selects matches (where_range t start end s) r.id c ≡ is_range r t start end s)
          × (selects matches (where_waiting_agg start end) r.id c ≡ is_waiting_agg r start end)
          × (selects matches (where_l1_block start end number hash) r.id c ≡ (
              (is_waiting_agg r start end && has_l1_block r number hash)
              && (not_null (c Field.l1_block_number) && not_null (c Field.l1_block_hash))))
          × (selects matches (where_completed_agg start) r.id c ≡ is_completed_agg r start)
          × (selects matches (where_live_agg start) r.id c ≡ is_live_agg r start)
          × (selects matches (where_span_from start) r.id c ≡ is_span_from r start)
          × (selects matches (where_span_within start end) r.id c ≡ is_span_within r start end)
    unfolding where_id where_status where_statuses where_unrequested where_range where_waiting_agg
        where_completed_agg where_live_agg where_span_from where_span_within
    selects_lem key start end number hash t s = (
      and_1 (tests.id_test key r.id c),
      and_1 (status_eq_lem s),
      and_1 (status_in_lem s),
      and_2 (status_eq_lem unreq) (type_eq_lem t),
      and_4 (type_eq_lem t) (start_block_eq_lem start) (end_block_eq_lem end) (status_eq_lem s),
      and_4 (type_eq_lem agg) (status_eq_lem unreq) (start_block_eq_lem start)
          (end_block_eq_lem end),
      selects-l1_block start end number hash,
      and_3 (type_eq_lem agg) (start_block_eq_lem start) (status_eq_lem complete),
      and_3 (type_eq_lem agg) (start_block_eq_lem start) (status_neq_lem failed),
      and_3 (type_eq_lem span) (status_eq_lem complete) (start_block_gte_lem start),
      and_4 (type_eq_lem span) (status_eq_lem complete) (start_block_gte_lem start)
          (end_block_lte_lem end),
    )
