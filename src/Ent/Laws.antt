-- ===== src/Ent/Laws.antt =====
-- `SetField` and `Field` of a mutation (db/ent/mutation.go).
use Prim.Native.String.{String}
use optimism_zkp.Prelude.{
  ℕ, ◌≡◌, ◌≢◌, ◌⊎◌, inl, inr, refl, subst, ap, sym, ◌∙◌, Option, none, some, arith,
}
use optimism_zkp.Prelude.Tests.{Option-cases}
use optimism_zkp.Request.{Bytes}
use optimism_zkp.Ent.Field.{Field, Value}
use optimism_zkp.Ent.Mutation.{Mutation, set, get}
use optimism_zkp.Ent.Dynamic.{
  name_of, all_fields, named, as_type, as_status, as_string, as_uint64, as_bytes, Any, of_type,
  of_status, of_string, of_uint64, of_bytes, boxed, assert_value, set_any, set_field, get_any,
  field,
}

get-set : (f : Field) (v : Value f) (m : Mutation) → get f (set f v m) ≡ some v
unfolding get set
get-set Field.type v m = refl
get-set _ v m = refl

get-set_other : (f g : Field) (v : Value f) (m : Mutation) → f ≢ g → get g (set f v m) ≡ get g m
unfolding get set
get-set_other Field.type Field.type v m h = absurd (h refl)
get-set_other Field.type g v m h = refl
get-set_other Field.start_block Field.start_block v m h = absurd (h refl)
get-set_other Field.start_block g v m h = refl
get-set_other Field.end_block Field.end_block v m h = absurd (h refl)
get-set_other Field.end_block g v m h = refl
get-set_other Field.status Field.status v m h = absurd (h refl)
get-set_other Field.status g v m h = refl
get-set_other Field.request_added_time Field.request_added_time v m h = absurd (h refl)
get-set_other Field.request_added_time g v m h = refl
get-set_other Field.prover_request_id Field.prover_request_id v m h = absurd (h refl)
get-set_other Field.prover_request_id g v m h = refl
get-set_other Field.proof_request_time Field.proof_request_time v m h = absurd (h refl)
get-set_other Field.proof_request_time g v m h = refl
get-set_other Field.last_updated_time Field.last_updated_time v m h = absurd (h refl)
get-set_other Field.last_updated_time g v m h = refl
get-set_other Field.l1_block_number Field.l1_block_number v m h = absurd (h refl)
get-set_other Field.l1_block_number g v m h = refl
get-set_other Field.l1_block_hash Field.l1_block_hash v m h = absurd (h refl)
get-set_other Field.l1_block_hash g v m h = refl
get-set_other Field.proof Field.proof v m h = absurd (h refl)
get-set_other Field.proof g v m h = refl

-- `value` has the type of the column `name`.
abbrev pub Fits : String → Any → Field → Type 0
Fits n a f = (v : Value f) × (named name_of n all_fields ≡ some f) × (assert_value f a ≡ some v)

as_type-of_type : (a : Any) (v : Bytes) → as_type a ≡ some v → of_type v ≡ a
as_type-of_type (of_type w) v h = ground arith
as_type-of_type _ v h = ground arith

as_status-of_status : (a : Any) (v : Bytes) → as_status a ≡ some v → of_status v ≡ a
as_status-of_status (of_status w) v h = ground arith
as_status-of_status _ v h = ground arith

as_string-of_string : (a : Any) (v : Bytes) → as_string a ≡ some v → of_string v ≡ a
as_string-of_string (of_string w) v h = ground arith
as_string-of_string _ v h = ground arith

as_uint64-of_uint64 : (a : Any) (v : ℕ) → as_uint64 a ≡ some v → of_uint64 v ≡ a
as_uint64-of_uint64 (of_uint64 w) v h = ground arith
as_uint64-of_uint64 _ v h = ground arith

as_bytes-of_bytes : (a : Any) (v : Option Bytes) → as_bytes a ≡ some v → of_bytes v ≡ a
as_bytes-of_bytes (of_bytes w) v h = ground arith
as_bytes-of_bytes _ v h = ground arith

assert_value-boxed : (f : Field) (a : Any) (v : Value f) → assert_value f a ≡ some v → boxed f v ≡ a
unfolding assert_value
assert_value-boxed Field.type a v h = as_type-of_type a v h
assert_value-boxed Field.start_block a v h = as_uint64-of_uint64 a v h
assert_value-boxed Field.end_block a v h = as_uint64-of_uint64 a v h
assert_value-boxed Field.status a v h = as_status-of_status a v h
assert_value-boxed Field.request_added_time a v h = as_uint64-of_uint64 a v h
assert_value-boxed Field.prover_request_id a v h = as_string-of_string a v h
assert_value-boxed Field.proof_request_time a v h = as_uint64-of_uint64 a v h
assert_value-boxed Field.last_updated_time a v h = as_uint64-of_uint64 a v h
assert_value-boxed Field.l1_block_number a v h = as_uint64-of_uint64 a v h
assert_value-boxed Field.l1_block_hash a v h = as_string-of_string a v h
assert_value-boxed Field.proof a v h = as_bytes-of_bytes a v h

-- What a successful `SetField` leaves.
abbrev pub HasSet : String → Any → Mutation → Type 0
HasSet n a m =
    (f : Field) × (m' : Mutation) × (set_field n a m ≡ some m')
    × Fits n a f
    × (field n m' ≡ some a)
    × ((g : Field) → f ≢ g → get g m' ≡ get g m)

not_both : {A : Type 0} {o : Option A} {x : A} → o ≡ none → o ≡ some x → ⊥
not_both h k = ground arith

some_injective : {A : Type 0} {x y : A} → some x ≡ some y → x ≡ y
some_injective h = ground arith

module _ (n : String) (a : Any) (m : Mutation) where
  set_field-unknown : named name_of n all_fields ≡ none → set_field n a m ≡ none
  unfolding set_field
  set_field-unknown h = ap (λ o. elim o [ none ↦ none | some f ↦ set_any f a m ]) h

  set_field-known :
      (f : Field) → named name_of n all_fields ≡ some f → set_field n a m ≡ set_any f a m
  unfolding set_field
  set_field-known f h = ap (λ o. elim o [ none ↦ none | some g ↦ set_any g a m ]) h

  field-known : (f : Field) → named name_of n all_fields ≡ some f → field n m ≡ get_any f m
  unfolding field
  field-known f h = ap (λ o. elim o [ none ↦ none | some g ↦ get_any g m ]) h

  module _ (f : Field) where
    set_any-refused : assert_value f a ≡ none → set_any f a m ≡ none
    set_any-refused h = ap (λ o. elim o [ none ↦ none | some v ↦ some (set f v m) ]) h

    set_any-accepted : (v : Value f) → assert_value f a ≡ some v → set_any f a m ≡ some (set f v m)
    set_any-accepted v h = ap (λ o. elim o [ none ↦ none | some w ↦ some (set f w m) ]) h

    get_any-some : (v : Value f) → get f m ≡ some v → get_any f m ≡ some (boxed f v)
    get_any-some v h = ap (λ o. elim o [ none ↦ none | some w ↦ some (boxed f w) ]) h

set_named :
    (n : String) (a : Any) (m : Mutation) (f : Field) (v : Value f)
    → named name_of n all_fields ≡ some f
    → assert_value f a ≡ some v
    → HasSet n a m
set_named n a m f v h k = (
  f,
  set f v m,
  set_field-known n a m f h ∙ set_any-accepted n a m f v k,
  (v, h, k),
  field-known n a (set f v m) f h
      ∙ get_any-some n a (set f v m) f v (get-set f v m)
      ∙ ap some (assert_value-boxed f a v k),
  λ g i. get-set_other f g v m i,
)

-- `SetField` accepts a name and a value exactly when the name is a column's and the value has that
-- column's Go type. It then sets that column, so that `Field` returns the value, and no other;
-- otherwise it returns an error.
pub set_field_lem :
    (n : String) (a : Any) (m : Mutation)
    → HasSet n a m ⊎ ((set_field n a m ≡ none) × ((f : Field) → ¬ Fits n a f))
set_field_lem n a m = elim (Option-cases (named name_of n all_fields)) [
  | inl h ↦ inr (set_field-unknown n a m h, λ f (v, k, _). not_both h k)
  | inr (f, h) ↦ elim (Option-cases (assert_value f a)) [
    | inl k ↦ inr (
      set_field-known n a m f h ∙ set_any-refused n a m f k,
      λ g (v, i, j).
          not_both k
            (subst (λ x. (w : Value x) × (assert_value x a ≡ some w)) (some_injective (sym i ∙ h))
              (v, j)).1,
    )
    | inr (v, k) ↦ inl (set_named n a m f v h k)
  ]
]
