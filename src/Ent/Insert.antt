-- ===== src/Ent/Insert.antt =====
-- What a saved `ProofRequestCreate` stores, and when it is refused.
use optimism_zkp.Prelude.{
  ℕ, ◌≡◌, inl, inr, if◌then◌else◌, subst, refl, sym, ap, ◌∙◌, Bool, true, false, Option, none, some,
  List, [], ◌∷◌, All, arith,
}
use mathlib.Core.Option.{some-injective, some-ne-none}
use optimism_zkp.Prelude.Tests.{Bool-cases}
use optimism_zkp.Request.{Request, ProofType, span, agg}
use optimism_zkp.Db.Table.{new_row}
use optimism_zkp.Ent.Field.{Field, Value, type_validator, status_validator}
use optimism_zkp.Ent.Mutation.{Mutation, set, get}
use optimism_zkp.Ent.Row.{or_zero, assign_values, field_of, Represents}
use optimism_zkp.Ent.Create.{
  Invalid, missing, refused, first_of, required, validated, create_check, create_spec, Saved,
  invalid, saved, save_by, sql_save, new_entry_builder,
}

-- The schema: the fields that are not optional, and the values that a field may take.
abbrev pub is_required : Field → Bool
is_required Field.prover_request_id = false
is_required Field.proof_request_time = false
is_required Field.l1_block_number = false
is_required Field.l1_block_hash = false
is_required Field.proof = false
is_required _ = true

abbrev pub is_valid : (f : Field) → Value f → Bool
is_valid Field.type v = type_validator v
is_valid Field.status v = status_validator v
is_valid _ v = true

abbrev pub Meets : (f : Field) → Option (Value f) → Type 0
Meets f none = is_required f ≡ false
Meets f (some v) = is_valid f v ≡ true

-- The fault that an error names.
abbrev pub Fault : Mutation → Invalid → Type 0
Fault m (missing f) = (is_required f ≡ true) × (get f m ≡ none)
Fault m (refused f) = (v : Value f) × (get f m ≡ some v) × (is_valid f v ≡ false)

abbrev pub AsSpecified : Mutation → Saved → Type 0
AsSpecified m (invalid x) = Fault m x
AsSpecified m (saved c n) =
    ((f : Field) → Meets f (get f m))
    × ((f : Field) → c f ≡ get f m)
    × ((f : Field) → n f ≡ assign_values c f)

-- A test of `check` that finds no fault but those of the schema.
abbrev Finds : Mutation → Option Invalid → Type 0
Finds m c = (x : Invalid) → c ≡ some x → Fault m x

first_of-some :
    (m : Mutation) (cs : List (Option Invalid)) → All (Finds m) cs → Finds m (first_of cs)
unfolding first_of
first_of-some m [] hs x h = ground arith
first_of-some m (none ∷ cs) (_, hs) x h = first_of-some m cs hs x h
first_of-some m (some y ∷ cs) (k, hs) x h = k x h

first_of-none : (cs : List (Option Invalid)) → first_of cs ≡ none → All (λ c. c ≡ none) cs
unfolding first_of
first_of-none [] h = tt
first_of-none (none ∷ cs) h = (refl, first_of-none cs h)
first_of-none (some y ∷ cs) h = ground arith

module _ (f : Field) (m : Mutation) where
  required-Finds :
      is_required f ≡ true → (o : Option (Value f)) → get f m ≡ o → Finds m (required f o)
  required-Finds r none k x h = subst (Fault m) (some-injective _ _ h) (r, k)
  required-Finds r (some v) k x h = ground arith

  validated-Finds : (o : Option (Value f)) → get f m ≡ o → Finds m (validated f (is_valid f) o)
  validated-Finds none k x h = ground arith
  validated-Finds (some v) k x h = elim (Bool-cases (is_valid f v)) [
    | inl i ↦ absurd (some-ne-none x (sym h ∙ ap (λ b. if b then none else some (refused f)) i))
    | inr i ↦
        subst (Fault m)
          (some-injective _ _ (sym (ap (λ b. if b then none else some (refused f)) i) ∙ h))
          (v, k, i)
  ]

required-none : (f : Field) (o : Option (Value f)) → required f o ≡ none → ¬ (o ≡ none)
required-none f none h k = absurd (some-ne-none _ h)
required-none f (some v) h k = absurd (some-ne-none _ k)

validated-Meets :
    (f : Field) (o : Option (Value f))
    → required f o ≡ none
    → validated f (is_valid f) o ≡ none
    → Meets f o
validated-Meets f none h k = absurd (some-ne-none _ h)
validated-Meets f (some v) h k = elim (Bool-cases (is_valid f v)) [
  | inl i ↦ i
  | inr i ↦ absurd (some-ne-none _ (sym (ap (λ b. if b then none else some (refused f)) i) ∙ k))
]

create_check-Fault : (m : Mutation) → Finds m (create_check m)
unfolding create_check
create_check-Fault m = first_of-some m _ (
  required-Finds Field.type m refl _ refl,
  (
    validated-Finds Field.type m _ refl,
    (
      required-Finds Field.start_block m refl _ refl,
      (
        required-Finds Field.end_block m refl _ refl,
        (
          required-Finds Field.status m refl _ refl,
          (
            validated-Finds Field.status m _ refl,
            (
              required-Finds Field.request_added_time m refl _ refl,
              (required-Finds Field.last_updated_time m refl _ refl, tt),
            ),
          ),
        ),
      ),
    ),
  ),
)

module _ (f : Field) (any : (v : Value f) → is_valid f v ≡ true) where
  required-Meets : (o : Option (Value f)) → required f o ≡ none → Meets f o
  required-Meets none h = absurd (some-ne-none _ h)
  required-Meets (some v) h = any v

  optional-Meets : is_required f ≡ false → (o : Option (Value f)) → Meets f o
  optional-Meets h none = h
  optional-Meets h (some v) = any v

create_check-Meets : (m : Mutation) → create_check m ≡ none → (f : Field) → Meets f (get f m)
unfolding create_check
create_check-Meets m h Field.type =
    let a = first_of-none _ h in validated-Meets Field.type _ a.0 a.1.0
create_check-Meets m h Field.start_block =
    required-Meets Field.start_block (λ _. refl) _ (first_of-none _ h).1.1.0
create_check-Meets m h Field.end_block =
    required-Meets Field.end_block (λ _. refl) _ (first_of-none _ h).1.1.1.0
create_check-Meets m h Field.status =
    let a = (first_of-none _ h).1.1.1.1 in validated-Meets Field.status _ a.0 a.1.0
create_check-Meets m h Field.request_added_time =
    required-Meets Field.request_added_time (λ _. refl) _ (first_of-none _ h).1.1.1.1.1.1.0
create_check-Meets m h Field.last_updated_time =
    required-Meets Field.last_updated_time (λ _. refl) _ (first_of-none _ h).1.1.1.1.1.1.1.0
create_check-Meets m h Field.prover_request_id =
    optional-Meets Field.prover_request_id (λ _. refl) refl _
create_check-Meets m h Field.proof_request_time =
    optional-Meets Field.proof_request_time (λ _. refl) refl _
create_check-Meets m h Field.l1_block_number =
    optional-Meets Field.l1_block_number (λ _. refl) refl _
create_check-Meets m h Field.l1_block_hash = optional-Meets Field.l1_block_hash (λ _. refl) refl _
create_check-Meets m h Field.proof = optional-Meets Field.proof (λ _. refl) refl _

save_by-AsSpecified :
    (m : Mutation) (o : Option Invalid) → create_check m ≡ o → AsSpecified m (save_by m o)
unfolding create_spec assign_values
save_by-AsSpecified m none h = (create_check-Meets m h, (λ f. refl), λ f. refl)
save_by-AsSpecified m (some x) h = create_check-Fault m x h

-- Saving a new entity fails with an error that names a required field that is not set, or an enum
-- that is set to a value outside it; or no field has such a fault, exactly the columns that were set
-- are inserted, and the node that is returned is what reading them back gives.
pub sql_save_lem : (m : Mutation) → AsSpecified m (sql_save m)
unfolding sql_save
sql_save_lem m = save_by-AsSpecified m (create_check m) refl

abbrev pub Stores : Request → Saved → Type 0
Stores r (invalid x) = ⊥
Stores r (saved c n) = Represents c r × ((f : Field) → n f ≡ field_of r f)

new_entry-field_of :
    (key now : ℕ) (type : ProofType) (start end : ℕ) (f : Field)
    → or_zero f (get f (new_entry_builder type start end now))
      ≡ field_of (new_row key now type start end) f
unfolding new_entry_builder set get field_of
new_entry-field_of key now type start end Field.type = refl
new_entry-field_of key now type start end _ = refl

-- The builder chain of `NewEntry` passes ent's checks, inserts columns that read back as the row that
-- the model of `NewEntry` adds, with its columns NULL that the chain does not set, and returns that
-- row.
pub new_entry-Stores :
    (key now : ℕ) (type : ProofType) (start end : ℕ)
    → Stores (new_row key now type start end) (sql_save (new_entry_builder type start end now))
unfolding sql_save create_check create_spec first_of new_entry_builder set get assign_values
    type_validator status_validator
new_entry-Stores key now span start end =
    (new_entry-field_of key now span start end, new_entry-field_of key now span start end)
new_entry-Stores key now agg start end =
    (new_entry-field_of key now agg start end, new_entry-field_of key now agg start end)
