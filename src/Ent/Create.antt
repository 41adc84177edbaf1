-- ===== src/Ent/Create.antt =====
-- `ProofRequestCreate` (db/ent/proofrequest_create.go), and the statement of `NewEntry` (db/db.go).
use optimism_zkp.Prelude.{ℕ, Bool, Option, none, some, List, [], ◌∷◌, if◌then◌else◌}
use optimism_zkp.Request.{ProofType, unreq}
use optimism_zkp.Ent.Field.{Field, Value, type_text, status_text, type_validator, status_validator}
use optimism_zkp.Ent.Mutation.{Mutation, new_mutation, set, get}
use optimism_zkp.Ent.Row.{Node, Columns, or_zero}

-- `ValidationError`: the field, and whether it is missing or its value is refused.
pub data Invalid : Type 0 where
  missing refused : Field → Invalid

-- The first error of a list of tests.
unfoldable pub first_of : List (Option Invalid) → Option Invalid
first_of [] = none
first_of (none ∷ cs) = first_of cs
first_of (some x ∷ cs) = some x

abbrev pub required : (f : Field) → Option (Value f) → Option Invalid
required f none = some (missing f)
required f (some v) = none

abbrev pub validated : (f : Field) → (Value f → Bool) → Option (Value f) → Option Invalid
validated f valid none = none
validated f valid (some v) = if valid v then none else some (refused f)

-- `check`
unfoldable pub create_check : Mutation → Option Invalid
create_check m = first_of (
    required Field.type (get Field.type m)
    ∷ validated Field.type type_validator (get Field.type m)
    ∷ required Field.start_block (get Field.start_block m)
    ∷ required Field.end_block (get Field.end_block m)
    ∷ required Field.status (get Field.status m)
    ∷ validated Field.status status_validator (get Field.status m)
    ∷ required Field.request_added_time (get Field.request_added_time m)
    ∷ required Field.last_updated_time (get Field.last_updated_time m)
    ∷ [])

-- `createSpec`: the columns that are inserted, the others staying NULL, and the node.
unfoldable pub create_spec : Mutation → Columns × Node
create_spec m = ((λ f. get f m), (λ f. or_zero f (get f m)))

-- `sqlSave` as far as the statement: the error of `check`, or what is inserted and returned.
pub data Saved : Type 0 where
  invalid : Invalid → Saved
  saved : Columns → Node → Saved

abbrev pub save_by : Mutation → Option Invalid → Saved
save_by m none = saved (create_spec m).0 (create_spec m).1
save_by m (some x) = invalid x

unfoldable pub sql_save : Mutation → Saved
sql_save m = save_by m (create_check m)

-- The builder of `NewEntry`.
unfoldable pub new_entry_builder : ProofType → ℕ → ℕ → ℕ → Mutation
new_entry_builder type start end now = set Field.last_updated_time now (
    set Field.request_added_time now (
      set Field.status (status_text unreq) (
        set Field.end_block end
          (set Field.start_block start (set Field.type (type_text type) new_mutation)))))
