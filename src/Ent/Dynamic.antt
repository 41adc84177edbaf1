-- ===== src/Ent/Dynamic.antt =====
-- The accessors of `ProofRequestMutation` by name (db/ent/mutation.go): `Field`, `SetField`,
-- `AddField` and the rest, which take a column's name and a value of a dynamic type.
use text.Mathlib.Text.{◌==◌}
use Prim.Native.String.{String}
use optimism_zkp.Prelude.{ℕ, Option, none, some, List, [], ◌∷◌, if◌then◌else◌}
use optimism_zkp.Ent.Field.{Field, Numeric, Nullable, Value}
use optimism_zkp.Ent.Mutation.{Mutation, set, get, add, added, clear, reset}
use optimism_zkp.Request.{Bytes}

-- `FieldType`, `FieldStartBlock` and so on.
abbrev pub name_of : Field → String
name_of Field.type = "type"
name_of Field.start_block = "start_block"
name_of Field.end_block = "end_block"
name_of Field.status = "status"
name_of Field.request_added_time = "request_added_time"
name_of Field.prover_request_id = "prover_request_id"
name_of Field.proof_request_time = "proof_request_time"
name_of Field.last_updated_time = "last_updated_time"
name_of Field.l1_block_number = "l1_block_number"
name_of Field.l1_block_hash = "l1_block_hash"
name_of Field.proof = "proof"

abbrev pub all_fields : List Field
all_fields =
    Field.type ∷ Field.start_block ∷ Field.end_block ∷ Field.status ∷ Field.request_added_time
    ∷ Field.prover_request_id ∷ Field.proof_request_time ∷ Field.last_updated_time
    ∷ Field.l1_block_number ∷ Field.l1_block_hash ∷ Field.proof ∷ []

abbrev pub numeric_name : Numeric → String
numeric_name Numeric.start_block = "start_block"
numeric_name Numeric.end_block = "end_block"
numeric_name Numeric.request_added_time = "request_added_time"
numeric_name Numeric.proof_request_time = "proof_request_time"
numeric_name Numeric.last_updated_time = "last_updated_time"
numeric_name Numeric.l1_block_number = "l1_block_number"

abbrev pub all_numeric : List Numeric
all_numeric =
    Numeric.start_block ∷ Numeric.end_block ∷ Numeric.request_added_time
    ∷ Numeric.proof_request_time ∷ Numeric.last_updated_time ∷ Numeric.l1_block_number ∷ []

abbrev pub nullable_name : Nullable → String
nullable_name Nullable.prover_request_id = "prover_request_id"
nullable_name Nullable.proof_request_time = "proof_request_time"
nullable_name Nullable.l1_block_number = "l1_block_number"
nullable_name Nullable.l1_block_hash = "l1_block_hash"
nullable_name Nullable.proof = "proof"

abbrev pub all_nullable : List Nullable
all_nullable =
    Nullable.prover_request_id ∷ Nullable.proof_request_time ∷ Nullable.l1_block_number
    ∷ Nullable.l1_block_hash ∷ Nullable.proof ∷ []

-- The `switch name`.
unfoldable pub named : {F : Type 0} → (F → String) → String → List F → Option F
named label n [] = none
named label n (f ∷ fs) = if n == label f then some f else named label n fs

-- An `ent.Value` with its dynamic type.
pub data Any : Type 0 where
  of_type of_status of_string : Bytes → Any
  of_uint64 of_int64 : ℕ → Any
  of_bytes : Option Bytes → Any

-- The conversion of a result to `ent.Value`.
abbrev pub boxed : (f : Field) → Value f → Any
boxed Field.type v = of_type v
boxed Field.start_block v = of_uint64 v
boxed Field.end_block v = of_uint64 v
boxed Field.status v = of_status v
boxed Field.request_added_time v = of_uint64 v
boxed Field.prover_request_id v = of_string v
boxed Field.proof_request_time v = of_uint64 v
boxed Field.last_updated_time v = of_uint64 v
boxed Field.l1_block_number v = of_uint64 v
boxed Field.l1_block_hash v = of_string v
boxed Field.proof v = of_bytes v

-- The type assertions `value.(uint64)` and so on.
abbrev pub as_type : Any → Option Bytes
as_type (of_type v) = some v
as_type _ = none

abbrev pub as_status : Any → Option Bytes
as_status (of_status v) = some v
as_status _ = none

abbrev pub as_string : Any → Option Bytes
as_string (of_string v) = some v
as_string _ = none

abbrev pub as_uint64 : Any → Option ℕ
as_uint64 (of_uint64 v) = some v
as_uint64 _ = none

abbrev pub as_int64 : Any → Option ℕ
as_int64 (of_int64 v) = some v
as_int64 _ = none

abbrev pub as_bytes : Any → Option (Option Bytes)
as_bytes (of_bytes v) = some v
as_bytes _ = none

unfoldable pub assert_value : (f : Field) → Any → Option (Value f)
assert_value Field.type a = as_type a
assert_value Field.start_block a = as_uint64 a
assert_value Field.end_block a = as_uint64 a
assert_value Field.status a = as_status a
assert_value Field.request_added_time a = as_uint64 a
assert_value Field.prover_request_id a = as_string a
assert_value Field.proof_request_time a = as_uint64 a
assert_value Field.last_updated_time a = as_uint64 a
assert_value Field.l1_block_number a = as_uint64 a
assert_value Field.l1_block_hash a = as_string a
assert_value Field.proof a = as_bytes a

-- The case of one field: nothing where the code returns an error.
abbrev pub set_any : Field → Any → Mutation → Option Mutation
set_any f a m = elim (assert_value f a) [ none ↦ none | some v ↦ some (set f v m) ]

unfoldable pub set_field : String → Any → Mutation → Option Mutation
set_field n a m = elim (named name_of n all_fields) [ none ↦ none | some f ↦ set_any f a m ]

abbrev pub get_any : Field → Mutation → Option Any
get_any f m = elim (get f m) [ none ↦ none | some v ↦ some (boxed f v) ]

unfoldable pub field : String → Mutation → Option Any
field n m = elim (named name_of n all_fields) [ none ↦ none | some f ↦ get_any f m ]

abbrev pub add_any : Numeric → Any → Mutation → Option Mutation
add_any f a m = elim (as_int64 a) [ none ↦ none | some v ↦ some (add f v m) ]

unfoldable pub add_field : String → Any → Mutation → Option Mutation
add_field n a m = elim (named numeric_name n all_numeric) [ none ↦ none | some f ↦ add_any f a m ]

abbrev pub added_any : Numeric → Mutation → Option Any
added_any f m = elim (added f m) [ none ↦ none | some v ↦ some (of_int64 v) ]

unfoldable pub added_field : String → Mutation → Option Any
added_field n m = elim (named numeric_name n all_numeric) [ none ↦ none | some f ↦ added_any f m ]

unfoldable pub clear_field : String → Mutation → Option Mutation
clear_field n m = elim (named nullable_name n all_nullable) [
  | none ↦ none
  | some f ↦ some (clear f m)
]

unfoldable pub reset_field : String → Mutation → Option Mutation
reset_field n m = elim (named name_of n all_fields) [ none ↦ none | some f ↦ some (reset f m) ]
