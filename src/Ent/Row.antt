-- ===== src/Ent/Row.antt =====
-- A `ProofRequest` of the ent client and the columns that it is read from (db/ent/proofrequest.go), and
-- the row of the table that they stand for.
use optimism_zkp.Prelude.{◌≡◌, Option, none, some}
use optimism_zkp.Request.{Request}
use optimism_zkp.Ent.Field.{Field, Value, zero_value, type_text, status_text}

-- The struct by its fields, and a stored row by its columns, a column that is NULL with no value.
abbrev pub Node : Type 0
Node = (f : Field) → Value f

abbrev pub Columns : Type 0
Columns = (f : Field) → Option (Value f)

abbrev pub or_zero : (f : Field) → Option (Value f) → Value f
or_zero f none = zero_value f
or_zero f (some v) = v

-- `assignValues`: a field keeps its zero value where the column is NULL.
unfoldable pub assign_values : Columns → Node
assign_values c f = or_zero f (c f)

-- The fields of a row.
unfoldable pub field_of : Request → Node
field_of r Field.type = type_text r.type
field_of r Field.start_block = r.start_block
field_of r Field.end_block = r.end_block
field_of r Field.status = status_text r.status
field_of r Field.request_added_time = r.request_added_time
field_of r Field.prover_request_id = r.prover_request_id
field_of r Field.proof_request_time = r.proof_request_time
field_of r Field.last_updated_time = r.last_updated_time
field_of r Field.l1_block_number = r.l1_block_number
field_of r Field.l1_block_hash = r.l1_block_hash
field_of r Field.proof = r.proof

-- Reading the columns gives the row.
abbrev pub Represents : Columns → Request → Type 0
Represents c r = (f : Field) → assign_values c f ≡ field_of r f
