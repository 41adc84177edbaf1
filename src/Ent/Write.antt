-- ===== src/Ent/Write.antt =====
-- The update statements of db/db.go, down to the columns: they write what the model of the store
-- writes to its rows. What a statement does to the columns is SQL's, a parameter here.
use optimism_zkp.Prelude.{ℕ, ◌≡◌, refl, ap, ◌∙◌, false, Option, none, some}
use optimism_zkp.Request.{Bytes, Request, Status, unreq}
use optimism_zkp.Db.Table.{with_status, with_prover_request_id, with_proof, with_l1_block_info}
use optimism_zkp.Ent.Field.{Field, Value, status_validator}
use optimism_zkp.Ent.Mutation.{set, get, added}
use optimism_zkp.Ent.Create.{first_of}
use optimism_zkp.Ent.Row.{Columns, or_zero, assign_values, field_of, Represents}
use optimism_zkp.Ent.Update.{
  update_check, UpdateSpec, update_spec, update_all, update_one, save_all, save_one, status_builder,
  prover_id_builder, proof_builder, l1_builder,
}

-- `UPDATE ... SET column = value`: a column that is set, and neither added to nor cleared, has the
-- value; one that is not mentioned keeps what it had.
abbrev pub SetsColumns : (UpdateSpec → Columns → Columns) → Type 0
SetsColumns run =
    (s : UpdateSpec) (c : Columns) (f : Field) (v : Value f)
    → s.sets f ≡ some v
    → s.adds f ≡ none
    → s.clears f ≡ false
    → run s c f ≡ some v

abbrev pub KeepsColumns : (UpdateSpec → Columns → Columns) → Type 0
KeepsColumns run =
    (s : UpdateSpec) (c : Columns) (f : Field)
    → s.sets f ≡ none
    → s.adds f ≡ none
    → s.clears f ≡ false
    → run s c f ≡ c f

status-passes :
    (now : ℕ) (x : Status)
    → save_all (status_builder now x) ≡ update_all (update_spec (status_builder now x))
unfolding save_all update_check first_of status_builder set get status_validator
status-passes now unreq = refl
status-passes now _ = refl

prover_id-passes :
    (now : ℕ) (i : Bytes)
    → save_all (prover_id_builder now i) ≡ update_all (update_spec (prover_id_builder now i))
unfolding save_all update_check first_of prover_id_builder set get
prover_id-passes now i = refl

proof-passes :
    (now key : ℕ) (p : Option Bytes)
    → save_one (some key) (proof_builder now p) ≡ update_one key (update_spec (proof_builder now p))
unfolding save_one update_check first_of proof_builder set get status_validator
proof-passes now key p = refl

l1-passes :
    (now number : ℕ) (hash : Bytes)
    → save_all (l1_builder now number hash) ≡ update_all (update_spec (l1_builder now number hash))
unfolding save_all update_check first_of l1_builder set get
l1-passes now number hash = refl

module _ (run : UpdateSpec → Columns → Columns) (sets : SetsColumns run)
    (keeps : KeepsColumns run) where
  written :
      (s : UpdateSpec) (c : Columns) (f : Field) (v : Value f)
      → s.sets f ≡ some v
      → s.adds f ≡ none
      → s.clears f ≡ false
      → assign_values (run s c) f ≡ v
  unfolding assign_values
  written s c f v h k i = ap (or_zero f) (sets s c f v h k i)

  kept :
      (s : UpdateSpec) (c : Columns) (f : Field)
      → s.sets f ≡ none
      → s.adds f ≡ none
      → s.clears f ≡ false
      → assign_values (run s c) f ≡ assign_values c f
  unfolding assign_values
  kept s c f h k i = ap (or_zero f) (keeps s c f h k i)

  status-Represents :
      (now : ℕ) (x : Status) (c : Columns) (r : Request)
      → Represents c r
      → Represents (run (update_spec (status_builder now x)) c) (with_status now r x)
  unfolding update_spec status_builder set get added assign_values field_of
  status-Represents now x c r h Field.status = written _ c Field.status _ refl refl refl
  status-Represents now x c r h Field.last_updated_time =
      written _ c Field.last_updated_time _ refl refl refl
  status-Represents now x c r h f = kept _ c f refl refl refl ∙ h f

  prover_id-Represents :
      (now : ℕ) (i : Bytes) (c : Columns) (r : Request)
      → Represents c r
      → Represents (run (update_spec (prover_id_builder now i)) c) (with_prover_request_id now r i)
  unfolding update_spec prover_id_builder set get added assign_values field_of
  prover_id-Represents now i c r h Field.prover_request_id =
      written _ c Field.prover_request_id _ refl refl refl
  prover_id-Represents now i c r h Field.proof_request_time =
      written _ c Field.proof_request_time _ refl refl refl
  prover_id-Represents now i c r h Field.last_updated_time =
      written _ c Field.last_updated_time _ refl refl refl
  prover_id-Represents now i c r h f = kept _ c f refl refl refl ∙ h f

  proof-Represents :
      (now : ℕ) (p : Option Bytes) (c : Columns) (r : Request)
      → Represents c r
      → Represents (run (update_spec (proof_builder now p)) c) (with_proof now r p)
  unfolding update_spec proof_builder set get added assign_values field_of
  proof-Represents now p c r h Field.proof = written _ c Field.proof _ refl refl refl
  proof-Represents now p c r h Field.status = written _ c Field.status _ refl refl refl
  proof-Represents now p c r h Field.last_updated_time =
      written _ c Field.last_updated_time _ refl refl refl
  proof-Represents now p c r h f = kept _ c f refl refl refl ∙ h f

  l1-Represents :
      (now number : ℕ) (hash : Bytes) (c : Columns) (r : Request)
      → Represents c r
      → Represents
          (run (update_spec (l1_builder now number hash)) c)
          (with_l1_block_info now r number hash)
  unfolding update_spec l1_builder set get added assign_values field_of
  l1-Represents now number hash c r h Field.l1_block_number =
      written _ c Field.l1_block_number _ refl refl refl
  l1-Represents now number hash c r h Field.l1_block_hash =
      written _ c Field.l1_block_hash _ refl refl refl
  l1-Represents now number hash c r h Field.last_updated_time =
      written _ c Field.last_updated_time _ refl refl refl
  l1-Represents now number hash c r h f = kept _ c f refl refl refl ∙ h f

  -- Where SQL writes the columns that a statement sets and keeps those that it does not mention: each
  -- update statement of db.go passes the checks of ent, and what it runs (for one row by its key in
  -- `AddFulfilledProof`, for every row that its predicates select in the others) turns columns that
  -- stand for a row into columns that stand for the row that the model of the store writes.
  pub updates_lem :
      (c : Columns) (r : Request)
      → Represents c r
      → (now key : ℕ) (x : Status) (i : Bytes) (p : Option Bytes) (number : ℕ) (hash : Bytes)
      → ((save_all (status_builder now x) ≡ update_all (update_spec (status_builder now x)))
          × Represents (run (update_spec (status_builder now x)) c) (with_status now r x))
        × ((save_all (prover_id_builder now i) ≡ update_all (update_spec (prover_id_builder now i)))
            × Represents
                (run (update_spec (prover_id_builder now i)) c)
                (with_prover_request_id now r i))
        × ((save_one (some key) (proof_builder now p)
              ≡ update_one key (update_spec (proof_builder now p)))
            × Represents (run (update_spec (proof_builder now p)) c) (with_proof now r p))
        × ((save_all (l1_builder now number hash)
              ≡ update_all (update_spec (l1_builder now number hash)))
            × Represents
                (run (update_spec (l1_builder now number hash)) c)
                (with_l1_block_info now r number hash))
  updates_lem c r h now key x i p number hash = (
    (status-passes now x, status-Represents now x c r h),
    (prover_id-passes now i, prover_id-Represents now i c r h),
    (proof-passes now key p, proof-Represents now p c r h),
    (l1-passes now number hash, l1-Represents now number hash c r h),
  )
