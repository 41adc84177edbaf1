-- ===== src/Db/Fulfil/Atomic.antt =====
-- `AddFulfilledProof` (db/db.go) on every branch of its transaction.
use optimism_zkp.Prelude.{
  ℕ, suc, ◌≡◌, refl, true, false, not, Option, List, [], ◌∷◌, inl, inr, Bool-cases, select,
}
use optimism_zkp.Prelude.Effects.{Result, pure, ◌>>=◌, catch, not_proving, proof_already_set}
use optimism_zkp.Prelude.Effects.Ensures.{Ends}
use optimism_zkp.Request.{Bytes, Request, proving}
use optimism_zkp.World.{Env, World, statement}
use optimism_zkp.Db.{
  id_is, has_status, is_set, raise_if, only_row, query, update, roll_back, transaction,
  add_fulfilled_proof,
}
use optimism_zkp.Db.Table.{update_rows}
use optimism_zkp.Db.Fulfil.{complete_row}

-- The rows that the query of the transaction hands over.
abbrev pub found_rows : Env → ℕ → World → List Request
found_rows e key w = e.scan (suc w.calls) (select (λ r. id_is r key) w.rows)

-- The one row with the key was in PROVING without a proof, and is completed with this one.
abbrev pub Completed : Env → ℕ → Option Bytes → World → World → Type 0
Completed e key proof w w' =
    (r : Request) × (now : ℕ) × (found_rows e key w ≡ r ∷ [])
    × (has_status r proving ≡ true)
    × (is_set r.proof ≡ false)
    × (w'.rows ≡ update_rows (λ x. id_is x r.id) (complete_row proof now) w.rows)
    × (w'.next_id ≡ w.next_id)
    × (w'.spawned ≡ w.spawned)

abbrev pub Untouched : World → World → Type 0
Untouched w w' = (w'.rows ≡ w.rows) × (w'.next_id ≡ w.next_id) × (w'.spawned ≡ w.spawned)

abbrev pub Commits : Env → ℕ → Option Bytes → World → Result (Unit {0}) × World → Type 0
Commits e key proof w = Ends (λ _ w'. Completed e key proof w w') (Untouched w)

module _ (e : Env) (key : ℕ) (proof : Option Bytes) (w : World) where
  -- What follows the query, up to the commit and the rollback.
  abbrev rest : List Request → Result (Unit {0}) × World
  rest rows =
      catch
        ((only_row rows >>= λ r. raise_if (not (has_status r proving)) not_proving >>= λ _.
            raise_if (is_set r.proof) proof_already_set >>= λ _.
            update e (λ x. id_is x r.id) (complete_row proof))
          >>= λ a. statement e >>= λ _. pure a)
        (roll_back e (record w { calls = suc w.calls })) (record w { calls = suc (suc w.calls) })

  rest-Commits :
      (rows : List Request) → found_rows e key w ≡ rows → Commits e key proof w (rest rows)
  unfolding roll_back update statement catch ◌>>=◌
  rest-Commits [] h = (refl, refl, refl)
  rest-Commits (r ∷ r' ∷ rows) h = (refl, refl, refl)
  rest-Commits (r ∷ []) h = elim (Bool-cases (has_status r proving)) [
    | inr a ↦ rw a (refl, refl, refl)
    | inl a ↦ rw a (elim (Bool-cases (is_set r.proof)) [
      | inl b ↦ rw b (refl, refl, refl)
      | inr b ↦ rw b (elim (Bool-cases (e.fault (suc (suc w.calls)))) [
        | inl c ↦ rw c (refl, refl, refl)
        | inr c ↦ rw c (elim (Bool-cases (e.fault (suc (suc (suc w.calls))))) [
          | inl d ↦ rw d (refl, refl, refl)
          | inr d ↦ rw d (r, e.now (suc (suc w.calls)), h, a, b, refl, refl, refl)
        ])
      ])
    ])
  ]

  -- Whichever statement fails: if the call succeeds, the query found one row, it was in PROVING without a
  -- proof, and the row with its key is completed with the given proof and no other changes; if it fails,
  -- the table is as before.
  pub add_fulfilled_proof_lem : Commits e key proof w (add_fulfilled_proof e key proof w)
  unfolding add_fulfilled_proof transaction roll_back query statement catch ◌>>=◌
  add_fulfilled_proof_lem = elim (Bool-cases (e.fault w.calls)) [
    | inl a ↦ rw a (refl, refl, refl)
    | inr a ↦ rw a (elim (Bool-cases (e.fault (suc w.calls))) [
      | inl b ↦ rw b (refl, refl, refl)
      | inr b ↦ rw b (rest-Commits (found_rows e key w) refl)
    ])
  ]
