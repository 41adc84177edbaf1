-- ===== src/Db/Fulfil.antt =====
-- The transaction of `AddFulfilledProof` (db/db.go) and the claims on blocks.
pub mod Atomic
use optimism_zkp.Prelude.{
  ℕ, ◌+◌, ◌≤◌, ◌≡◌, refl, sym, subst, Bool, true, false, not, Option, List, [], ◌∷◌, one_if, All,
  All-map, select-passes, arith,
}
use optimism_zkp.Prelude.Effects.{Error, pure, gets, ◌>>=◌, catch, not_proving, proof_already_set}
use optimism_zkp.Prelude.Effects.Ensures.{
  Ensures, Ensures-pure, Ensures-raise, Ensures-gets, Ensures-bind, Ensures-catch, Ensures-weaken,
  Ensures-before, Ensures-frame, Ensures-given,
}
use optimism_zkp.Request.{Bytes, Request, proving, failed, complete}
use optimism_zkp.World.{Env, World, M, ScansRows, statement}
use optimism_zkp.Db.{
  id_is, has_status, is_set, only_row, raise_if, query, update, transaction, roll_back,
  add_fulfilled_proof,
}
use optimism_zkp.Db.Reads.{On, OnTable, Reads-statement, query-rows}
use optimism_zkp.Db.Claims.{claims}
use optimism_zkp.Db.Claims.Held.{Held, update-Ensures-Held}

module _ {A : Type 0} (e : Env) (P : ℕ → List Request → Type 0) (Q : A → ℕ → List Request → Type 0)
    (body : M A) where
  -- Every error of the body, the commit's included, goes back to the table before.
  rolled_back :
      (before : World)
      → Ensures (On P) body (λ a. On (Q a)) (λ _. Unit {0})
      → Ensures
          (λ w. On P w × On P before)
          (catch (body >>= λ a. statement e >>= λ _. pure a) (roll_back e before))
          (λ a. On (Q a))
          (On P)
  unfolding roll_back
  rolled_back before h =
      Ensures-catch _ (λ a. On (Q a)) (λ a. On (Q a)) (λ _. On P before) (On P) _
        (roll_back e before)
        (Ensures-bind (λ w. On P w × On P before) (λ a w. On (Q a) w × On P before) (λ a. On (Q a))
          (λ _. On P before) body _
          (Ensures-weaken _ body (Ensures-frame (On P before) (On P) body h) (λ a s k. k)
            (λ s k. k.1))
          committed)
        (λ a. record { at = λ s k. k }) (λ x. record { at = λ s k. k })
    where
      committed :
          (a : A)
          → Ensures
              (λ w. On (Q a) w × On P before)
              (statement e >>= λ _. pure a)
              (λ a. On (Q a))
              (λ _. On P before)
      committed a =
          Ensures-bind _ (λ _ w. On (Q a) w × On P before) _ (λ _. On P before) (statement e) _
            (Ensures-weaken _ (statement e)
              (Ensures-frame (On P before) (On (Q a)) (statement e)
                (Reads-statement e (OnTable (Q a))))
              (λ n s k. k) (λ s k. k.1))
            (λ n. Ensures-pure _ _ _ a (λ s k. k.0))

  -- A transaction whose body reaches `Q` ends in `Q`, or fails and leaves the table as it was.
  pub transaction-Ensures :
      Ensures (On P) body (λ a. On (Q a)) (λ _. Unit)
      → Ensures (On P) (transaction e body) (λ a. On (Q a)) (On P)
  unfolding transaction
  transaction-Ensures h =
      Ensures-bind (On P) (λ _. On P) (λ a. On (Q a)) (On P) (statement e) _
        (Reads-statement e (OnTable P))
        (λ n.
          Ensures-bind (On P) (λ before w. On P w × On P before) (λ a. On (Q a)) (On P)
            (gets (λ w. w)) _
            (Ensures-gets (On P) (λ before w. On P w × On P before) (On P) (λ w. w) (λ w k. (k, k)))
            (λ before. rolled_back before h))

-- The fulfilled row.
abbrev pub complete_row : Option Bytes → ℕ → Request → Request
complete_row proof now r = record r { proof = proof; status = complete; last_updated_time = now }

complete_trade :
    (req : Request) (proof : Option Bytes) (room : ℕ → ℕ)
    → has_status req failed ≡ false
    → (now b : ℕ)
    → one_if (claims b (complete_row proof now req)) + room b ≤ one_if (claims b req) + room b
complete_trade req proof room h now b = ground arith

only_row-All :
    (P : ℕ → List Request → Type 0) (T : Request → Type 0) (rows : List Request)
    → Ensures (λ w. On P w × All T rows) (only_row rows) (λ r w. On P w × T r) (λ _. Unit {0})
only_row-All P T [] = Ensures-raise _ _ _ _ (λ s k. tt)
only_row-All P T (r ∷ []) = Ensures-pure _ _ _ r (λ s k. (k.0, k.1.0))
only_row-All P T (r ∷ r' ∷ rows) = Ensures-raise _ _ _ _ (λ s k. tt)

module _ (e : Env) (limit room : ℕ → ℕ) (left : List Request) (req : Request)
    (proof : Option Bytes) where
  abbrev P : ℕ → List Request → Type 0
  P = Held limit room (req ∷ left)

  guarded : (c : Bool) (x : Error) → Ensures (On P) (raise_if c x) (λ _. On P) (λ _. Unit {0})
  guarded true x = Ensures-raise _ _ _ x (λ s k. tt)
  guarded false x = Ensures-pure _ _ _ tt (λ s k. k)

  abbrev write : ℕ → M (Unit {0})
  write key = update e (λ r. id_is r key) (complete_row proof)

  write-Held :
      has_status req failed ≡ false
      → Ensures (On P) (write req.id) (λ _. On (Held limit room left)) (λ _. Unit {0})
  write-Held live =
      Ensures-weaken _ (write req.id)
        (update-Ensures-Held e limit room left req (complete_row proof) room (λ now r. refl)
          (λ now r h. h) (complete_trade req proof room live))
        (λ a s k. k) (λ s k. tt)

  checked :
      (existing : Request)
      → Ensures
          (λ w. On P w × (existing.id ≡ req.id))
          (raise_if (not (has_status existing proving)) not_proving >>= λ _.
            raise_if (is_set existing.proof) proof_already_set >>= λ _. write existing.id)
          (λ _. On (Held limit room left))
          (λ _. Unit {0})
  checked existing =
      Ensures-given _ _ _ _ {X = (existing.id ≡ req.id) × (has_status req failed ≡ false)}
        (λ w k. (k.1, k.0.stored.0.1))
        (λ facts.
          Ensures-before (On P) _ _ (λ s k. k.0)
            (Ensures-bind (On P) (λ _. On P) _ _
              (raise_if (not (has_status existing proving)) not_proving) _ (guarded _ _)
              (λ _.
                Ensures-bind (On P) (λ _. On P) _ _
                  (raise_if (is_set existing.proof) proof_already_set) _ (guarded _ _)
                  (λ _.
                    subst
                      (λ k.
                        Ensures (On P) (write k) (λ _. On (Held limit room left)) (λ _. Unit {0}))
                      (sym facts.0) (write-Held facts.1)))))

  -- Fulfilling a request that stands in the table as it was read keeps every bound on the claims.
  pub add_fulfilled_proof-Held :
      ScansRows e
      → Ensures (On P) (add_fulfilled_proof e req.id proof) (λ _. On (Held limit room left)) (On P)
  unfolding add_fulfilled_proof
  add_fulfilled_proof-Held scans =
      transaction-Ensures e P (λ _. Held limit room left) _
        (Ensures-bind (On P) (λ rows w. On P w × All (λ r. r.id ≡ req.id) rows) _ (λ _. Unit {0})
          (query e (λ r. id_is r req.id)) _
          (Ensures-weaken _ (query e (λ r. id_is r req.id))
            (query-rows e scans _ P (λ n rows r. r.id ≡ req.id)
              (λ n rows h. All-map _ _ _ (λ r k. ground arith) (select-passes _ rows)))
            (λ a s k. k) (λ s k. tt))
          (λ rows.
            Ensures-bind _ (λ r w. On P w × (r.id ≡ req.id)) _ _ (only_row rows) _
              (only_row-All P (λ r. r.id ≡ req.id) rows) checked))
