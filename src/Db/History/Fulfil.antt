-- ===== src/Db/History/Fulfil.antt =====
-- `AddFulfilledProof` (db/db.go) on the rows that were there before.
use optimism_zkp.Prelude.{
  ℕ, ◌≤◌, ◌≡◌, refl, sym, subst, Bool, true, false, not, Option, none, some, List, [], ◌∷◌, inl,
  inr, ◌==◌, Bool-cases, All, All-select, arith,
}
use optimism_zkp.Prelude.Effects.{Error, not_proving, proof_already_set}
use optimism_zkp.Prelude.Effects.Ensures.{
  Ensures, Ensures-pure, Ensures-raise, Ensures-modify, Ensures-bind, Ensures-weaken,
  Ensures-before, Ensures-given,
}
use optimism_zkp.Request.{Bytes, Request, proving}
use optimism_zkp.World.{Env, World, ScansRows, statement}
use optimism_zkp.Db.{
  id_is, has_status, is_set, only_row, raise_if, query, update, add_fulfilled_proof,
}
use optimism_zkp.Db.Table.{find}
use optimism_zkp.Db.Ids.{Ids, find_here, find_later}
use optimism_zkp.Db.Reads.{On, OnTable, Reads-statement, query-rows}
use optimism_zkp.Db.Claims.Queried.{rows-find}
use optimism_zkp.Db.Fulfil.{transaction-Ensures, complete_row}
use optimism_zkp.Db.History.{Evolves, IsHistory, update_rows-IsHistory}
use optimism_zkp.Db.History.Calls.{Records}

-- The row is in the table.
abbrev Stands : Request → List Request → Type 0
Stands r rows = find r.id rows ≡ some r

-- A row without a proof may be given one.
filled :
    (proof : Option Bytes) (now : ℕ) (r : Request)
    → r.proof ≡ none
    → Evolves r (complete_row proof now r)
filled proof now r h = record {
  id = refl;
  type = refl;
  start = refl;
  end = refl;
  added = refl;
  proof = λ p there. absurd (other r.proof p h there);
}
  where
    other : (o : Option Bytes) (p : Bytes) → o ≡ none → o ≡ some p → ⊥
    other o p gone there = cc

-- All rows with the key of a row that stands in the table are that row.
only_that :
    (n : ℕ) (r : Request) (rows : List Request) (P : Request → Type 0)
    → Ids n rows
    → find r.id rows ≡ some r
    → P r
    → All (λ x. id_is x r.id ≡ true → P x) rows
unfolding find
only_that n r [] P ids there h = tt
only_that n r (x ∷ rows) P ids there h = elim (Bool-cases (x.id == r.id)) [
  | inl here ↦ (
    (λ _. subst P (sym (find_here r.id x rows r here there)) h),
    older x.id rows ids.1 (ground arith),
  )
  | inr past ↦ (
    (λ here. absurd (clash (x.id == r.id) here past)),
    only_that x.id r rows P ids.1 (find_later r.id x rows r past there) h,
  )
]
  where
    clash : (b : Bool) → b ≡ true → b ≡ false → ⊥
    clash b here past = cc

    older : (m : ℕ) (l : List Request) → Ids m l → m ≤ r.id → All (λ y. id_is y r.id ≡ true → P y) l
    older m [] k below = tt
    older m (y ∷ l) k below =
        ((λ here. absurd (ground (arith, here))), older y.id l k.1 (omega arith))

module _ (past : List Request) (e : Env) (scans : ScansRows e) (key : ℕ)
    (proof : Option Bytes) where
  abbrev H : World → Type 0
  H = On (IsHistory past)

  abbrev With : Request → World → Type 0
  With r w = H w × Stands r w.rows

  abbrev Lost : World → Type 0
  Lost w = Unit {0}

  only_row-With :
      (rows : List Request)
      → Ensures (λ w. H w × All (λ r. Stands r w.rows) rows) (only_row rows) With Lost
  only_row-With [] = Ensures-raise _ _ _ _ (λ w k. tt)
  only_row-With (r ∷ []) = Ensures-pure _ _ _ r (λ w k. (k.0, k.1.0))
  only_row-With (r ∷ r' ∷ rows) = Ensures-raise _ _ _ _ (λ w k. tt)

  guarded :
      (P : World → Type 0) (c : Bool) (x : Error)
      → Ensures P (raise_if c x) (λ _ w. P w × (c ≡ false)) Lost
  guarded P true x = Ensures-raise _ _ _ x (λ w k. tt)
  guarded P false x = Ensures-pure _ _ _ tt (λ w k. (k, refl))

  write-H :
      (r : Request)
      → r.proof ≡ none
      → Ensures (With r) (update e (λ x. id_is x r.id) (complete_row proof)) (λ _. H) Lost
  unfolding update
  write-H r blank =
      Ensures-bind _ (λ _. With r) _ _ (statement e) _
        (Ensures-weaken _ _
          (Reads-statement e (OnTable (λ n rows. IsHistory past n rows × Stands r rows)))
          (λ a w k. k) (λ w k. tt))
        (λ n. Ensures-modify _ _ _ _ (λ w k.
          update_rows-IsHistory past w.next_id (λ x. id_is x r.id) (complete_row proof (e.now n))
            w.rows (λ x. refl)
            (only_that w.next_id r w.rows (λ x. Evolves x (complete_row proof (e.now n) x)) k.0.ids
              k.1 (filled proof (e.now n) r blank))
            k.0))

  unset : (o : Option Bytes) → is_set o ≡ false → o ≡ none
  unset none h = refl
  unset (some p) h = cc

  pub Records-fulfilled : Records past (add_fulfilled_proof e key proof)
  unfolding add_fulfilled_proof
  Records-fulfilled =
      transaction-Ensures e (IsHistory past) (λ _. IsHistory past) _
        (Ensures-bind _ (λ rows w. H w × All (λ r. Stands r w.rows) rows) _ Lost
          (query e (λ r. id_is r key)) _
          (Ensures-weaken _ _
            (query-rows e scans (λ r. id_is r key) (IsHistory past) (λ n rows r. Stands r rows)
              (λ n rows k. All-select _ _ rows (rows-find n rows k.ids)))
            (λ a w k. k) (λ w k. tt))
          (λ rows. Ensures-bind _ With _ Lost (only_row rows) _ (only_row-With rows) (λ r.
            Ensures-bind _ (λ _ w. With r w × (not (has_status r proving) ≡ false)) _ Lost
              (raise_if _ not_proving) _ (guarded (With r) _ _)
              (λ _.
                Ensures-bind _ (λ _ w. With r w × (is_set r.proof ≡ false)) _ Lost
                  (raise_if _ proof_already_set) _
                  (Ensures-before (With r) _ _ (λ w k. k.0) (guarded (With r) _ _))
                  (λ _.
                    Ensures-given _ _ _ _ (λ w k. unset r.proof k.1)
                      (λ blank. Ensures-before (With r) _ _ (λ w k. k.0) (write-H r blank)))))))
