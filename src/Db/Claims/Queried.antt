-- ===== src/Db/Claims/Queried.antt =====
-- The requests that a query returns from a sound table are at hand: each stands in the table as it
-- was read, and no two are the same.
use optimism_zkp.Prelude.{
  ℕ, ◌≤◌, ◌≡◌, refl, Bool, true, false, ◌&&◌, some, List, [], ◌∷◌, inl, inr, Bool-cases, ◌==◌,
  count, count-select, All, All-map, All-both, All-select, select, select-passes, arith,
}
use optimism_zkp.Prelude.Effects.Ensures.{Ensures, Ensures-bind, Ensures-gets}
use optimism_zkp.Request.{Request, failed}
use optimism_zkp.World.{Env, ScansRows, statement}
use optimism_zkp.Db.{has_status, query}
use optimism_zkp.Db.Table.{find}
use optimism_zkp.Db.Ids.{Ids, find-lt}
use optimism_zkp.Db.Reads.{On, OnTable, Reads-statement}
use optimism_zkp.Db.Claims.{one, nought, IsTidy}
use optimism_zkp.Db.Claims.Held.{Held, Distinct, IsFresh}

-- Every row of the table is the one that its key finds.
pub rows-find : (n : ℕ) (rows : List Request) → Ids n rows → All (λ q. find q.id rows ≡ some q) rows
unfolding find
rows-find n [] h = tt
rows-find n (x ∷ rows) h = (ground arith, All-map _ _ rows older (rows-find x.id rows h.1))
  where
    older : (q : Request) → find q.id rows ≡ some q → find q.id (x ∷ rows) ≡ some q
    older q k = elim (Bool-cases (x.id == q.id)) [
      | inl e ↦ absurd (ground (arith, find-lt x.id q.id rows q h.1 k))
      | inr e ↦ rw e k
    ]

count-id_absent :
    (n i : ℕ) (rows : List Request) → Ids n rows → n ≤ i → count (λ r. r.id == i) rows ≡ 0
unfolding count
count-id_absent n i [] h k = refl
count-id_absent n i (x ∷ rows) h k = ground (arith, count-id_absent x.id i rows h.1)

-- A key stands in the table at most once.
count-id-le : (n i : ℕ) (rows : List Request) → Ids n rows → count (λ r. r.id == i) rows ≤ 1
unfolding count
count-id-le n i [] h = omega arith
count-id-le n i (x ∷ rows) h =
    ground (arith, count-id-le x.id i rows h.1, count-id_absent x.id i rows h.1)

count-and-le :
    (p q : Request → Bool) (rows : List Request) → count (λ r. p r && q r) rows ≤ count q rows
unfolding count
count-and-le p q [] = omega arith
count-and-le p q (x ∷ rows) = ground (arith, count-and-le p q rows)

IsFresh-of_count : (i : ℕ) (l : List Request) → count (λ r. r.id == i) l ≡ 0 → IsFresh i l
unfolding count
IsFresh-of_count i [] h = tt
IsFresh-of_count i (x ∷ l) h = (ground arith, IsFresh-of_count i l (ground arith))

Distinct-of_count : (l : List Request) → ((i : ℕ) → count (λ r. r.id == i) l ≤ 1) → Distinct l
unfolding count
Distinct-of_count [] h = tt
Distinct-of_count (x ∷ l) h = (
  IsFresh-of_count x.id l
      (let k : count (λ r. r.id == x.id) (x ∷ l) ≤ 1 = h x.id in ground (arith, k)),
  Distinct-of_count l (λ i. let k : count (λ r. r.id == i) (x ∷ l) ≤ 1 = h i in omega (arith, k)),
)

module _ (e : Env) (scans : ScansRows e) (p : Request → Bool) where
  scanned-Distinct :
      (n k : ℕ) (rows : List Request) → Ids n rows → Distinct (e.scan k (select p rows))
  scanned-Distinct n k rows h = Distinct-of_count _ (λ i. omega (
    arith,
    scans.each k (λ r. r.id == i) (select p rows),
    count-select (λ r. r.id == i) p rows,
    count-and-le p (λ r. r.id == i) rows,
    count-id-le n i rows h,
  ))

  -- The requests that pass a test which no failed request passes are at hand.
  pub query-Held :
      ((r : Request) → p r ≡ true → has_status r failed ≡ false)
      → Ensures (On IsTidy) (query e p) (λ l. On (Held one nought l)) (On IsTidy)
  unfolding query
  query-Held live =
      Ensures-bind (On IsTidy) (λ _. On IsTidy) (λ l. On (Held one nought l)) _ (statement e) _
        (Reads-statement e (OnTable IsTidy))
        (λ n.
          Ensures-gets (On IsTidy) (λ l. On (Held one nought l)) (On IsTidy) _
            (λ w h. record {
              within = h;
              stored = scans.rows n _ _ (
                  All-map _ _ _ (λ r k. (k.0, live r k.1))
                    (All-both _ _ _ (All-select _ p w.rows (rows-find w.next_id w.rows h.ids))
                      (select-passes p w.rows)));
              distinct = scanned-Distinct w.next_id n w.rows h.ids;
            }))
