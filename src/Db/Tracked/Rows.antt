-- ===== src/Db/Tracked/Rows.antt =====
-- A query of which one row is taken.
use optimism_zkp.Prelude.{ℕ, List, [], ◌∷◌, All, Bool}
use optimism_zkp.Prelude.Effects.Ensures.{Ensures, Ensures-pure, Ensures-raise, Ensures-weaken}
use optimism_zkp.Request.{Request}
use optimism_zkp.World.{Env, World, ScansRows, IsSteady}
use optimism_zkp.Db.{first_row, only_row, query}
use optimism_zkp.Db.Reads.{OnAll}
use optimism_zkp.Db.Claims.{nought}
use optimism_zkp.Db.Tracked.{IsTracked, IsKnown}
use optimism_zkp.Db.Tracked.Calls.{join, leave, query-Tracked}

module _ (e : Env) (steady : IsSteady e) (scans : ScansRows e) (least : ℕ → ℕ)
    (left : List Request) where
  abbrev Of : List Request → World → Type 0
  Of pool = OnAll (IsTracked least nought pool)

  -- The rows that a query returned are known.
  abbrev pub Read : List Request → World → Type 0
  Read l w = Of left w × All (IsKnown w.next_id w.rows) l

  pub query-Read : (E : World → Type 0) (p : Request → Bool) → Ensures (Of left) (query e p) Read E
  query-Read E p =
      Ensures-weaken _ _ (query-Tracked e steady least left E scans nought p) (λ l w k. leave l k)
        (λ w k. k)

  pub first_row-Tracked :
      (l : List Request) → Ensures (Read l) (first_row l) (λ r. Of (r ∷ left)) (Of left)
  first_row-Tracked [] = Ensures-raise _ _ _ _ (λ w k. k.0)
  first_row-Tracked (r ∷ l) = Ensures-pure _ _ _ r (λ w k. join (r ∷ []) (k.1.0, tt) k.0)

  pub only_row-Tracked :
      (l : List Request) → Ensures (Read l) (only_row l) (λ r. Of (r ∷ left)) (Of left)
  only_row-Tracked [] = Ensures-raise _ _ _ _ (λ w k. k.0)
  only_row-Tracked (r ∷ []) = Ensures-pure _ _ _ r (λ w k. join (r ∷ []) (k.1.0, tt) k.0)
  only_row-Tracked (r ∷ r' ∷ l) = Ensures-raise _ _ _ _ (λ w k. k.0)
