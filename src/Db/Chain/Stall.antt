-- ===== src/Db/Chain/Stall.antt =====
-- The loop of `GetMaxContiguousSpanProofRange` (db/db.go) where two spans share their start.
use optimism_zkp.Prelude.{
  ℕ, ◌≤◌, ◌<◌, ◌≡◌, true, List, [], ◌∷◌, All, All-map, IsSortedBy, count, count-eq-zero, arith,
}
use optimism_zkp.Request.{Request}
use optimism_zkp.Db.{contiguous_end, starts_at}
use optimism_zkp.Db.Chain.{by_start, IsAhead}

starts-future :
    (b : ℕ) (l : List Request) → All (λ r. b < r.start_block) l → count (λ r. starts_at r b) l ≡ 0
starts-future b l h = count-eq-zero (λ r. starts_at r b) l (All-map _ _ l (λ r k. ground arith) h)

-- What follows a span that starts behind the block starts behind it too.
none_behind :
    (b : ℕ) (x : Request) (l : List Request)
    → IsSortedBy by_start (x ∷ l)
    → b < x.start_block
    → count (λ r. starts_at r b) (x ∷ l) ≡ 0
none_behind b x l o h = starts-future b (x ∷ l) (h, All-map _ _ l (λ r k. ground arith) o.0)

-- In a sorted list in which two spans start at the current block, the loop does not get past the
-- ends of the spans that start there, whatever proofs lie behind.
pub contiguous_end_duplicates :
    (current limit : ℕ) (l : List Request)
    → IsAhead current l
    → 2 ≤ count (λ r. starts_at r current) l
    → All (λ r. starts_at r current ≡ true → r.end_block ≤ limit) l
    → contiguous_end current l ≤ limit
unfolding contiguous_end count
contiguous_end_duplicates current limit [] a two ends = absurd (omega arith)
contiguous_end_duplicates current limit (x ∷ []) a two ends = absurd (ground arith)
contiguous_end_duplicates current limit (x ∷ y ∷ l) a two ends =
    ground (arith, none_behind current x (y ∷ l) a.order, none_behind current y l a.order.1)
