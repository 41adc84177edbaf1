-- ===== src/Db/Chain.antt =====
-- The chain of completed span proofs that `GetMaxContiguousSpanProofRange` follows.
pub mod Range
pub mod Stall
pub mod Collect
pub mod Create
pub mod Unique
use optimism_zkp.Prelude.{
  subst, ℕ, ◌+◌, ◌≤◌, ◌<◌, ◌≡◌, refl, Bool, true, false, ◌&&◌, List, [], ◌∷◌, inl, inr, leb, ltb,
  ◌==◌, if◌then◌else◌, one_if, Bool-cases, All, All-map, All-both, IsSortedBy, ascending, count,
  count-eq-zero, arith,
}
use optimism_zkp.Request.{Request}
use optimism_zkp.Db.{contiguous_end, starts_at}

-- The block lies in the row's range [start, end).
abbrev pub covers : ℕ → Request → Bool
covers b r = leb r.start_block b && ltb b r.end_block

abbrev pub by_start : Request → Request → Bool
by_start = ascending (λ (r : Request). r.start_block)

abbrev pub IsNonempty : Request → Type 0
IsNonempty r = r.start_block < r.end_block

-- A list as the loop meets it: sorted, nothing before the current block, no empty range.
pub record IsAhead (current : ℕ) (l : List Request) : Type 0 where
  pub order : IsSortedBy by_start l
  pub from : All (λ r. current ≤ r.start_block) l
  pub nonempty : All IsNonempty l

covers-future : (b : ℕ) (l : List Request) → All (λ r. b < r.start_block) l → count (covers b) l ≡ 0
covers-future b l h = count-eq-zero (covers b) l (All-map _ _ l (λ r k. ground arith) h)

-- A span that overlaps the first one covers a block twice.
no_overlap :
    (x : Request) (l : List Request)
    → IsNonempty x
    → All (λ r. (x.start_block ≤ r.start_block) × IsNonempty r) l
    → ((b : ℕ) → count (covers b) (x ∷ l) ≤ 1)
    → All (λ r. x.end_block ≤ r.start_block) l
unfolding count
no_overlap x [] n h c = tt
no_overlap x (y ∷ l) n h c =
    let k : count (covers y.start_block) (x ∷ y ∷ l) ≤ 1 = c y.start_block in
    (
      ground (arith, k),
      no_overlap x l n h.1
          (λ b. let kb : count (covers b) (x ∷ y ∷ l) ≤ 1 = c b in omega (arith, kb)),
    )

-- Every block from `current` up to `m` is covered once, and `m` is not.
abbrev pub IsFirstGap : ℕ → List Request → ℕ → Type 0
IsFirstGap current l m =
    (current ≤ m)
    × ((b : ℕ) → current ≤ b → b < m → count (covers b) l ≡ 1)
    × (count (covers m) l ≡ 0)

IsFirstGap-here :
    (current : ℕ) (l : List Request)
    → All (λ r. current < r.start_block) l
    → IsFirstGap current l current
IsFirstGap-here current l h =
    (omega arith, λ b k k'. absurd (omega arith), covers-future current l h)

IsFirstGap-later :
    (x : Request) (l : List Request) (m : ℕ)
    → IsNonempty x
    → All (λ r. x.end_block ≤ r.start_block) l
    → IsFirstGap x.end_block l m
    → IsFirstGap x.start_block (x ∷ l) m
unfolding count
IsFirstGap-later x l m n h g = (omega arith, inside, ground arith)
  where
    inside : (b : ℕ) → x.start_block ≤ b → b < m → count (covers b) (x ∷ l) ≡ 1
    inside b k k' = elim (Bool-cases (ltb b x.end_block)) [
      | inl e ↦ ground (arith, covers-future b l (All-map _ _ l (λ r q. ground arith) h))
      | inr e ↦ ground (arith, g.1 b)
    ]

behind_first :
    (current : ℕ) (x : Request) (l : List Request)
    → IsAhead current (x ∷ l)
    → All (λ r. (x.start_block ≤ r.start_block) × IsNonempty r) l
behind_first current x l a =
    All-both (λ r. x.start_block ≤ r.start_block) IsNonempty l
      (All-map _ _ l (λ r h. ground arith) a.order.0) a.nonempty.1

-- What is behind the first span is ahead of its end.
IsAhead-of_rest :
    (current : ℕ) (x : Request) (l : List Request)
    → IsAhead current (x ∷ l)
    → ((b : ℕ) → count (covers b) (x ∷ l) ≤ 1)
    → IsAhead x.end_block l
IsAhead-of_rest current x l a c = record {
  order = a.order.1;
  from = no_overlap x l a.nonempty.0 (behind_first current x l a) c;
  nonempty = a.nonempty.1;
}

count_tail :
    (x : Request) (l : List Request)
    → ((b : ℕ) → count (covers b) (x ∷ l) ≤ 1)
    → (b : ℕ) → count (covers b) l ≤ 1
unfolding count
count_tail x l c b = let k : count (covers b) (x ∷ l) ≤ 1 = c b in omega (arith, k)

-- In a list where no two spans overlap, the loop ends at the first block that no span covers.
pub contiguous_end-IsFirstGap :
    (current : ℕ) (l : List Request)
    → IsAhead current l
    → ((b : ℕ) → count (covers b) l ≤ 1)
    → IsFirstGap current l (contiguous_end current l)
unfolding contiguous_end
contiguous_end-IsFirstGap current [] a c = IsFirstGap-here current [] tt
contiguous_end-IsFirstGap current (x ∷ l) a c = elim (Bool-cases (x.start_block == current)) [
  | inl e ↦
      subst (λ k. IsFirstGap k (x ∷ l) (contiguous_end current (x ∷ l))) (ground arith)
        (subst (IsFirstGap x.start_block (x ∷ l)) (rw e) (
          IsFirstGap-later x l (contiguous_end x.end_block l) a.nonempty.0
            (IsAhead-of_rest current x l a c).from
            (contiguous_end-IsFirstGap x.end_block l (IsAhead-of_rest current x l a c)
              (count_tail x l c))))
  | inr e ↦ subst (IsFirstGap current (x ∷ l)) (rw e) (
      IsFirstGap-here current (x ∷ l)
        (ground arith, All-map _ _ l (λ r h. ground arith) (behind_first current x l a)))
]
