-- ===== src/Range/Heads.antt =====
-- The loops of `SplitRangeBasedOnSafeHeads` (range.go).
use optimism_zkp.Prelude.{
  ℕ, zero, suc, ◌+◌, ◌%◌, min, ◌≤◌, ◌<◌, ◌≡◌, refl, true, Option, some, List, [], ◌∷◌, ◌++◌, inl,
  inr, Bool-cases, ltb, All, u64, arith,
}
use optimism_zkp.Range.{Span, span_then, split_up_to, followed_by, split_at_heads}

-- Spans from block `i` to block `last`, each from where the one before ended, none empty and none
-- longer than the size.
abbrev pub Steps : ℕ → ℕ → List Span → ℕ → Type 0
Steps size i [] last = i ≡ last
Steps size i (s ∷ ss) last =
    (s.start ≡ i) × (i < s.end) × (s.end ≤ i + size) × Steps size s.end ss last

Steps-append :
    (size i j k : ℕ) (xs ys : List Span)
    → Steps size i xs j
    → Steps size j ys k
    → Steps size i (xs ++ ys) k
Steps-append size i j k [] ys e h = rw e h
Steps-append size i j k (x ∷ xs) ys e h = (e.0, e.1, e.2, Steps-append size x.end j k xs ys e.3 h)

abbrev pub SplitsTo : ℕ → ℕ → ℕ → Option (List Span) → Type 0
SplitsTo size i last r = (spans : List Span) × (r ≡ some spans) × Steps size i spans last

split_up_to-SplitsTo :
    (fuel size stop i : ℕ)
    → 0 < size
    → stop + size < u64
    → i < stop
    → stop < i + fuel
    → SplitsTo size i stop (split_up_to fuel size stop i)
unfolding split_up_to
split_up_to-SplitsTo zero size stop i p q h f = absurd (omega arith)
split_up_to-SplitsTo (suc fuel) size stop i p q h f =
    rw no_wrap (elim (Bool-cases (ltb (i + size) stop)) [
      | inl e ↦
          rw e (
            more _
              (split_up_to-SplitsTo fuel size stop (i + size) p q (ground arith) (omega arith)))
      | inr e ↦ rw e (record { start = i; end = stop } ∷ [], refl, (refl, h, ground arith, refl))
    ])
  where
    no_wrap : (i + size) % u64 ≡ i + size
    no_wrap = omega arith

    more :
        (r : Option (List Span))
        → SplitsTo size (i + size) stop r
        → SplitsTo size i stop (span_then (record { start = i; end = i + size }) r)
    more r (spans, e, steps) = (
      record { start = i; end = i + size } ∷ spans,
      rw e,
      (refl, omega arith, omega arith, steps),
    )

followed_by-SplitsTo :
    (size i j k : ℕ) (r s : Option (List Span))
    → SplitsTo size i j r
    → SplitsTo size j k s
    → SplitsTo size i k (followed_by r s)
followed_by-SplitsTo size i j k r s (xs, e, h) (ys, f, g) =
    (xs ++ ys, rw (e, f), Steps-append size i j k xs ys h g)

-- Where only the last safe head reaches the end of the range, the loop ends, and its spans cover
-- the range from its start to its end, without a gap, none empty and none longer than the size.
pub split_at_heads-SplitsTo :
    (size l2_end current : ℕ) (heads : List ℕ) (last : ℕ)
    → 0 < size
    → l2_end + size < u64
    → current < l2_end
    → All (λ h. h < l2_end) heads
    → l2_end ≤ last
    → SplitsTo size current l2_end (split_at_heads size l2_end current (heads ++ last ∷ []))
unfolding split_at_heads
split_at_heads-SplitsTo size l2_end current [] last p q c hs h =
    let test : ltb current last ≡ true = ground arith in
    let stop : min l2_end last ≡ l2_end = omega arith in
    rw test (
      rw stop (
        followed_by-SplitsTo size current l2_end l2_end _ _
          (split_up_to-SplitsTo (l2_end + 1) size l2_end current p q c (omega arith))
          ([], refl, refl)))
split_at_heads-SplitsTo size l2_end current (k ∷ heads) last p q c hs h =
    elim (Bool-cases (ltb current k)) [
      | inl e ↦ rw e (
          let stop : min l2_end k ≡ k = omega (arith, hs.0) in
          rw stop (
            followed_by-SplitsTo size current k l2_end _ _
              (split_up_to-SplitsTo (k + 1) size k current p (omega (arith, hs.0)) (ground arith)
                (omega arith))
              (split_at_heads-SplitsTo size l2_end k heads last p q hs.0 hs.1 h)))
      | inr e ↦ rw e (split_at_heads-SplitsTo size l2_end current heads last p q c hs.1 h)
    ]
