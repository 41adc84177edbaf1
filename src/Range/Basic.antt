-- ===== src/Range/Basic.antt =====
-- The loop of `SplitRangeBasic` (range.go).
use optimism_zkp.Prelude.{
  ℕ, zero, suc, ◌+◌, ◌%◌, ◌≤◌, ◌<◌, ◌≡◌, refl, true, Option, none, some, List, [], ◌∷◌, inl, inr,
  Bool-cases, leb, u64, arith,
}
use optimism_zkp.Range.{Span, span_then, split_from, split_range_basic}

-- Spans of one size, each from where the one before ended, from block `i` to block `last`.
abbrev pub Tiles : ℕ → ℕ → List Span → ℕ → Type 0
Tiles size i [] last = i ≡ last
Tiles size i (s ∷ ss) last = (s.start ≡ i) × (s.end ≡ i + size) × Tiles size (i + size) ss last

-- What the loop returns from block `i`: spans up to a block from which no other fits before `end`.
abbrev pub Splits : ℕ → ℕ → ℕ → Option (List Span) → Type 0
Splits size end i r =
    (spans : List Span) × (last : ℕ) × (r ≡ some spans)
    × Tiles size i spans last
    × (last ≤ end)
    × (end < last + size)

Splits-more :
    (size end i : ℕ) (r : Option (List Span))
    → Splits size end (i + size) r
    → Splits size end i (span_then (record { start = i; end = i + size }) r)
Splits-more size end i r (spans, last, e, tiles, below, short) =
    (record { start = i; end = i + size } ∷ spans, last, rw e, (refl, refl, tiles), below, short)

split_from-Splits :
    (fuel size end i : ℕ)
    → 0 < size
    → end + size < u64
    → i ≤ end
    → end < i + fuel
    → Splits size end i (split_from fuel size end i)
unfolding split_from
split_from-Splits zero size end i p q h f = absurd (omega arith)
split_from-Splits (suc fuel) size end i p q h f =
    rw no_wrap (elim (Bool-cases (leb (i + size) end)) [
      | inl e ↦ rw e (
          Splits-more size end i _
            (split_from-Splits fuel size end (i + size) p q (ground arith) (omega arith)))
      | inr e ↦ rw e ([], i, refl, refl, h, ground arith)
    ])
  where
    no_wrap : (i + size) % u64 ≡ i + size
    no_wrap = omega arith

-- With a size above 0 and no overflow the loop ends; its spans line up from `start`, each of exactly
-- the size, up to a last block at or below `end` from which no further span fits.
pub split_range_basic-Splits :
    (size start end : ℕ)
    → 0 < size
    → end + size < u64
    → start ≤ end
    → Splits size end start (split_range_basic size start end)
unfolding split_range_basic
split_range_basic-Splits size start end p q h =
    split_from-Splits (end + 1) size end start p q h (omega arith)

-- A start behind the end gives no span.
pub split_range_basic_behind :
    (size start end : ℕ)
    → start + size < u64
    → end < start
    → split_range_basic size start end ≡ some []
unfolding split_range_basic split_from
split_range_basic_behind size start end q h =
    let no_wrap : (start + size) % u64 ≡ start + size = omega arith in
    let one_more : end + 1 ≡ suc end = omega arith in rw one_more (rw no_wrap (ground arith))

-- With size 0 and a start at or before the end the loop never ends: no fuel is enough.
pub split_from_hangs :
    (fuel start end : ℕ) → start ≤ end → end < u64 → split_from fuel 0 end start ≡ none
unfolding split_from
split_from_hangs zero start end h k = refl
split_from_hangs (suc fuel) start end h k =
    let same : (start + 0) % u64 ≡ start = omega arith in
    let test : leb start end ≡ true = ground arith in
    rw same (rw test (rw (split_from_hangs fuel start end h k)))
