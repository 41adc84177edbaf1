-- ===== src/Batches/Clip.antt =====
-- The loops of `GetSpanBatchRanges` (utils/utils.go) and the range that was asked for.
use optimism_zkp.Prelude.{
  ℕ, ◌+◌, ◌-◌, ◌%◌, ◌≤◌, Bool, true, false, Option, none, some, List, [], ◌∷◌, ◌++◌, ◌||◌, inl, inr,
  Bool-cases, ltb, All, u64, arith,
}
use optimism_zkp.Prelude.Effects.{Result, ok, err}
use optimism_zkp.Batches.{
  SpanBatchRange, RollupConfig, Batch, and_then, timestamp_to_block, clip, batch_ranges,
  channel_ranges, get_span_batch_ranges,
}

abbrev pub InBounds : ℕ → ℕ → SpanBatchRange → Type 0
InBounds start end r = (start ≤ r.start) × (r.start ≤ end) × (start ≤ r.end) × (r.end ≤ end)

-- What a loop leaves, if it ends without a panic.
abbrev pub Bounded : {A : Type 0} → ℕ → ℕ → (A → List SpanBatchRange) → Result A → Type 0
Bounded start end f (ok a) = All (InBounds start end) (f a)
Bounded start end f (err x) = Unit

module _ (start end : ℕ) (ordered : start ≤ end) where
  All-append_ranges :
      (xs ys : List SpanBatchRange)
      → All (InBounds start end) xs
      → All (InBounds start end) ys
      → All (InBounds start end) (xs ++ ys)
  All-append_ranges [] ys h k = k
  All-append_ranges (x ∷ xs) ys h k = (h.0, All-append_ranges xs ys h.1 k)

  clip-InBounds : (first last : ℕ) → All (InBounds start end) (clip start end first last)
  unfolding clip
  clip-InBounds first last = elim (Bool-cases (ltb end first || ltb last start)) [
    | inl e ↦ rw e tt
    | inr e ↦ rw e ((omega arith, ground arith, ground arith, omega arith), tt)
  ]

  batch_ranges-Bounded :
      (cfg : RollupConfig) (bs : List Batch) (ranges : List SpanBatchRange)
      → All (InBounds start end) ranges
      → Bounded start end
          (λ (r : Bool × List SpanBatchRange). r.1)
          (batch_ranges cfg start end bs ranges)
  unfolding batch_ranges
  batch_ranges-Bounded cfg [] ranges h = h
  batch_ranges-Bounded cfg (b ∷ bs) ranges h =
      after (batch_ranges-Bounded cfg bs) (timestamp_to_block cfg b.timestamp) b.block_count
    where
      after :
          ((l : List SpanBatchRange)
            → All (InBounds start end) l
            → Bounded start end
                (λ (r : Bool × List SpanBatchRange). r.1)
                (batch_ranges cfg start end bs l))
          → (first : Result ℕ) (blocks : Option ℕ)
          → Bounded start end
              (λ (r : Bool × List SpanBatchRange). r.1)
              (and_then first (λ f. elim blocks [
                | none ↦ ok (true, ranges ++ record { start = start; end = end } ∷ [])
                | some n ↦
                    batch_ranges cfg start end bs
                      (ranges ++ clip start end f ((f + n + u64 - 1) % u64))
              ]))
      after later (err x) blocks = tt
      after later (ok f) none =
          All-append_ranges ranges _ h ((omega arith, ordered, ordered, omega arith), tt)
      after later (ok f) (some n) =
          later _ (All-append_ranges ranges _ h (clip-InBounds f ((f + n + u64 - 1) % u64)))

  channel_ranges-Bounded :
      (cfg : RollupConfig) (channels : List (List Batch)) (ranges : List SpanBatchRange)
      → All (InBounds start end) ranges
      → Bounded start end (λ l. l) (channel_ranges cfg start end channels ranges)
  unfolding channel_ranges
  channel_ranges-Bounded cfg [] ranges h = h
  channel_ranges-Bounded cfg ([] ∷ channels) ranges h = tt
  channel_ranges-Bounded cfg ((b ∷ bs) ∷ channels) ranges h =
      after (channel_ranges-Bounded cfg channels) (batch_ranges cfg start end (b ∷ bs) ranges)
        (batch_ranges-Bounded cfg (b ∷ bs) ranges h)
    where
      after :
          ((l : List SpanBatchRange)
            → All (InBounds start end) l
            → Bounded start end (λ l. l) (channel_ranges cfg start end channels l))
          → (r : Result (Bool × List SpanBatchRange)) → Bounded start end (λ x. x.1) r
          → Bounded start end
              (λ l. l)
              (and_then r (λ x. elim x.0 [
                | true ↦ ok x.1
                | false ↦ channel_ranges cfg start end channels x.1
              ]))
      after later (err x) k = tt
      after later (ok (true, l)) k = k
      after later (ok (false, l)) k = later l k

  -- Where the start is not behind the end and the loops end without a panic, both ends of every range
  -- that is returned lie from the start to the end that were asked for, in whatever order the channels come.
  pub get_span_batch_ranges-Bounded :
      (cfg : RollupConfig) (channels : List (List Batch))
      → Bounded start end (λ l. l) (get_span_batch_ranges cfg start end channels)
  unfolding get_span_batch_ranges
  get_span_batch_ranges-Bounded cfg channels = channel_ranges-Bounded cfg channels [] tt
