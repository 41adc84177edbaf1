-- ===== src/Batches.antt =====
-- The block ranges of span batches: proposer/op/proposer/utils/utils.go. The rollup config and the
-- batches of each channel, in the order in which Go walks its map of channels, are given.
pub mod Clip
pub mod Fetch
use optimism_zkp.Prelude.{
  ℕ, ◌+◌, ◌-◌, ◌*◌, ◌/◌, ◌%◌, min, max, Bool, true, false, Option, none, some, List, [], ◌∷◌, ◌++◌,
  ◌||◌, ltb, ◌==◌, if◌then◌else◌, u64,
}
use optimism_zkp.Prelude.Effects.{Result, ok, err, rpc_failed, divides_by_zero, no_batches}
use optimism_zkp.Request.{Bytes}

pub record SpanBatchRange : Type 0 where
  pub start : ℕ
  pub end : ℕ

-- The fields of `rollup.Config` that are read.
pub record RollupConfig : Type 0 where
  pub genesis_time : ℕ
  pub genesis_block : ℕ
  pub block_time : ℕ
  pub batch_inbox_address : Bytes

-- The fields of `BatchDecoderConfig` that the config of the chain overrides.
pub record BatchDecoderConfig : Type 0 where
  pub l2_genesis_time : ℕ
  pub l2_genesis_block : ℕ
  pub l2_block_time : ℕ
  pub batch_inbox_address : Bytes

-- A batch: its timestamp, and its number of blocks if it is a span batch.
pub record Batch : Type 0 where
  pub timestamp : ℕ
  pub block_count : Option ℕ

-- Each field that differs is set to the chain's value.
unfoldable pub setup_batch_decoder_config : RollupConfig → BatchDecoderConfig → BatchDecoderConfig
setup_batch_decoder_config rollup config = record {
  l2_genesis_time = rollup.genesis_time;
  l2_genesis_block = rollup.genesis_block;
  l2_block_time = rollup.block_time;
  batch_inbox_address = rollup.batch_inbox_address;
}

abbrev pub and_then : {A B : Type 0} → Result A → (A → Result B) → Result B
and_then (ok a) f = f a
and_then (err x) f = err x

-- A division by 0 panics.
abbrev pub divide : ℕ → ℕ → Result ℕ
divide a b = if b == 0 then err divides_by_zero else ok (a / b)

unfoldable pub timestamp_to_block : RollupConfig → ℕ → Result ℕ
timestamp_to_block cfg timestamp =
    and_then (divide ((timestamp + u64 - cfg.genesis_time) % u64) cfg.block_time)
      (λ q. ok ((q + cfg.genesis_block) % u64))

-- The part of the batch [first, last] that lies in [start, end].
unfoldable pub clip : ℕ → ℕ → ℕ → ℕ → List SpanBatchRange
clip start end first last =
    if ltb end first || ltb last start
    then []
    else record { start = max start first; end = min end last } ∷ []

module _ (cfg : RollupConfig) (start end : ℕ) where
  -- The loop over the batches of a channel: the ranges, and whether the function returns at once.
  unfoldable pub batch_ranges :
      List Batch → List SpanBatchRange → Result (Bool × List SpanBatchRange)
  batch_ranges [] ranges = ok (false, ranges)
  batch_ranges (b ∷ bs) ranges = and_then (timestamp_to_block cfg b.timestamp) (λ first.
      elim b.block_count [
        | none ↦ ok (true, ranges ++ record { start = start; end = end } ∷ [])
        | some blocks ↦
            batch_ranges bs (ranges ++ clip start end first ((first + blocks + u64 - 1) % u64))
      ])

  -- The loop over the channels; a channel without batches ends the process.
  unfoldable pub channel_ranges :
      List (List Batch) → List SpanBatchRange → Result (List SpanBatchRange)
  channel_ranges [] ranges = ok ranges
  channel_ranges ([] ∷ channels) ranges = err no_batches
  channel_ranges ((b ∷ bs) ∷ channels) ranges =
      and_then (batch_ranges (b ∷ bs) ranges)
        (λ r. elim r.0 [ true ↦ ok r.1 | false ↦ channel_ranges channels r.1 ])

  unfoldable pub get_span_batch_ranges : List (List Batch) → Result (List SpanBatchRange)
  get_span_batch_ranges channels = channel_ranges channels []

abbrev pub answered : {A : Type 0} → Option A → Result A
answered none = err rpc_failed
answered (some a) = ok a

-- `GetL1SearchBoundaries`, with the L1 origin of an L2 block and the time of an L1 block.
unfoldable pub get_l1_search_boundaries : (ℕ → Option ℕ) → (ℕ → Option ℕ) → ℕ → ℕ → Result (ℕ × ℕ)
get_l1_search_boundaries l1_origin l1_time start end =
    and_then (answered (l1_origin start)) (λ start_l1_origin.
      and_then (answered (l1_time start_l1_origin)) (λ time.
        and_then (answered (l1_time ((start_l1_origin + u64 - 1) % u64))) (λ time_before.
          and_then (answered (l1_origin end)) (λ end_l1_origin.
            and_then (divide 60 ((time + u64 - time_before) % u64))
              (λ blocks. ok (start_l1_origin, (end_l1_origin + blocks * 10) % u64))))))
