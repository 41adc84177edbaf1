-- ===== src/Batches/Fetch.antt =====
-- From the frames on L1 to the ranges of span batches (utils/utils.go): loading the rollup config, sorting
-- the frames into channels, and `GetAllSpanBatchesInL2BlockRange`. Reassembling the frames of a channel is
-- the code of op-node, and given.
use optimism_zkp.Prelude.{
  ℕ, ◌≡◌, ap, sym, ◌∙◌, Bool, Option, List, [], ◌∷◌, ◌++◌, map, select, ◌==◌, if◌then◌else◌, arith,
}
use mathlib.Core.List.{append-nil, append_assoc}
use optimism_zkp.Prelude.Effects.{Result, ok, err, rpc_failed}
use optimism_zkp.Request.{Bytes}
use optimism_zkp.Rollup.Text.{Codec}
use optimism_zkp.Rollup.Convert.{Members, convert_config_types}
use optimism_zkp.Batches.{
  SpanBatchRange, RollupConfig, BatchDecoderConfig, Batch, setup_batch_decoder_config, and_then,
  answered, get_l1_search_boundaries, get_span_batch_ranges,
}

-- The file of a chain, and what reads and writes JSON.
pub record Loader : Type 0 where
  pub read_file : ℕ → Option Bytes
  pub parse : Bytes → Option Members
  pub print : Members → Option Bytes
  pub decode : Bytes → Option RollupConfig
  pub codec : Codec

unfoldable pub load_op_stack_rollup_config : Loader → ℕ → Result RollupConfig
load_op_stack_rollup_config l chain = and_then (answered (l.read_file chain)) (λ file.
    and_then (answered (l.parse file)) (λ raw.
      and_then (answered (l.print (convert_config_types l.codec raw)))
        (λ modified. answered (l.decode modified))))

-- A frame, as far as it is looked at, and the rest of it.
pub record Frame : Type 0 where
  pub channel : ℕ
  pub content : Bytes

-- `framesByChannel[frame.Frame.ID] = append(framesByChannel[frame.Frame.ID], frame)`
unfoldable pub add_frame : Frame → List (ℕ × List Frame) → List (ℕ × List Frame)
add_frame f [] = (f.channel, f ∷ []) ∷ []
add_frame f ((id, fs) ∷ m) =
    if id == f.channel then (id, fs ++ f ∷ []) ∷ m else (id, fs) ∷ add_frame f m

unfoldable pub add_frames : List (ℕ × List Frame) → List Frame → List (ℕ × List Frame)
add_frames m [] = m
add_frames m (f ∷ fs) = add_frames (add_frame f m) fs

-- What the run meets outside: the directory, the nodes, the frames that were fetched for a range of L1
-- blocks, the order of Go's map, and the batches of a channel.
pub record Outside : Type 0 where
  pub cleared : Bool
  pub l1_origin : ℕ → Option ℕ
  pub l1_time : ℕ → Option ℕ
  pub frames : ℕ → ℕ → List Frame
  pub order : List (ℕ × List Frame) → List (ℕ × List Frame)
  pub batches : BatchDecoderConfig → ℕ × List Frame → List Batch

-- The frames that stand in the directory behind the fetch.
unfoldable pub fetch_batches_between_l1_blocks : Outside → ℕ → ℕ → Result (List Frame)
fetch_batches_between_l1_blocks o l1_start l1_end =
    if o.cleared then ok (o.frames l1_start l1_end) else err rpc_failed

unfoldable pub get_all_span_batches_in_l2_block_range :
    Loader → Outside → BatchDecoderConfig → ℕ → ℕ → ℕ → Result (List SpanBatchRange)
get_all_span_batches_in_l2_block_range l o config chain start end =
    and_then (load_op_stack_rollup_config l chain) (λ rollup.
      and_then (get_l1_search_boundaries o.l1_origin o.l1_time start end) (λ bounds.
        and_then (fetch_batches_between_l1_blocks o bounds.0 bounds.1) (λ frames.
          get_span_batch_ranges rollup start end (
            map (o.batches (setup_batch_decoder_config rollup config))
              (o.order (add_frames [] frames))))))

-- The frames under a channel; a channel that is not there has none.
abbrev pub frames_of : ℕ → List (ℕ × List Frame) → List Frame
frames_of c [] = []
frames_of c ((id, fs) ∷ m) = if id == c then fs else frames_of c m

-- The frames of one channel, in order.
abbrev pub frames_in : ℕ → List Frame → List Frame
frames_in c = select (λ f. f.channel == c)

frames_of-add_frame :
    (c : ℕ) (f : Frame) (m : List (ℕ × List Frame))
    → frames_of c (add_frame f m) ≡ frames_of c m ++ frames_in c (f ∷ [])
unfolding add_frame select
frames_of-add_frame c f [] = ground arith
frames_of-add_frame c f ((id, fs) ∷ m) =
    ground (arith, append-nil fs, append-nil (frames_of c m), frames_of-add_frame c f m)

frames_of-add_frames :
    (c : ℕ) (m : List (ℕ × List Frame)) (fs : List Frame)
    → frames_of c (add_frames m fs) ≡ frames_of c m ++ frames_in c fs
unfolding add_frames select
frames_of-add_frames c m [] = sym (append-nil (frames_of c m))
frames_of-add_frames c m (f ∷ fs) =
    frames_of-add_frames c (add_frame f m) fs
    ∙ ap (λ l. l ++ frames_in c fs) (frames_of-add_frame c f m)
    ∙ append_assoc (frames_of c m) (frames_in c (f ∷ [])) (frames_in c fs)
    ∙ ap (λ l. frames_of c m ++ l) (in_front c f fs)
  where
    in_front :
        (c : ℕ) (f : Frame) (fs : List Frame)
        → frames_in c (f ∷ []) ++ frames_in c fs ≡ frames_in c (f ∷ fs)
    in_front c f fs = ground arith

-- Sorting the frames into channels gives each channel the frames with its id, all of them, in their order.
pub add_frames_lem : (c : ℕ) (fs : List Frame) → frames_of c (add_frames [] fs) ≡ frames_in c fs
add_frames_lem c fs = frames_of-add_frames c [] fs
