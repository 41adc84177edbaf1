-- ===== src/Tests/Parsing.antt =====
-- A concrete rollup config, and a reader of texts and of hexadecimal.
use optimism_zkp.Prelude.{
  ℕ, ◌+◌, ◌*◌, ◌/◌, ◌%◌, ◌<◌, ◌≡◌, refl, ap, ◌∙◌, true, Option, none, some, List, [], ◌∷◌, ◌++◌,
  map, All, arith,
}
use optimism_zkp.Request.{Bytes}
use optimism_zkp.Db.Table.{hex_digit, hex_encode}
use optimism_zkp.Rollup.Text.{pos, Codec, digit_value, zeros}
use optimism_zkp.Rollup.Convert.{
  object, int64, bytes32, Members, empty, member, convert_config_types, on_text, lookup,
}
use optimism_zkp.Prelude.Effects.{ok}
use optimism_zkp.Batches.{
  RollupConfig, BatchDecoderConfig, SpanBatchRange, setup_batch_decoder_config, timestamp_to_block,
  clip, get_l1_search_boundaries, get_span_batch_ranges, channel_ranges, batch_ranges,
}
use optimism_zkp.Batches.Fetch.{
  Loader, Frame, Outside, add_frames, frames_of, frames_in, add_frames_lem,
  get_all_span_batches_in_l2_block_range, load_op_stack_rollup_config,
  fetch_batches_between_l1_blocks, add_frame,
}
use optimism_zkp.Rollup.Words.{IsByte, IsCodec}
use optimism_zkp.Rollup.Leaves.{l1_number, overhead, change, follow, place, reading, convert-leaf}
use optimism_zkp.Rollup.Roundtrip.{prefixed, convert-number, convert-word}

unfoldable drop_last : Bytes → Bytes
drop_last [] = []
drop_last (a ∷ []) = []
drop_last (a ∷ b ∷ s) = a ∷ drop_last (b ∷ s)

-- What stands between the quotes, and the bytes of pairs of digits behind the prefix.
unfoldable unquote : Bytes → Option Bytes
unquote [] = none
unquote (a ∷ s) = some (drop_last s)

abbrev pair : Option ℕ → Option ℕ → Option Bytes → Option Bytes
pair (some a) (some b) (some bs) = some ((a * 16 + b) ∷ bs)
pair _ _ _ = none

unfoldable decode : Bytes → Option Bytes
decode [] = some []
decode (a ∷ []) = none
decode (a ∷ b ∷ s) = pair (digit_value a) (digit_value b) (decode s)

unfoldable parse_hex : Bytes → Option Bytes
parse_hex (a ∷ b ∷ s) = decode s
parse_hex _ = none

abbrev codec : Codec
codec = record { unquote = unquote; parse_hex = parse_hex }

drop_last-quote : (s : Bytes) → drop_last (s ++ 34 ∷ []) ≡ s
unfolding drop_last
drop_last-quote [] = refl
drop_last-quote (a ∷ []) = refl
drop_last-quote (a ∷ b ∷ s) = ap (λ l. a ∷ l) (drop_last-quote (b ∷ s))

digit_value-hex_digit : (d : ℕ) → d < 16 → digit_value (hex_digit d) ≡ some d
unfolding digit_value hex_digit
digit_value-hex_digit d h = ground arith

decode-hex_encode : (bs : Bytes) → All IsByte bs → decode (hex_encode bs) ≡ some bs
unfolding decode hex_encode
decode-hex_encode [] h = refl
decode-hex_encode (b ∷ bs) h =
    let high = digit_value-hex_digit (b / 16) (omega (arith, h.0)) in
    let low = digit_value-hex_digit (b % 16) (omega arith) in
    ap (λ o. pair o (digit_value (hex_digit (b % 16))) (decode (hex_encode bs))) high
    ∙ ap (λ o. pair (some (b / 16)) o (decode (hex_encode bs))) low
    ∙ ap (pair (some (b / 16)) (some (b % 16))) (decode-hex_encode bs h.1)
    ∙ ap (λ n. some (n ∷ bs)) (omega arith)

codec-IsCodec : IsCodec codec
unfolding unquote parse_hex
codec-IsCodec = record { reads = λ s h. ap some (drop_last-quote s); decodes = decode-hex_encode }

-- `{"genesis": {"l1": {"number": "0x10"}, "system_config": {"overhead": "0xbc"}}}`
abbrev rollup : Members
rollup =
    member "genesis"
      (object (
        member "l1" (object (member "number" (prefixed (49 ∷ 48 ∷ [])) empty)) (
          member "system_config" (object (member "overhead" (prefixed (98 ∷ 99 ∷ [])) empty))
            empty)))
      empty

convert-leaf_example :
    follow (place l1_number) (some (object (convert_config_types codec rollup)))
    ≡ change (on_text (reading codec l1_number)) (follow (place l1_number) (some (object rollup)))
convert-leaf_example = convert-leaf codec l1_number rollup

convert-number_example :
    follow (place l1_number) (some (object (convert_config_types codec rollup)))
    ≡ some (int64 (pos 16))
unfolding lookup hex_digit
convert-number_example =
    convert-number codec l1_number refl 1 (0 ∷ []) (omega arith, (omega arith, tt)) (omega arith)
      rollup refl

abbrev small_word : Bytes
small_word =
    0 ∷ 0 ∷ 0 ∷ 0 ∷ 0 ∷ 0 ∷ 0 ∷ 0 ∷ 0 ∷ 0 ∷ 0 ∷ 0 ∷ 0 ∷ 0 ∷ 0 ∷ 0 ∷ 0 ∷ 0 ∷ 0 ∷ 0 ∷ 0 ∷ 0 ∷ 0 ∷ 0
    ∷ 0 ∷ 0 ∷ 0 ∷ 0 ∷ 0 ∷ 0 ∷ 0 ∷ 188 ∷ []

small_word-IsByte : All IsByte small_word
small_word-IsByte = ground arith

convert-word_example :
    follow (place overhead) (some (object (convert_config_types codec rollup)))
    ≡ some (bytes32 small_word)
unfolding lookup zeros hex_encode hex_digit
convert-word_example =
    convert-word codec codec-IsCodec overhead refl 62 (98 ∷ 99 ∷ []) small_word small_word-IsByte
      refl refl rollup refl

abbrev chain : RollupConfig
chain = record { genesis_time = 1000; genesis_block = 0; block_time = 2; batch_inbox_address = [] }

abbrev loader : Loader
loader = record {
  read_file = λ n. some [];
  parse = λ b. some rollup;
  print = λ m. some [];
  decode = λ b. some chain;
  codec = codec;
}

abbrev frames : List Frame
frames =
    record { channel = 7; content = 1 ∷ [] }
    ∷ record { channel = 8; content = 2 ∷ [] }
    ∷ record { channel = 7; content = 3 ∷ [] }
    ∷ []

-- Each frame gives a batch of ten blocks.
abbrev outside : Outside
outside = record {
  cleared = true;
  l1_origin = λ n. some (n + 100);
  l1_time = λ n. some (n * 12);
  frames = λ a b. frames;
  order = λ m. m;
  batches = λ config group.
      map (λ (f : Frame). record { timestamp = 1040; block_count = some 10 }) group.1;
}

add_frames_lem_example : frames_of 7 (add_frames [] frames) ≡ frames_in 7 frames
add_frames_lem_example = add_frames_lem 7 frames

abbrev decoder_config : BatchDecoderConfig
decoder_config = record {
  l2_genesis_time = 0;
  l2_genesis_block = 0;
  l2_block_time = 1;
  batch_inbox_address = [];
}

abbrev from_20_to_29 : SpanBatchRange
from_20_to_29 = record { start = 20; end = 29 }

-- Three frames in two channels, each with a batch of the ten blocks from block 20 on, under the config of
-- the chain.
three_frames :
    get_all_span_batches_in_l2_block_range loader outside decoder_config 10 10 30
    ≡ ok (from_20_to_29 ∷ from_20_to_29 ∷ from_20_to_29 ∷ [])
unfolding get_all_span_batches_in_l2_block_range load_op_stack_rollup_config
    fetch_batches_between_l1_blocks add_frame add_frames setup_batch_decoder_config
    timestamp_to_block clip get_l1_search_boundaries get_span_batch_ranges channel_ranges
    batch_ranges
three_frames = refl
