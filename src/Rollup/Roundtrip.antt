-- ===== src/Rollup/Roundtrip.antt =====
-- What the conversion of the rollup config reads back (utils/utils.go).
use optimism_zkp.Prelude.{
  ℕ, ◌<◌, ◌^◌, ◌≡◌, refl, ap, ◌∙◌, Bool, true, false, some, List, ◌∷◌, ◌++◌, map, length, All,
}
use optimism_zkp.Request.{Bytes}
use optimism_zkp.Db.Table.{hex_digit, hex_encode}
use optimism_zkp.Rollup.Text.{pos, Codec, trim_prefix, zeros, quote, unmarshal_json}
use optimism_zkp.Rollup.Convert.{
  Json, str, object, int64, bytes32, Members, on_text, or_else, as_int64, as_bytes32, hex_number,
  convert_config_types,
}
use optimism_zkp.Rollup.Numbers.{value, IsDigit, parse_int-value}
use optimism_zkp.Rollup.Words.{IsByte, IsCodec, unmarshal_json-minimal}
use optimism_zkp.Rollup.Leaves.{
  Leaf, l1_number, l2_number, overhead, scalar, base_fee, canyon_base_fee, change, follow, place,
  reading, convert-leaf,
}

abbrev pub holds_word : Leaf → Bool
holds_word overhead = true
holds_word scalar = true
holds_word _ = false

-- `0x` and a text.
abbrev pub prefixed : Bytes → Json
prefixed s = str (48 ∷ 120 ∷ s)

hex_number-digits :
    (d : ℕ) (ds : List ℕ)
    → All IsDigit (d ∷ ds)
    → value 0 (d ∷ ds) < 2 ^ 63
    → hex_number (48 ∷ 120 ∷ map hex_digit (d ∷ ds)) ≡ some (int64 (pos (value 0 (d ∷ ds))))
unfolding trim_prefix
hex_number-digits d ds h fits = ap as_int64 (parse_int-value d ds h fits)

taken : true ≡ false → ⊥
taken k = cc

not_taken : false ≡ true → ⊥
not_taken k = cc

reading-number :
    (c : Codec) (leaf : Leaf) (s : Bytes)
    → holds_word leaf ≡ false
    → reading c leaf s ≡ hex_number s
reading-number c l1_number s h = refl
reading-number c l2_number s h = refl
reading-number c base_fee s h = refl
reading-number c canyon_base_fee s h = refl
reading-number c overhead s h = absurd (taken h)
reading-number c scalar s h = absurd (taken h)

-- A text of hexadecimal digits behind `0x`, with or without leading zeros, at a leaf that holds a number
-- below 2 ^ 63 is replaced by that number.
pub convert-number :
    (c : Codec) (leaf : Leaf)
    → holds_word leaf ≡ false
    → (d : ℕ) (ds : List ℕ) → All IsDigit (d ∷ ds)
    → value 0 (d ∷ ds) < 2 ^ 63
    → (raw : Members)
    → follow (place leaf) (some (object raw)) ≡ some (prefixed (map hex_digit (d ∷ ds)))
    → follow (place leaf) (some (object (convert_config_types c raw)))
      ≡ some (int64 (pos (value 0 (d ∷ ds))))
convert-number c leaf kind d ds digits fits raw there =
    let s = 48 ∷ 120 ∷ map hex_digit (d ∷ ds) in
    convert-leaf c leaf raw
    ∙ ap (change (on_text (reading c leaf))) there
    ∙ ap (λ o. some (or_else (str s) o))
        (reading-number c leaf s kind ∙ hex_number-digits d ds digits fits)

reading-word :
    (c : Codec) (leaf : Leaf) (s : Bytes)
    → holds_word leaf ≡ true
    → reading c leaf s ≡ as_bytes32 (unmarshal_json c (quote s))
reading-word c overhead s h = refl
reading-word c scalar s h = refl
reading-word c l1_number s h = absurd (not_taken h)
reading-word c l2_number s h = absurd (not_taken h)
reading-word c base_fee s h = absurd (not_taken h)
reading-word c canyon_base_fee s h = absurd (not_taken h)

-- Where texts are read and hexadecimal is decoded as documented: the digits of 32 bytes behind `0x`, with
-- any of the leading zeros left out, at a leaf that holds a word are replaced by these bytes.
pub convert-word :
    (c : Codec)
    → IsCodec c
    → (leaf : Leaf) → holds_word leaf ≡ true
    → (k : ℕ) (s bs : Bytes) → All IsByte bs
    → length bs ≡ 32
    → zeros k ++ s ≡ hex_encode bs
    → (raw : Members) → follow (place leaf) (some (object raw)) ≡ some (prefixed s)
    → follow (place leaf) (some (object (convert_config_types c raw))) ≡ some (bytes32 bs)
convert-word c law leaf kind k s bs bytes size same raw there =
    convert-leaf c leaf raw
    ∙ ap (change (on_text (reading c leaf))) there
    ∙ ap (λ o. some (or_else (prefixed s) o))
        (reading-word c leaf (48 ∷ 120 ∷ s) kind
          ∙ ap as_bytes32 (unmarshal_json-minimal c law k s bs bytes size same))
