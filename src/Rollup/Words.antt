-- ===== src/Rollup/Words.antt =====
-- Reading 32-byte words of the rollup config (utils/utils.go).
use optimism_zkp.Prelude.{
  ℕ, zero, suc, ◌+◌, ◌-◌, ◌*◌, ◌/◌, ◌%◌, ◌≤◌, ◌<◌, ◌≡◌, ◌≢◌, refl, sym, ap, subst, ◌∙◌, some, [],
  ◌∷◌, ◌++◌, length, All, arith,
}
use optimism_zkp.Request.{Bytes}
use optimism_zkp.Db.Table.{hex_digit, hex_encode}
use optimism_zkp.Rollup.Text.{
  Codec, trim_prefix, zeros, pad, quote, checked, padded_word, of_length_32, unmarshal_json,
}

abbrev pub IsByte : ℕ → Type 0
IsByte b = b < 256

-- A character that stands in a JSON text as itself.
abbrev pub IsPlain : ℕ → Type 0
IsPlain c = (32 ≤ c) × (c < 128) × (c ≢ 34) × (c ≢ 92)

-- What the conversion relies on: a plain text in quotes is read as it stands, and a hexadecimal text with
-- its prefix is decoded to the bytes that it encodes.
pub record IsCodec (c : Codec) : Type 0 where
  pub reads : (s : Bytes) → All IsPlain s → c.unquote (quote s) ≡ some s
  pub decodes : (bs : Bytes) → All IsByte bs → c.parse_hex (48 ∷ 120 ∷ hex_encode bs) ≡ some bs

length-zeros : (k : ℕ) (s : Bytes) → length (zeros k ++ s) ≡ k + length s
unfolding zeros
length-zeros zero s = omega arith
length-zeros (suc k) s = omega (arith, length-zeros k s)

pub length-hex_encode : (bs : Bytes) → length (hex_encode bs) ≡ 2 * length bs
unfolding hex_encode
length-hex_encode [] = refl
length-hex_encode (b ∷ bs) = omega (arith, length-hex_encode bs)

hex_digit-IsPlain : (d : ℕ) → d < 16 → IsPlain (hex_digit d)
unfolding hex_digit
hex_digit-IsPlain d h = ground arith

hex_encode-IsPlain : (bs : Bytes) → All IsByte bs → All IsPlain (hex_encode bs)
unfolding hex_encode
hex_encode-IsPlain [] h = tt
hex_encode-IsPlain (b ∷ bs) h = (
  hex_digit-IsPlain (b / 16) (omega (arith, h.0)),
  (hex_digit-IsPlain (b % 16) (omega arith), hex_encode-IsPlain bs h.1),
)

All-zeros : (P : ℕ → Type 0) (k : ℕ) (s : Bytes) → All P (zeros k ++ s) → All P s
unfolding zeros
All-zeros P zero s h = h
All-zeros P (suc k) s h = All-zeros P k s h.1

-- The padding adds the zeros that were left out.
pad-minimal :
    (k : ℕ) (s bs : Bytes) → zeros k ++ s ≡ hex_encode bs → length bs ≡ 32 → pad s ≡ hex_encode bs
unfolding pad
pad-minimal k s bs same size =
    let left_out : 64 - length s ≡ k =
      omega (arith, sym (length-zeros k s) ∙ ap length same ∙ length-hex_encode bs, size) in
    ap (λ n. zeros n ++ s) left_out ∙ same

of_length_32-lem : (bs : Bytes) → length bs ≡ 32 → of_length_32 bs ≡ some bs
unfolding of_length_32
of_length_32-lem bs h = ground (arith, h)

pub unmarshal_json-minimal :
    (c : Codec)
    → IsCodec c
    → (k : ℕ) (s bs : Bytes) → All IsByte bs
    → length bs ≡ 32
    → zeros k ++ s ≡ hex_encode bs
    → unmarshal_json c (quote (48 ∷ 120 ∷ s)) ≡ some bs
unfolding unmarshal_json trim_prefix
unmarshal_json-minimal c law k s bs bytes size same =
    let plain =
      All-zeros IsPlain k s (subst (λ l. All IsPlain l) (sym same) (hex_encode-IsPlain bs bytes)) in
    ap (padded_word c) (
      law.reads (48 ∷ 120 ∷ s) (
        (omega arith, omega arith, omega arith, omega arith),
        ((omega arith, omega arith, omega arith, omega arith), plain),
      ))
    ∙ ap (λ t. checked (c.parse_hex (48 ∷ 120 ∷ t))) (pad-minimal k s bs same size)
    ∙ ap checked (law.decodes bs bytes)
    ∙ of_length_32-lem bs size
