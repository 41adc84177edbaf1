-- ===== src/Rollup/Text.antt =====
-- The texts of the rollup config: hexadecimal numbers and `CustomBytes32` (utils/utils.go). A text is the
-- list of its bytes.
use optimism_zkp.Prelude.{
  ℕ, zero, suc, ◌+◌, ◌-◌, ◌*◌, ◌^◌, Bool, true, false, ◌&&◌, Option, none, some, [], ◌∷◌, ◌++◌, ltb,
  leb, ◌==◌, if◌then◌else◌, length,
}
use optimism_zkp.Request.{Bytes}

pub data ℤ : Type 0 where
  pos : ℕ → ℤ
  negsuc : ℕ → ℤ

-- `strings.TrimPrefix(s, "0x")`
unfoldable pub trim_prefix : Bytes → Bytes
trim_prefix [] = []
trim_prefix (a ∷ []) = a ∷ []
trim_prefix (a ∷ b ∷ s) = if a == 48 && b == 120 then s else a ∷ b ∷ s

-- The value of a hexadecimal digit of either case.
unfoldable pub digit_value : ℕ → Option ℕ
digit_value c =
    if leb 48 c && leb c 57
    then some (c - 48)
    else if leb 97 c && leb c 102
    then some (c - 87)
    else if leb 65 c && leb c 70
    then some (c - 55)
    else none

unfoldable pub parse_digits : ℕ → Bytes → Option ℕ
parse_digits n [] = some n
parse_digits n (c ∷ s) = elim (digit_value c) [ none ↦ none | some d ↦ parse_digits (n * 16 + d) s ]

unfoldable pub parse_magnitude : Bytes → Option ℕ
parse_magnitude [] = none
parse_magnitude (c ∷ s) = parse_digits 0 (c ∷ s)

-- The signed number, if it fits 64 bits.
unfoldable pub in_int64 : Bool → ℕ → Option ℤ
in_int64 false n = if ltb n (2 ^ 63) then some (pos n) else none
in_int64 true zero = some (pos 0)
in_int64 true (suc n) = if ltb n (2 ^ 63) then some (negsuc n) else none

unfoldable pub signed : Bool → Option ℕ → Option ℤ
signed negative none = none
signed negative (some n) = in_int64 negative n

-- `strconv.ParseInt(s, 16, 64)`
unfoldable pub parse_int : Bytes → Option ℤ
parse_int [] = none
parse_int (c ∷ s) =
    if c == 45
    then signed true (parse_magnitude s)
    else if c == 43
    then signed false (parse_magnitude s)
    else signed false (parse_magnitude (c ∷ s))

unfoldable pub zeros : ℕ → Bytes
zeros zero = []
zeros (suc n) = 48 ∷ zeros n

-- `fmt.Sprintf("%064s", s)`
unfoldable pub pad : Bytes → Bytes
pad s = zeros (64 - length s) ++ s

-- `"` and `"` around a text.
abbrev pub quote : Bytes → Bytes
quote s = 34 ∷ (s ++ 34 ∷ [])

-- `json.Unmarshal` into a string, and `common.ParseHexOrString`.
pub record Codec : Type 0 where
  pub unquote : Bytes → Option Bytes
  pub parse_hex : Bytes → Option Bytes

unfoldable pub of_length_32 : Bytes → Option Bytes
of_length_32 b = if length b == 32 then some b else none

abbrev pub checked : Option Bytes → Option Bytes
checked none = none
checked (some b) = of_length_32 b

abbrev pub padded_word : Codec → Option Bytes → Option Bytes
padded_word c none = none
padded_word c (some s) = checked (c.parse_hex (48 ∷ 120 ∷ pad (trim_prefix s)))

-- `CustomBytes32.UnmarshalJSON`
unfoldable pub unmarshal_json : Codec → Bytes → Option Bytes
unmarshal_json c json = padded_word c (c.unquote json)
