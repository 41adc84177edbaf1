-- ===== src/Rollup/Numbers.antt =====
-- Reading hexadecimal numbers of the rollup config (utils/utils.go).
use optimism_zkp.Prelude.{
  ℕ, ◌+◌, ◌*◌, ◌^◌, ◌≤◌, ◌<◌, ◌≡◌, refl, sym, subst, ap, ◌∙◌, false, none, some, List, [], ◌∷◌, map,
  All, arith,
}
use optimism_zkp.Request.{Bytes}
use optimism_zkp.Db.Table.{hex_digit}
use optimism_zkp.Rollup.Text.{
  pos, digit_value, parse_digits, parse_magnitude, in_int64, signed, parse_int,
}

-- The number that a list of digits stands for, behind the digits read before.
abbrev pub value : ℕ → List ℕ → ℕ
value n [] = n
value n (d ∷ ds) = value (n * 16 + d) ds

abbrev pub IsDigit : ℕ → Type 0
IsDigit d = d < 16

digit_value-hex_digit : (d : ℕ) → IsDigit d → digit_value (hex_digit d) ≡ some d
unfolding digit_value hex_digit
digit_value-hex_digit d h = ground arith

next_digit :
    (n c d : ℕ) (s : Bytes)
    → digit_value c ≡ some d
    → parse_digits n (c ∷ s) ≡ parse_digits (n * 16 + d) s
unfolding parse_digits
next_digit n c d s h =
    subst
      (λ o.
        elim o [ none ↦ none | some d ↦ parse_digits (n * 16 + d) s ] ≡ parse_digits (n * 16 + d) s)
      (sym h) refl

parse_digits-value :
    (n : ℕ) (ds : List ℕ) → All IsDigit ds → parse_digits n (map hex_digit ds) ≡ some (value n ds)
unfolding parse_digits
parse_digits-value n [] h = refl
parse_digits-value n (d ∷ ds) h =
    next_digit n (hex_digit d) d (map hex_digit ds) (digit_value-hex_digit d h.0)
    ∙ parse_digits-value (n * 16 + d) ds h.1

hex_digit-bound : (d : ℕ) → 48 ≤ hex_digit d
unfolding hex_digit
hex_digit-bound d = ground arith

-- A text that starts with no sign is a magnitude.
unsigned : (c : ℕ) (s : Bytes) → 48 ≤ c → parse_int (c ∷ s) ≡ signed false (parse_digits 0 (c ∷ s))
unfolding parse_int parse_magnitude
unsigned c s h = ground arith

fitting : (n : ℕ) → n < 2 ^ 63 → signed false (some n) ≡ some (pos n)
unfolding signed in_int64
fitting n h = ground arith

pub parse_int-value :
    (d : ℕ) (ds : List ℕ)
    → All IsDigit (d ∷ ds)
    → value 0 (d ∷ ds) < 2 ^ 63
    → parse_int (map hex_digit (d ∷ ds)) ≡ some (pos (value 0 (d ∷ ds)))
parse_int-value d ds h fits =
    unsigned (hex_digit d) (map hex_digit ds) (hex_digit-bound d)
    ∙ ap (signed false) (parse_digits-value 0 (d ∷ ds) h)
    ∙ fitting (value 0 (d ∷ ds)) fits
