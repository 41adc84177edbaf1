-- ===== src/Rollup/Leaves.antt =====
-- The leaves of the rollup config that the conversion reads (utils/utils.go).
use text.Mathlib.Text.{◌==◌}
use text.Mathlib.TextEquality.{eq_iff}
use Prim.Native.String.{String}
use optimism_zkp.Prelude.{
  ◌≡◌, refl, ap, ◌∙◌, Option, none, some, List, [], ◌∷◌, if◌then◌else◌, arith,
}
use optimism_zkp.Request.{Bytes}
use optimism_zkp.Rollup.Text.{Codec, quote, unmarshal_json}
use optimism_zkp.Rollup.Convert.{
  Json, null, boolean, number, str, array, object, int64, bytes32, Members, empty, member, lookup,
  replace, within, on_text, hex_number, as_bytes32, convert_block_number, convert_base_fee_params,
  convert_bytes32_field, convert_system_config, convert_config_types,
}

abbrev pub change : (Json → Json) → Option Json → Option Json
change f none = none
change f (some v) = some (f v)

-- The value under a key, where there is an object.
abbrev pub value_at : String → Option Json → Option Json
value_at k (some (object m)) = lookup k m
value_at k _ = none

abbrev pub follow : List String → Option Json → Option Json
follow [] o = o
follow (k ∷ ks) o = follow ks (value_at k o)

pub data Leaf : Type 0 where
  l1_number l2_number overhead scalar base_fee canyon_base_fee : Leaf

abbrev pub place : Leaf → List String
place l1_number = "genesis" ∷ "l1" ∷ "number" ∷ []
place l2_number = "genesis" ∷ "l2" ∷ "number" ∷ []
place overhead = "genesis" ∷ "system_config" ∷ "overhead" ∷ []
place scalar = "genesis" ∷ "system_config" ∷ "scalar" ∷ []
place base_fee = "base_fee_params" ∷ "max_change_denominator" ∷ []
place canyon_base_fee = "canyon_base_fee_params" ∷ "max_change_denominator" ∷ []

-- What a text at the leaf is replaced by, where it can be read.
abbrev pub reading : Codec → Leaf → Bytes → Option Json
reading c overhead s = as_bytes32 (unmarshal_json c (quote s))
reading c scalar s = as_bytes32 (unmarshal_json c (quote s))
reading c _ s = hex_number s

lookup-replace :
    (j k : String) (f : Json → Json) (m : Members)
    → lookup j (replace k f m) ≡ (if k == j then change f (lookup j m) else lookup j m)
unfolding lookup replace
lookup-replace j k f empty = ground arith
lookup-replace j k f (member i v m) =
    ground (arith, eq_iff i k, eq_iff i j, eq_iff k j, lookup-replace j k f m)

value_at-within :
    (j : String) (f : Members → Members) (g : Json → Json)
    → ((m : Members) → lookup j (f m) ≡ change g (lookup j m))
    → (o : Option Json) → value_at j (change (within f) o) ≡ change g (value_at j o)
value_at-within j f g h none = refl
value_at-within j f g h (some null) = refl
value_at-within j f g h (some (boolean b)) = refl
value_at-within j f g h (some (number s)) = refl
value_at-within j f g h (some (str s)) = refl
value_at-within j f g h (some (array s)) = refl
value_at-within j f g h (some (object m)) = h m
value_at-within j f g h (some (int64 z)) = refl
value_at-within j f g h (some (bytes32 b)) = refl

module _ (c : Codec) where
  abbrev genesis : Members → Members
  genesis m = convert_system_config c (convert_block_number "l2" (convert_block_number "l1" m))

  abbrev int_at : String → Json → Json
  int_at k = within (replace k (on_text hex_number))

  abbrev word : Json → Json
  word = on_text (λ s. as_bytes32 (unmarshal_json c (quote s)))

  -- The conversion at the keys of the config, of its genesis and of its system config.
  top-genesis :
      (raw : Members)
      → lookup "genesis" (convert_config_types c raw)
        ≡ change (within genesis) (lookup "genesis" raw)
  unfolding convert_config_types convert_base_fee_params
  top-genesis raw = simp (lookup-replace)

  top-base_fee :
      (raw : Members)
      → lookup "base_fee_params" (convert_config_types c raw)
        ≡ change (int_at "max_change_denominator") (lookup "base_fee_params" raw)
  unfolding convert_config_types convert_base_fee_params
  top-base_fee raw = simp (lookup-replace)

  top-canyon :
      (raw : Members)
      → lookup "canyon_base_fee_params" (convert_config_types c raw)
        ≡ change (int_at "max_change_denominator") (lookup "canyon_base_fee_params" raw)
  unfolding convert_config_types convert_base_fee_params
  top-canyon raw = simp (lookup-replace)

  genesis-l1 : (m : Members) → lookup "l1" (genesis m) ≡ change (int_at "number") (lookup "l1" m)
  unfolding convert_system_config convert_block_number
  genesis-l1 m = simp (lookup-replace)

  genesis-l2 : (m : Members) → lookup "l2" (genesis m) ≡ change (int_at "number") (lookup "l2" m)
  unfolding convert_system_config convert_block_number
  genesis-l2 m = simp (lookup-replace)

  abbrev words : Members → Members
  words m = convert_bytes32_field c "scalar" (convert_bytes32_field c "overhead" m)

  genesis-system :
      (m : Members)
      → lookup "system_config" (genesis m) ≡ change (within words) (lookup "system_config" m)
  unfolding convert_system_config convert_block_number
  genesis-system m = simp (lookup-replace)

  words-overhead : (m : Members) → lookup "overhead" (words m) ≡ change word (lookup "overhead" m)
  unfolding convert_bytes32_field
  words-overhead m = simp (lookup-replace)

  words-scalar : (m : Members) → lookup "scalar" (words m) ≡ change word (lookup "scalar" m)
  unfolding convert_bytes32_field
  words-scalar m = simp (lookup-replace)

  int_at-Leaf :
      (k : String) (o : Option Json)
      → value_at k (change (int_at k) o) ≡ change (on_text hex_number) (value_at k o)
  int_at-Leaf k = value_at-within k _ _ (updated k)
    where
      updated :
          (k : String) (m : Members)
          → lookup k (replace k (on_text hex_number) m) ≡ change (on_text hex_number) (lookup k m)
      updated k m = lookup-replace k k (on_text hex_number) m ∙ ground (arith, eq_iff k k)

  -- Behind the conversion, each of the six leaves holds what it held, read as a number or as a word where it
  -- is a text that can be read.
  pub convert-leaf :
      (leaf : Leaf) (raw : Members)
      → follow (place leaf) (some (object (convert_config_types c raw)))
        ≡ change (on_text (reading c leaf)) (follow (place leaf) (some (object raw)))
  convert-leaf l1_number raw =
      ap (λ o. value_at "number" (value_at "l1" o)) (top-genesis raw)
      ∙ ap (value_at "number") (value_at-within "l1" genesis _ genesis-l1 (lookup "genesis" raw))
      ∙ int_at-Leaf "number" (value_at "l1" (lookup "genesis" raw))
  convert-leaf l2_number raw =
      ap (λ o. value_at "number" (value_at "l2" o)) (top-genesis raw)
      ∙ ap (value_at "number") (value_at-within "l2" genesis _ genesis-l2 (lookup "genesis" raw))
      ∙ int_at-Leaf "number" (value_at "l2" (lookup "genesis" raw))
  convert-leaf overhead raw =
      ap (λ o. value_at "overhead" (value_at "system_config" o)) (top-genesis raw)
      ∙ ap (value_at "overhead")
          (value_at-within "system_config" genesis _ genesis-system (lookup "genesis" raw))
      ∙ value_at-within "overhead" words _ words-overhead
          (value_at "system_config" (lookup "genesis" raw))
  convert-leaf scalar raw =
      ap (λ o. value_at "scalar" (value_at "system_config" o)) (top-genesis raw)
      ∙ ap (value_at "scalar")
          (value_at-within "system_config" genesis _ genesis-system (lookup "genesis" raw))
      ∙ value_at-within "scalar" words _ words-scalar
          (value_at "system_config" (lookup "genesis" raw))
  convert-leaf base_fee raw =
      ap (value_at "max_change_denominator") (top-base_fee raw)
      ∙ int_at-Leaf "max_change_denominator" (lookup "base_fee_params" raw)
  convert-leaf canyon_base_fee raw =
      ap (value_at "max_change_denominator") (top-canyon raw)
      ∙ int_at-Leaf "max_change_denominator" (lookup "canyon_base_fee_params" raw)
