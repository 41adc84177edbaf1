-- ===== src/Rollup/Convert.antt =====
-- The conversion of the parsed rollup config (utils/utils.go). An object is the list of its members, and a
-- write replaces the value under a key that is there.
use text.Mathlib.Text.{◌==◌}
use Prim.Native.String.{String}
use optimism_zkp.Prelude.{Bool, Option, none, some, if◌then◌else◌}
use optimism_zkp.Request.{Bytes}
use optimism_zkp.Rollup.Text.{ℤ, Codec, trim_prefix, parse_int, quote, unmarshal_json}

-- What an `interface{}` of the config holds: what JSON has, and what the conversion puts in.
mutual
  pub data Json : Type 0 where
    null : Json
    boolean : Bool → Json
    number : Bytes → Json
    str : Bytes → Json
    array : Items → Json
    object : Members → Json
    int64 : ℤ → Json
    bytes32 : Bytes → Json

  pub data Items : Type 0 where
    nil : Items
    cons : Json → Items → Items

  pub data Members : Type 0 where
    empty : Members
    member : String → Json → Members → Members

unfoldable pub lookup : String → Members → Option Json
lookup k empty = none
lookup k (member j v m) = if j == k then some v else lookup k m

-- `if v, ok := data[key]; ok { data[key] = f(v) }`
unfoldable pub replace : String → (Json → Json) → Members → Members
replace k f empty = empty
replace k f (member j v m) = if j == k then member j (f v) m else member j v (replace k f m)

-- A value that is an object is changed in place, any other is left alone.
abbrev pub within : (Members → Members) → Json → Json
within f (object m) = object (f m)
within f v = v

abbrev pub or_else : Json → Option Json → Json
or_else v none = v
or_else v (some w) = w

-- A text that can be read is replaced by what it says.
abbrev pub on_text : (Bytes → Option Json) → Json → Json
on_text f (str s) = or_else (str s) (f s)
on_text f v = v

abbrev pub as_int64 : Option ℤ → Option Json
as_int64 none = none
as_int64 (some z) = some (int64 z)

abbrev pub as_bytes32 : Option Bytes → Option Json
as_bytes32 none = none
as_bytes32 (some b) = some (bytes32 b)

-- The number that a hexadecimal text says.
abbrev pub hex_number : Bytes → Option Json
hex_number s = as_int64 (parse_int (trim_prefix s))

unfoldable pub convert_block_number : String → Members → Members
convert_block_number key = replace key (within (replace "number" (on_text hex_number)))

unfoldable pub convert_base_fee_params : String → Members → Members
convert_base_fee_params key =
    replace key (within (replace "max_change_denominator" (on_text hex_number)))

module _ (c : Codec) where
  unfoldable pub convert_bytes32_field : String → Members → Members
  convert_bytes32_field key = replace key (on_text (λ s. as_bytes32 (unmarshal_json c (quote s))))

  unfoldable pub convert_system_config : Members → Members
  convert_system_config =
      replace "system_config"
        (within (λ m. convert_bytes32_field "scalar" (convert_bytes32_field "overhead" m)))

  unfoldable pub convert_config_types : Members → Members
  convert_config_types raw =
      let with_genesis =
        replace "genesis"
          (within
            (λ m. convert_system_config (convert_block_number "l2" (convert_block_number "l1" m))))
          raw in
      convert_base_fee_params "canyon_base_fee_params"
        (convert_base_fee_params "base_fee_params" with_genesis)
