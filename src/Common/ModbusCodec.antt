-- ===== src/Common/ModbusCodec.antt =====
-- packages/common/src/common/modbus_codec.py: between engineering values and register words. `round`
-- and powers of ten of Python floats, and the IEEE layout of a float32, are the fields of `Wire`.
-- Words are below 2 ** 16.
pub mod Words
pub mod RoundTrip
pub mod Tests
use Prim.Native.Nat.{◌+◌, ◌-◌, ◌*◌, ◌/◌, ◌%◌, ◌^◌}
use edge_ems.Prelude.{
  Bool, true, false, ◌&&◌, Option, none, some, List, [], ◌∷◌, ℕ, zero, suc, or_else, length, ◌==◌,
  ltb, leb, if◌then◌else◌, ◌>>=◌,
}
use edge_ems.Prelude.Int.{ℤ, pos, negsuc, sub_ℕ, leb_ℤ}
use edge_ems.Float.{Float, ◌*◌ as ◌·◌, ◌/◌ as ◌÷◌}
use edge_ems.Common.RegisterMap.{
  RegisterDef, RegisterType, uint16, int16, uint32, int32, float32, enum16, bitfield32, uint64,
  sunssf, string, pad, width, is_sunspec_scaled,
}

pub record Wire (F : Type 0) : Type 0 where
  pub round : F → ℤ
  pub power_of_ten : ℤ → F
  pub pack : F → ℕ × ℕ
  pub unpack : ℕ → ℕ → F

abbrev pub holding_base : ℕ
holding_base = 40001

abbrev pub holding_offset : ℕ → Option ℕ
holding_offset address = if ltb address holding_base then none else some (address - holding_base)

abbrev pub is_signed : RegisterType → Bool
is_signed int16 = true
is_signed sunssf = true
is_signed int32 = true
is_signed _ = false

abbrev pub is_float : RegisterType → Bool
is_float float32 = true
is_float _ = false

-- `_BITS`; a type that is no key is `none`
abbrev pub bits : RegisterType → Option ℕ
bits uint16 = some 16
bits int16 = some 16
bits enum16 = some 16
bits sunssf = some 16
bits uint32 = some 32
bits int32 = some 32
bits bitfield32 = some 32
bits uint64 = some 64
bits float32 = none
bits string = none
bits pad = none

-- `_RANGE`
abbrev pub range : RegisterType → Option (ℤ × ℤ)
range uint16 = some (pos 0, pos 0xffff)
range enum16 = some (pos 0, pos 0xffff)
range sunssf = some (negsuc 0x7fff, pos 0x7fff)
range int16 = some (negsuc 0x7fff, pos 0x7fff)
range uint32 = some (pos 0, pos 0xffff_ffff)
range bitfield32 = some (pos 0, pos 0xffff_ffff)
range int32 = some (negsuc 0x7fff_ffff, pos 0x7fff_ffff)
range uint64 = some (pos 0, pos 0xffff_ffff_ffff_ffff)
range float32 = none
range string = none
range pad = none

-- the loop of `_words_to_int`
unfoldable pub words_to_raw : ℕ → List ℕ → ℕ
words_to_raw raw [] = raw
words_to_raw raw (w ∷ ws) = words_to_raw (raw * 2 ^ 16 + w % 2 ^ 16) ws

abbrev pub signed_raw : RegisterType → ℕ → ℕ → ℤ
signed_raw t raw b = if is_signed t && leb (2 ^ (b - 1)) raw then sub_ℕ raw (2 ^ b) else pos raw

unfoldable pub words_to_int : RegisterType → List ℕ → Option ℤ
words_to_int t words = elim (bits t) [
  | none ↦ none
  | some b ↦ some (signed_raw t (words_to_raw 0 words) b)
]

-- `raw & (m - 1)` for a power of two m
abbrev pub mask : ℤ → ℕ → ℕ
mask (pos n) m = n % m
mask (negsuc n) m = m - 1 - n % m

-- `(raw >> (16 * (width - 1 - i))) & 0xFFFF` for each i, with 2 ** 16 to that power
unfoldable pub raw_words : ℕ → ℕ → List ℕ
raw_words zero raw = []
raw_words (suc n) raw = raw / (2 ^ 16) ^ n % 2 ^ 16 ∷ raw_words n raw

unfoldable pub int_to_words : ℤ → ℕ → List ℕ
int_to_words raw width = raw_words width (mask raw ((2 ^ 16) ^ width))

pub data Encoded : Type 0 where
  fits : List ℕ → Encoded
  unfit : ℤ → Encoded
  no_size : Encoded

abbrev pub in_range : RegisterType → ℤ → Bool
in_range t raw = elim (range t) [ none ↦ true | some (lo, hi) ↦ leb_ℤ lo raw && leb_ℤ raw hi ]

module _ {F : Type 0} where
  unfoldable pub encode_raw : RegisterDef F → ℤ → Encoded
  encode_raw reg raw = elim (width reg) [ none ↦ no_size | some n ↦ fits (int_to_words raw n) ]

  -- from the range check on
  unfoldable pub encode_int : RegisterDef F → ℤ → Encoded
  encode_int reg raw =
      if in_range reg.type raw
      then elim (width reg) [ none ↦ no_size | some n ↦ fits (int_to_words raw n) ]
      else unfit raw

module _ {F : Type 0} ⦃d : Float F⦄ (wire : Wire F) where
  abbrev pub sf_factor : RegisterDef F → Option ℤ → F
  sf_factor reg sf = wire.power_of_ten (or_else sf (or_else reg.sf_value (pos 0)))

  abbrev pub to_raw : RegisterDef F → F → Option ℤ → ℤ
  to_raw reg value sf =
      if is_sunspec_scaled reg
      then wire.round (value ÷ reg.unit_scale ÷ sf_factor reg sf)
      else wire.round (value ÷ reg.scale)

  abbrev pub from_raw : RegisterDef F → ℤ → Option ℤ → F
  from_raw reg raw sf =
      if is_sunspec_scaled reg
      then d.of_int raw · sf_factor reg sf · reg.unit_scale
      else d.of_int raw · reg.scale

  abbrev pub pack_float : ℕ × ℕ → List ℕ
  pack_float (hi, lo) = hi ∷ lo ∷ []

  unfoldable pub encode : RegisterDef F → F → Option ℤ → Encoded
  encode reg value sf =
      if is_float reg.type
      then fits (pack_float (wire.pack (value ÷ reg.scale)))
      else encode_int reg (to_raw reg value sf)

  abbrev pub unpack_float : RegisterDef F → List ℕ → Option F
  unpack_float reg (hi ∷ lo ∷ []) = some (wire.unpack hi lo · reg.scale)
  unpack_float reg _ = none

  -- `none` is an exception
  unfoldable pub decode : RegisterDef F → List ℕ → Option ℤ → Option F
  decode reg words sf = elim (width reg) [
    | none ↦ none
    | some n ↦
        if length words == n
        then (if is_float reg.type
            then unpack_float reg words
            else elim (words_to_int reg.type words) [
              | none ↦ none
              | some raw ↦ some (from_raw reg raw sf)
            ])
        else none
  ]
