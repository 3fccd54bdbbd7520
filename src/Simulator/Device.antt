-- ===== src/Simulator/Device.antt =====
-- packages/simulator/src/simulator/device.py: a device served from a register map. The data block is
-- pymodbus's, so it is an argument: `blank n` has n registers of 0. `none` is an exception: an unknown
-- name, an address below the holding registers, a value that does not fit, a register without a width.
pub mod Serving
mod Tests
use Prim.Native.Nat.{◌+◌}
use edge_ems.Prelude.{Bool, Option, none, some, List, [], ◌∷◌, ℕ, String, ltb, if◌then◌else◌, ◌>>=◌}
use edge_ems.Prelude.Int.{ℤ}
use edge_ems.Prelude.Dict.{Dict, lookup, values}
use edge_ems.Float.{Float}
use edge_ems.Common.RegisterMap.{RegisterDef, width, sunssf}
use edge_ems.Common.ModbusCodec.{
  Wire, Encoded, fits, unfit, no_size, holding_offset, words_to_int, encode_raw, encode, decode,
}

pub record Block (S : Type 0) : Type 0 where
  pub blank : ℕ → S
  pub get_values : S → ℕ → ℕ → List ℕ
  pub set_values : S → ℕ → List ℕ → S

abbrev pub words_of : Encoded → Option (List ℕ)
words_of (fits words) = some words
words_of (unfit raw) = none
words_of no_size = none

module _ {S : Type 0} {F : Type 0} ⦃d : Float F⦄ (io : Block S) (wire : Wire F) where
  -- where a register ends
  abbrev pub end_of : RegisterDef F → Option ℕ
  end_of reg = do off ← holding_offset reg.address; n ← width reg; some (off + n)

  abbrev pub larger : ℕ → ℕ → ℕ
  larger a b = if ltb a b then b else a

  -- `max` of no registers raises
  abbrev pub last_end : List (RegisterDef F) → Option ℕ
  last_end [] = none
  last_end (reg ∷ []) = end_of reg
  last_end (reg ∷ more ∷ regs) = do
    e ← end_of reg
    rest ← last_end (more ∷ regs)
    some (larger e rest)

  abbrev pub load_value : RegisterDef F → S → Option ℤ → Option S
  load_value reg s none = some s
  load_value reg s (some value) = do
    off ← holding_offset reg.address
    words ← words_of (encode_raw reg value)
    some (io.set_values s off words)

  abbrev pub load_values : List (RegisterDef F) → S → Option S
  load_values [] s = some s
  load_values (reg ∷ regs) s = do s' ← load_value reg s reg.value; load_values regs s'

  -- the scale factor of a register, or an exception
  unfoldable pub sf : S → Option ℕ → Option (Option ℤ)
  sf s none = some none
  sf s (some addr) = do
    off ← holding_offset addr
    factor ← words_to_int sunssf (io.get_values s off 1)
    some (some factor)

  unfoldable pub set_register : RegisterDef F → F → S → Option S
  set_register reg value s = do
    off ← holding_offset reg.address
    factor ← sf s reg.sf_address
    words ← words_of (encode wire reg value factor)
    some (io.set_values s off words)

  unfoldable pub get_register : RegisterDef F → S → Option F
  get_register reg s = do
    off ← holding_offset reg.address
    n ← width reg
    factor ← sf s reg.sf_address
    decode wire reg (io.get_values s off n) factor

  abbrev pub set_point : Dict (RegisterDef F) → String → F → S → Option S
  set_point points name value s = do reg ← lookup name points; set_register reg value s

  abbrev pub get_point : Dict (RegisterDef F) → String → S → Option F
  get_point points name s = do reg ← lookup name points; get_register reg s

  abbrev pub set_points : Dict (RegisterDef F) → Dict F → S → Option S
  set_points points [] s = some s
  set_points points ((name, value) ∷ initial) s = do
    s' ← set_point points name value s
    set_points points initial s'

  -- `SimulatedDevice(rmap, initial)`
  unfoldable pub new : Dict (RegisterDef F) → Dict F → Option S
  new points initial = do
    size ← last_end (values points)
    s ← load_values (values points) (io.blank (size + 3))
    set_points points initial s
