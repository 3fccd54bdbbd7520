-- ===== src/Core/Modbus/Transfer/Image.antt =====
-- A device as an image of its registers, and each point read by a request of its own.
use Prim.Native.Nat.{◌+◌, ◌-◌, ◌≤◌}
use edge_ems.Prelude.{
  ◌≡◌, refl, ap, ◌∙◌, Option, some, List, [], ◌∷◌, ℕ, zero, suc, String, arith, take, drop, ◌>>=◌,
}
use edge_ems.Prelude.Int.{ℤ}
use edge_ems.Prelude.Dict.{Dict}
use edge_ems.Float.{Float}
use edge_ems.Common.Points.{PointValue}
use edge_ems.Common.RegisterMap.{RegisterDef}
use edge_ems.Common.ModbusCodec.{Wire, decode}
use edge_ems.Core.Modbus.Plan.{Item, item}
use edge_ems.Core.Modbus.Transfer.{good_point, sf_for}

-- `count` words of the device from `start` on
abbrev pub image : (ℕ → ℕ) → ℕ → ℕ → List ℕ
image mem start zero = []
image mem start (suc count) = mem start ∷ image mem (start + 1) count

drop-zero : (xs : List ℕ) → drop 0 xs ≡ xs
drop-zero [] = refl
drop-zero (x ∷ xs) = refl

drop-image :
    (mem : ℕ → ℕ) (k start total off count : ℕ)
    → total ≡ k + count
    → start + k ≡ off
    → drop k (image mem start total) ≡ image mem off count
drop-image mem zero start total off count e f =
    let same : start ≡ off = omega arith in
    let all : total ≡ count = omega arith in drop-zero (image mem start total) ∙ rw (same, all) refl
drop-image mem (suc k) start zero off count e f = absurd (omega arith)
drop-image mem (suc k) start (suc total) off count e f =
    drop-image mem k (start + 1) total off count (omega arith) (omega arith)

take-image :
    (mem : ℕ → ℕ) (n start total : ℕ)
    → n ≤ total
    → take n (image mem start total) ≡ image mem start n
take-image mem zero start total h = refl
take-image mem (suc n) start zero h = absurd (omega arith)
take-image mem (suc n) start (suc total) h =
    ap (λ l. mem start ∷ l) (take-image mem n (start + 1) total (omega arith))

-- The words of a point are the same, whether they come with a block or alone.
pub image-slice :
    (mem : ℕ → ℕ) (start count off wide : ℕ)
    → start ≤ off
    → off + wide ≤ start + count
    → take wide (drop (off - start) (image mem start count)) ≡ image mem off wide
image-slice mem start count off wide low high =
    let rest = start + count - off in
    rw (drop-image mem (off - start) start count off rest (omega arith) (omega arith))
      (take-image mem wide off rest (omega arith))

module _ {F : Type 0} ⦃d : Float F⦄ (wire : Wire F) where
  -- the point, decoded from the device's own words
  abbrev pub decode_one : (ℕ → ℕ) → List (ℕ × ℤ) → Item F → Option F
  decode_one mem cache x = decode wire x.reg (image mem x.off x.wide) (sf_for cache x.reg)

  -- the point of a name, read alone
  abbrev pub read_one :
      (ℕ → ℕ) → List (ℕ × ℤ) → F → Dict (RegisterDef F) → String → Option (PointValue F)
  read_one mem cache ts points name = do
    x ← item points name
    v ← decode_one mem cache x
    some (good_point wire ts v)
