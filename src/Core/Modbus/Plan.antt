-- ===== src/Core/Modbus/Plan.antt =====
-- packages/core/src/core/adapters/modbus_tcp.py: `plan_reads`. `none` is an exception: an unknown
-- name, an address below the holding registers, or a register without a width. `sorted` is an
-- insertion sort, stable as it is.
pub mod Sorting
pub mod Items
pub mod Covering
pub mod Tests
use Prim.Native.Nat.{◌+◌, ◌-◌}
use edge_ems.Prelude.{
  Bool, true, false, not, ◌&&◌, Option, none, some, List, [], ◌∷◌, ◌++◌, ℕ, String, is_empty, leb,
  ltb, if◌then◌else◌, ◌>>=◌,
}
use edge_ems.Prelude.Dict.{Dict, lookup}
use edge_ems.Common.RegisterMap.{RegisterDef, width}
use edge_ems.Common.ModbusCodec.{holding_offset}

-- a requested point: its name, register, offset and width
pub record Item (F : Type 0) : Type 0 where
  pub name : String
  pub reg : RegisterDef F
  pub off : ℕ
  pub wide : ℕ

pub record ReadBlock (F : Type 0) : Type 0 where
  pub start : ℕ
  pub count : ℕ
  pub points : List (Item F)

module _ {F : Type 0} where
  abbrev pub item : Dict (RegisterDef F) → String → Option (Item F)
  item points name = do
    reg ← lookup name points
    off ← holding_offset reg.address
    wide ← width reg
    some (record { name = name; reg = reg; off = off; wide = wide })

  abbrev pub items : Dict (RegisterDef F) → List String → Option (List (Item F))
  items points [] = some []
  items points (name ∷ names) = do x ← item points name; xs ← items points names; some (x ∷ xs)

  -- An earlier item stays before a later one with the same offset.
  abbrev pub insert_item : Item F → List (Item F) → List (Item F)
  insert_item x [] = x ∷ []
  insert_item x (y ∷ ys) =
      let rest = insert_item x ys in if leb x.off y.off then x ∷ y ∷ ys else y ∷ rest

  unfoldable pub sort_items : List (Item F) → List (Item F)
  sort_items [] = []
  sort_items (x ∷ xs) = insert_item x (sort_items xs)

  abbrev pub block : ℕ → ℕ → List (Item F) → ReadBlock F
  block start end current = record { start = start; count = end - start; points = current }

  -- the loop over the sorted items, with its `start`, `end` and `current`
  unfoldable pub plan_from : ℕ → ℕ → ℕ → List (Item F) → List (Item F) → List (ReadBlock F)
  plan_from max_gap start end current [] =
      if is_empty current then [] else block start end current ∷ []
  plan_from max_gap start end current (x ∷ xs) =
      let stop = x.off + x.wide in
      let fresh = plan_from max_gap x.off stop (x ∷ []) xs in
      let more = plan_from max_gap start stop (current ++ (x ∷ [])) xs in
      if is_empty current
      then fresh
      else if ltb (end + max_gap) x.off
      then block start end current ∷ fresh
      else more

  unfoldable pub plan_reads : Dict (RegisterDef F) → List String → ℕ → Option (List (ReadBlock F))
  plan_reads points names max_gap = do
    xs ← items points names
    some (plan_from max_gap 0 0 [] (sort_items xs))
