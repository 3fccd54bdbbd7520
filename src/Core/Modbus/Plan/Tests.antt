-- ===== src/Core/Modbus/Plan/Tests.antt =====
-- Three points of a battery's map, with and without a gap between them.
use mathlib.Core.List.{Perm}
use edge_ems.Prelude.{◌≡◌, refl, some, List, [], ◌∷◌, String, map, All, arith}
use edge_ems.Prelude.Int.{ℤ}
use edge_ems.Prelude.Dict.{Dict}
use edge_ems.Common.RegisterMap.{
  RegisterMap, load_register_map, loaded, RegisterDef, int16, int32, r, rw,
}
use edge_ems.Common.RegisterMap.Tests.{register, battery_map}
use edge_ems.Common.RegisterMap.Disjoint.{Apart, load_register_map-Apart}
use edge_ems.Common.DataModel.Tests.{model}
use edge_ems.Core.Modbus.Plan.{Item, ReadBlock, sort_items, plan_from, plan_reads}
use edge_ems.Core.Modbus.Plan.Items.{IsItem, HasWords}
use edge_ems.Core.Modbus.Plan.Covering.{points_of, Holds, IsSpread, plan_reads-Covers}

abbrev pub soc : RegisterDef ℤ
soc = record (register 40020 int16 r) { role = some "data" }

abbrev pub registers : Dict (RegisterDef ℤ)
registers =
    ("soc_pct", soc)
    ∷ ("active_power_kw", register 40010 int32 r)
    ∷ ("active_power_setpoint_kw", register 40013 int16 rw)
    ∷ []

abbrev names : List String
names = "soc_pct" ∷ "active_power_setpoint_kw" ∷ "active_power_kw" ∷ []

abbrev one : Item ℤ
one = record { name = "active_power_kw"; reg = register 40010 int32 r; off = 9; wide = 2 }

abbrev two : Item ℤ
two = record {
  name = "active_power_setpoint_kw";
  reg = register 40013 int16 rw;
  off = 12;
  wide = 1;
}

abbrev three : Item ℤ
three = record { name = "soc_pct"; reg = soc; off = 19; wide = 1 }

abbrev blocks : List (ReadBlock ℤ)
blocks =
    record { start = 9; count = 4; points = one ∷ two ∷ [] }
    ∷ record { start = 19; count = 1; points = three ∷ [] }
    ∷ []

planned : plan_reads registers names 4 ≡ some blocks
unfolding plan_reads sort_items plan_from
planned = refl

abbrev pub registers_map : RegisterMap ℤ
registers_map = record battery_map { points = registers }

registers_load : load_register_map model registers_map ≡ loaded registers_map
unfolding load_register_map
registers_load = refl

pub registers-Apart : Apart registers
registers-Apart = (load_register_map-Apart model registers_map registers_map registers_load).1

pub registers-HasWords : HasWords registers
registers-HasWords = (λ e. ground arith, (λ e. ground arith, (λ e. ground arith, tt)))

plan_reads-Covers_example :
    Perm (map (λ x. x.name) (points_of blocks)) names
    × All (IsItem registers) (points_of blocks)
    × All Holds blocks
    × IsSpread 4 blocks
plan_reads-Covers_example =
    plan_reads-Covers registers names 4 blocks registers-Apart registers-HasWords planned
