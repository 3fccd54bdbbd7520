-- ===== src/Core/Modbus/Transfer/Tests.antt =====
-- A battery whose registers from 15 on cannot be read, in thousandths.
use edge_ems.Prelude.{
  ◌≡◌, refl, inl, inr, Bool-cases, true, none, some, List, [], ◌∷◌, ℕ, String, ltb, is_some,
  is_empty, listed, if◌then◌else◌,
}
use edge_ems.Prelude.Int.{ℤ, pos}
use edge_ems.Prelude.Dict.{Dict, lookup}
use edge_ems.Float.Milli.{milli}
use edge_ems.Common.Points.{PointValue}
use edge_ems.Common.RegisterMap.{RegisterDef}
use edge_ems.Common.ModbusCodec.{decode, words_to_int}
use edge_ems.Common.ModbusCodec.Tests.{wire}
use edge_ems.Core.Adapter.{WriteResult}
use edge_ems.Core.Modbus.Link.{Link, joined, ensure_connected}
use edge_ems.Core.Modbus.Plan.{ReadBlock, plan_reads}
use edge_ems.Core.Modbus.Plan.Tests.{registers, registers-Apart, registers-HasWords}
use edge_ems.Core.Modbus.Transfer.{
  Client, Adapter, answered, erred, ensure_sf, read_points, write_points,
}
use edge_ems.Core.Modbus.Transfer.Image.{image}
use edge_ems.Core.Modbus.Transfer.Blocks.{Serves, IsSound}
use edge_ems.Core.Modbus.Transfer.Agreement.{read_points-agrees}
use edge_ems.Core.Modbus.Transfer.Writing.{IsExplained, write_points-reports}
use edge_ems.Core.Modbus.Transfer.Unknown.{unknown_raises}

abbrev mem : ℕ → ℕ
mem n = n

-- Writes beyond register 15 fail too.
abbrev client : Client
client = record {
  read_registers =
      λ start count. if ltb start 15 then answered (image mem start count) else erred "timeout";
  write_registers = λ start words. if ltb start 15 then none else some "timeout";
}

client-Serves : Serves mem client
client-Serves start count = elim (Bool-cases (ltb start 15)) [
  | inl low ↦ inl (rw low refl)
  | inr high ↦ inr ("timeout", rw high refl)
]

abbrev up : Link ℤ
up = record {
  has_client = true;
  health = record {
    connected = true;
    consecutive_failures = 0;
    last_ok_ts = none;
    last_error = none;
  };
  backoff = pos 1000;
  max_backoff = pos 30000;
  next_attempt = pos 0;
}

abbrev adapter : Adapter ℤ
adapter = record { link = up; points = registers; max_gap = 4; sf_cache = [] }

abbrev names : List String
names = "soc_pct" ∷ "active_power_kw" ∷ []

up_stays : ensure_connected up true (pos 5000) joined ≡ (up, true)
unfolding ensure_connected
up_stays = refl

no_factors : ensure_sf client adapter names ≡ some adapter
unfolding ensure_sf
no_factors = refl

read_points-agrees_example :
    (plan : List (ReadBlock ℤ)) × (l : Link ℤ) × (out : Dict (PointValue ℤ)) × (plan_reads registers
        names 4
      ≡ some plan)
    × (read_points wire client adapter true (pos 5000) joined names (pos 9000)
        ≡ (record adapter { link = l; sf_cache = [] }, some out))
    × IsSound wire mem [] (pos 9000) registers client plan out
    × ((n : String) → is_some (lookup n out) ≡ listed n names)
unfolding decode words_to_int
read_points-agrees_example =
    read_points-agrees wire mem client adapter true (pos 5000) joined names (pos 9000) up []
      client-Serves registers-Apart registers-HasWords up_stays no_factors (refl, (refl, tt))

abbrev message : RegisterDef ℤ → ℤ → String
message reg value = "value out of range"

abbrev values : Dict ℤ
values = ("active_power_setpoint_kw", pos 50000) ∷ ("soc_pct", pos 1000) ∷ []

write_points-reports_example :
    (cache : List (ℕ × ℤ)) × (b : Adapter ℤ) × (report : WriteResult) × (ensure_sf client adapter
        ("active_power_setpoint_kw" ∷ "soc_pct" ∷ [])
      ≡ some (record adapter { sf_cache = cache }))
    × (write_points wire message client adapter true (pos 5000) joined values (pos 9000)
        ≡ (b, some report))
    × ((n : String) → lookup n values ≡ none → lookup n report.errors ≡ none)
    × ((n : String) (value : ℤ) (reg : RegisterDef ℤ)
        → lookup n values ≡ some value
        → lookup n registers ≡ some reg
        → IsExplained wire message client cache reg value (lookup n report.errors))
    × (report.ok ≡ is_empty report.errors)
    × (report.ok ≡ true
        → (b.link.health.connected ≡ true) × (b.link.health.consecutive_failures ≡ 0))
write_points-reports_example =
    write_points-reports wire message client adapter true (pos 5000) joined values (pos 9000) up
      (refl, (refl, tt)) up_stays (refl, (refl, tt))

unknown_raises_example :
    (listed "voltage" ("voltage" ∷ []) ≡ true
      → read_points wire client adapter true (pos 5000) joined ("voltage" ∷ []) (pos 9000)
        ≡ (adapter, none))
    × (listed "voltage" ("voltage" ∷ []) ≡ true
        → write_points wire message client adapter true
            (pos 5000)
            joined
            (("voltage", pos 0) ∷ [])
            (pos 9000)
          ≡ (adapter, none))
unknown_raises_example =
    unknown_raises wire message client adapter true (pos 5000) joined ("voltage" ∷ [])
      (("voltage", pos 0) ∷ []) (pos 9000) "voltage" up up_stays refl
