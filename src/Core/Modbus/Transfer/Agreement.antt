-- ===== src/Core/Modbus/Transfer/Agreement.antt =====
-- A read of the adapter agrees with a read of each point alone.
use edge_ems.Prelude.{◌≡◌, refl, Bool, true, some, List, ℕ, String, All, is_some, listed}
use edge_ems.Prelude.Int.{ℤ}
use edge_ems.Prelude.Dict.{Dict, lookup}
use edge_ems.Float.{Float}
use edge_ems.Common.Points.{PointValue}
use edge_ems.Common.RegisterMap.Disjoint.{Apart}
use edge_ems.Common.ModbusCodec.{Wire}
use edge_ems.Core.Modbus.Link.{Link, Attempt, ensure_connected}
use edge_ems.Core.Modbus.Plan.{ReadBlock, plan_reads}
use edge_ems.Core.Modbus.Plan.Items.{HasWords}
use edge_ems.Core.Modbus.Transfer.{Client, Adapter, ensure_sf, read_connected, read_points}
use edge_ems.Core.Modbus.Transfer.Blocks.{Serves, IsSound}
use edge_ems.Core.Modbus.Transfer.Reading.{IsReadableName, plan-image}

module _ {F : Type 0} ⦃d : Float F⦄ where
  -- Take a device whose every request is answered from one image of its registers or fails, a map
  -- whose registers do not overlap and have a word at least, a link that is up, and requested names
  -- that are in the map and whose registers decode. Then the read returns, and its answer has the
  -- requested names and no other; each point is the one that a request of its own register alone
  -- gives, GOOD and with the value of its own words, unless it is marked as failed, which happens only
  -- when the request of a block of the plan that holds this point fails.
  pub read_points-agrees :
      (wire : Wire F) (mem : ℕ → ℕ) (client : Client) (a : Adapter F) (alive : Bool) (now : F)
      (attempt : Attempt) (names : List String) (ts : F) (l : Link F) (cache : List (ℕ × ℤ))
      → Serves mem client
      → Apart a.points
      → HasWords a.points
      → ensure_connected a.link alive now attempt ≡ (l, true)
      → ensure_sf client (record a { link = l }) names
        ≡ some (record a { link = l; sf_cache = cache })
      → All (IsReadableName wire mem cache ts a.points client) names
      → (plan : List (ReadBlock F)) × (l' : Link F) × (out : Dict (PointValue F)) × (plan_reads
            a.points names a.max_gap
          ≡ some plan)
        × (read_points wire client a alive now attempt names ts
            ≡ (record a { link = l'; sf_cache = cache }, some out))
        × IsSound wire mem cache ts a.points client plan out
        × ((n : String) → is_some (lookup n out) ≡ listed n names)
  unfolding read_points read_connected
  read_points-agrees wire mem client a alive now attempt names ts l cache serves apart words up sf
        readable =
      let (blocks, l', out, planned, run, sound, present) =
        plan-image wire mem cache ts a.points client names a.max_gap l serves apart words
          readable in
      (
        blocks,
        l',
        out,
        planned,
        rw (up, read_points, sf, read_connected, planned, run) refl,
        sound,
        present,
      )
