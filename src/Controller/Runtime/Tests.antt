-- ===== src/Controller/Runtime/Tests.antt =====
-- A runner over some rounds, in thousandths.
use edge_ems.Prelude.{◌≡◌, refl, none, some, List, [], ◌∷◌, Option, suc}
use Prim.Native.Nat.{◌<◌, ◌+◌}
use edge_ems.Prelude.Int.{ℤ, pos}
use edge_ems.Float.{◌≼◌}
use edge_ems.Float.Milli.{milli, milli-IsOrdered}
use edge_ems.Controller.Loop.Inputs.{Snapshot}
use edge_ems.Controller.Loop.Tests.{loop, site}
use edge_ems.Controller.Runtime.{
  LoopRunner, new, status, tick, start, schedule, cycle, set_pcc_setpoint_kw,
}
use edge_ems.Controller.Runtime.Target.{
  Call, started, targeted, ticked, after, newest_target, count_ticks, status-after,
}

abbrev runner : LoopRunner ℤ
runner = new loop (pos 1000)

-- The second round ends late; the target changes in between.
abbrev history : List (Call ℤ)
history =
    ticked none (pos 9000) (pos 5) (pos 9700) (pos 9800)
    ∷ targeted (pos 7000)
    ∷ ticked (some (site (pos 230000))) (pos 8000) (pos 5) (pos 8100) (pos 8200)
    ∷ started (pos 7500)
    ∷ []

one_overrun : ((after runner history).overruns ≡ 1) × ((after runner history).next_tick ≡ pos 9800)
unfolding after new start tick schedule cycle set_pcc_setpoint_kw
one_overrun = (refl, refl)

status-after_example :
    let s = status (after runner history) in
    (s.pcc_setpoint_kw ≡ newest_target runner.loop.pcc_setpoint_kw history)
    × (s.overruns < suc (runner.overruns + count_ticks history))
    × ((snap : Option (Snapshot ℤ)) (now dur_ms clock resync : ℤ)
        → pos 0 ≼ (tick (after runner history) snap now dur_ms clock resync).1)
    × ((now dur_ms clock resync : ℤ)
        → (status (tick (after runner history) none now dur_ms clock resync).0).cycle ≡ s.cycle)
status-after_example = status-after milli-IsOrdered runner history
