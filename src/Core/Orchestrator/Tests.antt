-- ===== src/Core/Orchestrator/Tests.antt =====
-- A battery setpoint, a poll and a safety cycle, in thousandths.
use edge_ems.Prelude.{◌≡◌, refl, none, some, List, [], ◌∷◌}
use edge_ems.Prelude.Int.{ℤ, pos}
use edge_ems.Prelude.Dict.{Dict}
use edge_ems.Float.Milli.{milli}
use edge_ems.Common.Points.{PointValue, good}
use edge_ems.Common.DataModel.Tests.{model}
use edge_ems.Core.Dispatcher.{report, rejection, stale_seq}
use edge_ems.Core.Dispatcher.Tests.{
  dispatcher, numbered, show, parse_ts, devices, message, passes, limits,
}
use edge_ems.Core.Watchdog.Tests.{watchdog}
use edge_ems.Core.Orchestrator.{Orchestrator, battery_unit_limits, handle_setpoint}
use edge_ems.Core.Orchestrator.Feeding.{
  Event, polled, received, guarded, after, handle_setpoint-once,
}

abbrev bms : ℤ → Dict (PointValue ℤ)
bms kw =
    ("available_charge_power_kw", record { value = some kw; ts = pos 0; quality = good })
    ∷ ("available_discharge_power_kw", record { value = some kw; ts = pos 0; quality = good })
    ∷ []

abbrev orchestrator : Orchestrator ℤ
orchestrator = record {
  dm = model;
  site_id = "site-1";
  classes = ("bess-01", "battery") ∷ ("bess-02", "battery") ∷ ("pv-01", "pv") ∷ [];
  input_points = ("bess-01", "active_power_kw" ∷ []) ∷ [];
  weights = [];
  dispatcher = dispatcher;
  watchdog = watchdog;
  latest = ("bess-01", bms (pos 30000)) ∷ ("bess-02", bms (pos 10000)) ∷ [];
}

headrooms : battery_unit_limits orchestrator ≡ limits
unfolding battery_unit_limits
headrooms = refl

abbrev events : List (Event ℤ)
events =
    guarded (pos 1900)
    ∷ received (numbered (pos 6)) (pos 1800)
    ∷ polled (λ aid names. none) (pos 1650)
    ∷ polled (λ aid names. some []) (pos 1700)
    ∷ []

handle_setpoint-once_example :
    let o' =
      after show parse_ts devices
        (handle_setpoint show parse_ts devices orchestrator (numbered (pos 4)) (pos 1500)).0
        events in
    handle_setpoint show parse_ts devices o' (numbered (pos 4)) (pos 1950)
    ≡ (o', report (rejection stale_seq))
handle_setpoint-once_example =
    handle_setpoint-once show parse_ts devices orchestrator (numbered (pos 4)) (pos 1500) message
      passes events (pos 1950)
