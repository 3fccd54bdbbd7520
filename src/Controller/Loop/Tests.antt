-- ===== src/Controller/Loop/Tests.antt =====
-- One cycle of the loop at concrete snapshots, in thousandths.
use edge_ems.Prelude.{◌≡◌, refl, ◌↔◌, true, some, none, [], ◌∷◌}
use edge_ems.Prelude.Int.{ℤ, pos, negsuc}
use edge_ems.Float.Milli.{milli, milli-IsOrdered}
use edge_ems.Common.Points.{PointValue, good}
use edge_ems.Controller.Modes.{run, hold, update}
use edge_ems.Controller.Edge.{EdgeController}
use edge_ems.Controller.Loop.{ControlLoop, run_once, command, finish}
use edge_ems.Controller.Loop.Inputs.{Snapshot, assemble_inputs, battery_available, pcc_plausible}
use edge_ems.Controller.Loop.Gate.{IsPlausible, run_once-run}
use edge_ems.Controller.Loop.Cycle.{IsSteady, Reports, run_once-smooth}
use edge_ems.Controller.Loop.Publish.{Announces, run_once-Announces}

abbrev point : ℤ → PointValue ℤ
point v = record { value = some v; ts = pos 0; quality = good }

-- A site at 50 Hz importing 40 kW, at a PCC voltage.
abbrev pub site : ℤ → Snapshot ℤ
site volt = record {
  aggregates =
      (
        "battery",
        ("soc_pct", point (pos 50000))
            ∷ ("available_charge_power_kw", point (pos 80000))
            ∷ ("available_discharge_power_kw", point (pos 80000))
            ∷ [],
      )
      ∷ [];
  pcc =
      ("active_power_kw", point (pos 40000))
      ∷ ("voltage_v", point volt)
      ∷ ("frequency_hz", point (pos 50000))
      ∷ [];
}

abbrev edge : EdgeController ℤ
edge = record {
  params = record {
    kp = pos 500;
    ki = pos 100;
    update_period = pos 1000;
    slew_limit_kw_s = some (pos 20000);
  };
  battery = record {
    max_charge_kw = pos 100000;
    max_discharge_kw = pos 100000;
    min_soc_pct = pos 5000;
    max_soc_pct = pos 95000;
    min_warning_soc_pct = pos 20000;
    max_warning_soc_pct = pos 90000;
  };
  derate = record { load_min_derate = pos 200; pv_min_derate = pos 0 };
  state = record {
    integral = pos 0;
    last_battery_setpoint_kw = negsuc 49999;
    derate_factor = pos 1000;
    curtail_factor = pos 1000;
  };
}

abbrev pub loop : ControlLoop ℤ
loop = record {
  edge = edge;
  modes = record { hold_max_s = pos 10000; mode = run; hold_since = none };
  droop = none;
  pcc_base_kw = pos 2000000;
  max_feed_kw = some (pos 999000);
  pcc_setpoint_kw = pos 0;
  write_control = some (λ fields now. true);
  last_reactive = pos 0;
  last_pub = ("pv", pos 1000) ∷ [];
}

abbrev steady : IsSteady (pos 20000) edge
steady = record {
  slew = refl;
  step_nonneg = refl;
  floors = record { load_le = refl; pv_le = refl };
  factors = record {
    derate_floor = refl;
    derate_top = refl;
    curtail_floor = refl;
    curtail_top = refl;
  };
}

-- A collapsed grid makes the loop hold.
islanded_holds : (run_once loop (site (pos 0)) (pos 7000) (pos 0)).0.modes.mode ≡ hold
unfolding run_once assemble_inputs battery_available pcc_plausible update command finish
islanded_holds = refl

run_once-run_example :
    ((run_once loop (site (pos 230000)) (pos 7000) (pos 0)).0.modes.mode ≡ run)
    ↔ IsPlausible (site (pos 230000))
run_once-run_example = run_once-run loop (site (pos 230000)) (pos 7000) (pos 0)

run_once-smooth_example :
    let r = run_once loop (site (pos 230000)) (pos 7000) (pos 0) in
    IsSteady (pos 20000) r.0.edge × Reports (pos 20000) edge r.0.edge r.1
run_once-smooth_example =
    run_once-smooth milli-IsOrdered (pos 20000) loop (site (pos 230000)) (pos 7000) (pos 0) steady

run_once-Announces_example :
    let r = run_once loop (site (pos 230000)) (pos 7000) (pos 0) in Announces loop r.0 r.1
run_once-Announces_example =
    run_once-Announces milli-IsOrdered loop (site (pos 230000)) (pos 7000) (pos 0)
