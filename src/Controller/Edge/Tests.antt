-- ===== src/Controller/Edge/Tests.antt =====
-- The control law at concrete inputs, in thousandths.
use edge_ems.Prelude.{◌≡◌, refl, true, some, none, Option}
use edge_ems.Float.{◌≼◌, ◌+◌, ◌-◌, ◌*◌, ltb, neg}
use edge_ems.Prelude.Int.{ℤ, pos, negsuc}
use edge_ems.Float.Milli.{milli, milli-IsOrdered}
use edge_ems.Controller.Edge.{
  ControlParams, BatteryLimits, DerateLimits, ControlInputs, ControlState, compute, window, sat_eps,
  curtail_step, derate_target, frozen, clamp, slew, deadband, curtail,
}
use edge_ems.Controller.Edge.Window.{IsMagnitude, Respects, compute_window, compute_slew}
use edge_ems.Controller.Edge.Factors.{
  IsFloors, IsFactors, compute-IsFactors, curtail_step_direction,
}
use edge_ems.Controller.Edge.Windup.{compute_windup}

-- kW and % as thousandths
abbrev params : Option ℤ → ControlParams ℤ
params slew = record {
  kp = pos 500;
  ki = pos 100;
  update_period = pos 1000;
  slew_limit_kw_s = slew;
}

abbrev battery : BatteryLimits ℤ
battery = record {
  max_charge_kw = pos 100000;
  max_discharge_kw = pos 100000;
  min_soc_pct = pos 5000;
  max_soc_pct = pos 95000;
  min_warning_soc_pct = pos 20000;
  max_warning_soc_pct = pos 90000;
}

abbrev floors : DerateLimits ℤ
floors = record { load_min_derate = pos 200; pv_min_derate = pos 0 }

-- importing 40 kW at a state of charge
abbrev inputs : ℤ → ControlInputs ℤ
inputs soc = record {
  pcc_meas_kw = pos 40000;
  pcc_setpoint_kw = pos 0;
  soc_pct = soc;
  avail_charge_kw = pos 80000;
  avail_discharge_kw = pos 80000;
  pv_active_power_kw = negsuc 9999;
  max_feed_kw = some (pos 50000);
}

-- exporting 80 kW in the high-SoC band, PV at zero
abbrev exporting : ControlInputs ℤ
exporting = record {
  pcc_meas_kw = negsuc 79999;
  pcc_setpoint_kw = pos 0;
  soc_pct = pos 92000;
  avail_charge_kw = pos 0;
  avail_discharge_kw = pos 80000;
  pv_active_power_kw = pos 0;
  max_feed_kw = some (pos 50000);
}

abbrev state : ℤ → ℤ → ControlState ℤ
state last curtail = record {
  integral = pos 0;
  last_battery_setpoint_kw = last;
  derate_factor = pos 1000;
  curtail_factor = curtail;
}

abbrev magnitude : IsMagnitude (inputs (pos 50000)) battery
magnitude = record { charge = refl; discharge = refl; avail_charge = refl; avail_discharge = refl }

abbrev floors_ok : IsFloors floors
floors_ok = record { load_le = refl; pv_le = refl }

abbrev steady : ControlState ℤ
steady = state (pos 0) (pos 1000)

discharges :
    let out = compute (inputs (pos 50000)) (params none) battery floors steady in
    out.battery_setpoint_kw ≡ negsuc 23999
unfolding compute window frozen clamp slew deadband derate_target curtail curtail_step
discharges = refl

compute_window_example :
    let out = compute (inputs (pos 50000)) (params none) battery floors steady in
    Respects (inputs (pos 50000)) battery out.battery_setpoint_kw
compute_window_example =
    compute_window milli-IsOrdered (inputs (pos 50000)) (params none) battery floors steady refl
      magnitude

compute_slew_example :
    let out = compute (inputs (pos 50000)) (params (some (pos 20000))) battery floors steady in
    let sp = out.battery_setpoint_kw in
    (pos 0 - pos 20000 * pos 1000 ≼ sp)
    × (sp ≼ pos 0 + pos 20000 * pos 1000)
    × ((window (inputs (pos 50000)) battery).0 ≼ pos 0
        → pos 0 ≼ (window (inputs (pos 50000)) battery).1
        → Respects (inputs (pos 50000)) battery sp)
compute_slew_example =
    compute_slew milli-IsOrdered (inputs (pos 50000)) (params (some (pos 20000))) battery floors
      steady (pos 20000) refl refl magnitude

-- At the minimum state of charge the slew limiter lets a discharge of 90 kW go on at 70 kW.
gate_overridden :
    let out =
      compute
        (inputs (pos 5000))
        (params (some (pos 20000)))
        battery
        floors
        (state (negsuc 89999) (pos 1000)) in
    out.battery_setpoint_kw ≡ negsuc 69999
unfolding compute window frozen clamp slew deadband derate_target curtail curtail_step
gate_overridden = refl

compute-IsFactors_example :
    IsFactors floors (compute (inputs (pos 8000)) (params none) battery floors steady).state
compute-IsFactors_example =
    compute-IsFactors milli-IsOrdered (inputs (pos 8000)) (params none) battery floors steady
      floors_ok
      (record { derate_floor = refl; derate_top = refl; curtail_floor = refl; curtail_top = refl })

curtail_step_direction_example :
    let i : ControlInputs ℤ = inputs (pos 92000) in
    let next = curtail_step i (pos 50000) floors (pos 600) in
    (pos 0 ≼ neg i.pcc_meas_kw - pos 50000 → next ≼ pos 600)
    × (neg i.pcc_meas_kw - pos 50000 ≼ pos 0 → pos 600 ≼ next)
curtail_step_direction_example =
    curtail_step_direction milli-IsOrdered (inputs (pos 92000)) (pos 50000) floors (pos 600) refl
      refl refl

-- A fully curtailed plant that produces nothing is released at once, whatever the export.
restarts :
    (compute exporting (params none) battery floors (state (pos 0) (pos 0))).curtail_factor
    ≡ pos 1000
unfolding compute window frozen clamp slew deadband derate_target curtail curtail_step
restarts = refl

compute_windup_example :
    let i : ControlInputs ℤ = exporting in
    let out = compute i (params none) battery floors steady in
    (ltb ((window i battery).1 + sat_eps) out.pi_output_kw ≡ true → out.state.integral ≼ pos 0)
    × (ltb out.pi_output_kw ((window i battery).0 - sat_eps) ≡ true → pos 0 ≼ out.state.integral)
compute_windup_example =
    compute_windup milli-IsOrdered exporting (params none) battery floors steady refl
