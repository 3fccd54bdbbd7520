-- ===== src/Controller/Edge.antt =====
-- packages/controller/src/controller/edge_controller.py: the pure control law of one cycle, and the
-- wrapper that keeps its state. The timer's value enters `step` as an argument.
pub mod Window
pub mod Factors
pub mod Windup
pub mod Tests
use edge_ems.Prelude.{Bool, true, false, ◌&&◌, Option, none, some, if◌then◌else◌}
use edge_ems.Float.{Float, ◌+◌, ◌-◌, ◌*◌, ◌/◌, neg, leb, ltb, min, max, abs}

pub record ControlParams (F : Type 0) : Type 0 where
  pub kp : F
  pub ki : F
  pub update_period : F
  pub slew_limit_kw_s : Option F

pub record BatteryLimits (F : Type 0) : Type 0 where
  pub max_charge_kw : F
  pub max_discharge_kw : F
  pub min_soc_pct : F
  pub max_soc_pct : F
  pub min_warning_soc_pct : F
  pub max_warning_soc_pct : F

pub record DerateLimits (F : Type 0) : Type 0 where
  pub load_min_derate : F
  pub pv_min_derate : F

pub record ControlInputs (F : Type 0) : Type 0 where
  pub pcc_meas_kw : F
  pub pcc_setpoint_kw : F
  pub soc_pct : F
  pub avail_charge_kw : F
  pub avail_discharge_kw : F
  pub pv_active_power_kw : F
  pub max_feed_kw : Option F

pub record ControlState (F : Type 0) : Type 0 where
  pub integral : F
  pub last_battery_setpoint_kw : F
  pub derate_factor : F
  pub curtail_factor : F

pub record ControlOutput (F : Type 0) : Type 0 where
  pub battery_setpoint_kw : F
  pub derate_factor : F
  pub curtail_factor : F
  pub pcc_error_kw : F
  pub pi_output_kw : F
  pub battery_saturated : Bool
  pub integrator_frozen : Bool
  pub loop_duration_ms : F
  pub state : ControlState F

module _ {F : Type 0} ⦃d : Float F⦄ where
  abbrev pub derate_deadband : F
  derate_deadband = d.dec 1 2

  abbrev pub curtail_gain : F
  curtail_gain = d.dec 5 1

  abbrev pub sat_eps : F
  sat_eps = d.dec 1 9

  -- `ControlState()`
  abbrev pub initial_state : ControlState F
  initial_state = record {
    integral = d.nought;
    last_battery_setpoint_kw = d.nought;
    derate_factor = d.one;
    curtail_factor = d.one;
  }

  unfoldable pub clamp : F → F → F → F
  clamp x lo hi = if ltb x lo then lo else if ltb hi x then hi else x

  unfoldable pub deadband : F → F → F
  deadband new last = if ltb (abs (new - last)) derate_deadband then last else new

  -- t5: the signed setpoint window (lower, upper)
  unfoldable pub window : ControlInputs F → BatteryLimits F → F × F
  window inputs battery =
      let upper0 = min battery.max_charge_kw inputs.avail_charge_kw in
      let lower0 = neg (min battery.max_discharge_kw inputs.avail_discharge_kw) in
      let lower = if leb inputs.soc_pct battery.min_soc_pct then max lower0 d.nought else lower0 in
      let upper = if leb battery.max_soc_pct inputs.soc_pct then min upper0 d.nought else upper0 in
      if ltb upper lower then (d.nought, d.nought) else (lower, upper)

  -- the anti-windup test: saturated, and the error pushes further into the limit
  unfoldable pub frozen : F → F → F → F → Bool
  frozen pi lower upper error =
      if ltb (upper + sat_eps) pi && ltb d.nought error
      then true
      else ltb pi (lower - sat_eps) && ltb error d.nought

  -- t5, continued: the slew limiter
  unfoldable pub slew : Option F → F → F → F → F
  slew none dt prev clamped = clamped
  slew (some limit) dt prev clamped =
      let max_step = limit * dt in clamp clamped (prev - max_step) (prev + max_step)

  -- t6: low-SoC derate of the flexible load, before the deadband
  unfoldable pub derate_target : ControlInputs F → BatteryLimits F → DerateLimits F → F
  derate_target inputs battery derate =
      if ltb d.nought battery.min_warning_soc_pct && ltb inputs.soc_pct battery.min_warning_soc_pct
      then (let span = battery.min_warning_soc_pct - battery.min_soc_pct in
          let ramp =
            if ltb d.nought span then (inputs.soc_pct - battery.min_soc_pct) / span else d.nought in
          clamp ramp derate.load_min_derate d.one)
      else d.one

  -- t7: one step of the export regulator inside the high-SoC band
  unfoldable pub curtail_step : ControlInputs F → F → DerateLimits F → F → F
  curtail_step inputs max_feed derate factor =
      let export = neg inputs.pcc_meas_kw in
      let feed_error = export - max_feed in
      let pv_gen = abs inputs.pv_active_power_kw in
      let prev = if ltb d.nought factor then factor else d.one in
      if ltb d.nought pv_gen
      then clamp (prev - curtail_gain * feed_error * prev / pv_gen) derate.pv_min_derate d.one
      else clamp prev derate.pv_min_derate d.one

  unfoldable pub curtail : ControlInputs F → Option F → BatteryLimits F → DerateLimits F → F → F
  curtail inputs none battery derate factor = d.one
  curtail inputs (some max_feed) battery derate factor =
      if ltb d.nought battery.max_warning_soc_pct && leb battery.max_warning_soc_pct inputs.soc_pct
      then curtail_step inputs max_feed derate factor
      else d.one

  unfoldable pub compute :
      ControlInputs F
      → ControlParams F
      → BatteryLimits F
      → DerateLimits F
      → ControlState F
      → ControlOutput F
  compute inputs params battery derate state =
      let dt = params.update_period in
      let error = inputs.pcc_setpoint_kw - inputs.pcc_meas_kw in
      let cand_integral = state.integral + error * dt in
      let pi = params.kp * error + params.ki * cand_integral in
      let (lower, upper) = window inputs battery in
      let stop = frozen pi lower upper error in
      let integral = if stop then state.integral else cand_integral in
      let pi_output = if stop then params.kp * error + params.ki * state.integral else pi in
      let clamped = clamp pi_output lower upper in
      let setpoint = slew params.slew_limit_kw_s dt state.last_battery_setpoint_kw clamped in
      let derate_factor = deadband (derate_target inputs battery derate) state.derate_factor in
      let curtail_factor = curtail inputs inputs.max_feed_kw battery derate state.curtail_factor in
      record {
        battery_setpoint_kw = setpoint;
        derate_factor = derate_factor;
        curtail_factor = curtail_factor;
        pcc_error_kw = error;
        pi_output_kw = pi_output;
        battery_saturated = ltb sat_eps (abs (clamped - pi_output));
        integrator_frozen = stop;
        loop_duration_ms = d.nought;
        state = record {
          integral = integral;
          last_battery_setpoint_kw = setpoint;
          derate_factor = derate_factor;
          curtail_factor = curtail_factor;
        };
      }

-- `class EdgeController`
pub record EdgeController (F : Type 0) : Type 0 where
  pub params : ControlParams F
  pub battery : BatteryLimits F
  pub derate : DerateLimits F
  pub state : ControlState F

module _ {F : Type 0} ⦃d : Float F⦄ where
  -- `dur_ms` is what the performance counter measured.
  unfoldable pub step : EdgeController F → ControlInputs F → F → EdgeController F × ControlOutput F
  step e inputs dur_ms =
      let out = compute inputs e.params e.battery e.derate e.state in
      (record e { state = out.state }, record out { loop_duration_ms = dur_ms })
