-- ===== src/Controller/Loop.antt =====
-- packages/controller/src/controller/control_loop.py: one control cycle. The snapshot, the clock and
-- the measured duration are arguments, and so is `write_control`: whether a call of it returns. A
-- cycle gives back the loop's new state and how far it came: nothing more if the droop correction
-- raises (`none`); else its commands as a result, the messages published, in order, the fields handed
-- to `write_control` if there is one, and whether that call returned, so that the caller gets the
-- result (`value_of`). A publish that raises is not modelled.
pub mod Inputs
pub mod Gate
pub mod Cycle
pub mod Publish
pub mod Tests
use edge_ems.Prelude.{
  Bool, true, false, Option, none, some, List, [], ◌∷◌, ◌++◌, String, if◌then◌else◌, ◌&&◌, or_else,
}
use edge_ems.Prelude.Dict.{Dict, lookup, insert}
use edge_ems.Float.{Float, ◌+◌, ◌-◌, eqb}
use edge_ems.Controller.Modes.{
  Mode, run, hold, safe, Reason, ModeDecision, ModeController, update, safe_battery_setpoint,
}
use edge_ems.Controller.Edge.{ControlInputs, EdgeController, step}
use edge_ems.Controller.Droop.{DroopController, is_enabled, correction}
use Inputs.{Snapshot, Assembled, assemble_inputs}

-- `Mode.value`, the reason and the numbers of one cycle
pub record CycleResult (F : Type 0) : Type 0 where
  pub mode : Mode
  pub mode_changed : Bool
  pub mode_reason : Reason F
  pub battery_setpoint_kw : F
  pub reactive_setpoint_kvar : F
  pub derate_factor : F
  pub curtail_factor : F
  pub pcc_error_kw : F
  pub pi_output_kw : F
  pub loop_duration_ms : F
  pub data_fresh : Bool
  pub battery_ok : Bool
  pub published : List String

-- the `control` measurement
pub record ControlFields (F : Type 0) : Type 0 where
  pub pcc_error_kw : F
  pub pi_output_kw : F
  pub derate_factor : F
  pub curtail_factor : F
  pub loop_duration_ms : F
  pub mode : Mode

-- one call of `publish`
pub record Message (F : Type 0) : Type 0 where
  pub asset_class : String
  pub setpoints : Dict F

pub record ControlLoop (F : Type 0) : Type 0 where
  pub edge : EdgeController F
  pub modes : ModeController F
  pub droop : Option (DroopController F)
  pub pcc_base_kw : F
  pub max_feed_kw : Option F
  pub pcc_setpoint_kw : F
  pub write_control : Option (ControlFields F → F → Bool)
  pub last_reactive : F
  pub last_pub : Dict F

-- what the three branches of `run_once` settle
pub record Command (F : Type 0) : Type 0 where
  pub battery_sp : F
  pub reactive_sp : F
  pub derate : F
  pub curtail : F
  pub pcc_error : F
  pub pi_output : F
  pub dur : F

pub record Outcome (F : Type 0) : Type 0 where
  pub result : CycleResult F
  pub messages : List (Message F)
  pub control : Option (ControlFields F)
  pub returned : Bool

module _ {F : Type 0} where
  -- what the caller gets: `none` where the cycle raises, before its publications or after
  abbrev pub value_of : Option (Outcome F) → Option (CycleResult F)
  value_of none = none
  value_of (some out) = if out.returned then some out.result else none

  -- the call of `write_control`, if there is one: its fields and whether it returns
  abbrev pub write :
      Option (ControlFields F → F → Bool) → ControlFields F → F → Option (ControlFields F) × Bool
  write none fields now = (none, true)
  write (some write_control) fields now = (some fields, write_control fields now)

  unfoldable pub control_measurement_fields : CycleResult F → ControlFields F
  control_measurement_fields r = record {
    pcc_error_kw = r.pcc_error_kw;
    pi_output_kw = r.pi_output_kw;
    derate_factor = r.derate_factor;
    curtail_factor = r.curtail_factor;
    loop_duration_ms = r.loop_duration_ms;
    mode = r.mode;
  }

module _ {F : Type 0} ⦃d : Float F⦄ where
  abbrev pub droop_correction : Option (DroopController F) → F → F → Option (F × F)
  droop_correction none freq volt = some (d.nought, d.nought)
  droop_correction (some c) freq volt =
      if is_enabled c
      then elim (correction c freq volt) [ none ↦ none | some r ↦ some (r.dp_kw, r.dq_kvar) ]
      else some (d.nought, d.nought)

  -- the RUN branch, with the correction at hand
  unfoldable pub run_command :
      ControlLoop F → ControlInputs F → F × F → F → EdgeController F × Command F
  run_command l inputs (dp, dq) dur_ms =
      let (edge, out) =
        step l.edge (record inputs { pcc_setpoint_kw = l.pcc_setpoint_kw + dp }) dur_ms in
      (
        edge,
        record {
          battery_sp = out.battery_setpoint_kw;
          reactive_sp = dq;
          derate = out.derate_factor;
          curtail = out.curtail_factor;
          pcc_error = out.pcc_error_kw;
          pi_output = out.pi_output_kw;
          dur = out.loop_duration_ms;
        },
      )

  unfoldable pub hold_command : ControlLoop F → ControlInputs F → Command F
  hold_command l inputs =
      let st = l.edge.state in
      record {
        battery_sp = st.last_battery_setpoint_kw;
        reactive_sp = l.last_reactive;
        derate = st.derate_factor;
        curtail = st.curtail_factor;
        pcc_error = inputs.pcc_setpoint_kw - inputs.pcc_meas_kw;
        pi_output = d.nought;
        dur = d.nought;
      }

  unfoldable pub safe_command : ControlLoop F → ControlInputs F → EdgeController F × Command F
  safe_command l inputs =
      let e = l.edge in
      let sp =
        safe_battery_setpoint e.state.last_battery_setpoint_kw e.params.slew_limit_kw_s
          e.params.update_period in
      (
        record e {
          state = record {
            integral = d.nought;
            last_battery_setpoint_kw = sp;
            derate_factor = d.one;
            curtail_factor = d.one;
          };
        },
        record {
          battery_sp = sp;
          reactive_sp = d.nought;
          derate = d.one;
          curtail = d.one;
          pcc_error = inputs.pcc_setpoint_kw - inputs.pcc_meas_kw;
          pi_output = d.nought;
          dur = d.nought;
        },
      )

  -- the branch on the mode; `none` where the droop correction raises
  unfoldable pub command :
      ControlLoop F → Mode → Assembled F → F → Option (EdgeController F × Command F)
  command l run a dur_ms = elim (droop_correction l.droop a.freq a.volt) [
    | none ↦ none
    | some corr ↦ some (run_command l a.inputs corr dur_ms)
  ]
  command l hold a dur_ms = some (l.edge, hold_command l a.inputs)
  command l safe a dur_ms = some (safe_command l a.inputs)

  abbrev pub publish_derate : Dict F → String → F → Dict F × List (Message F)
  publish_derate last_pub asset_class factor = (
    insert asset_class factor last_pub,
    record { asset_class = asset_class; setpoints = ("derate_factor_setpoint", factor) ∷ [] } ∷ [],
  )

  -- by what was published last
  abbrev pub publish_unless : Option F → Dict F → String → F → Dict F × List (Message F)
  publish_unless none last_pub asset_class factor = publish_derate last_pub asset_class factor
  publish_unless (some last) last_pub asset_class factor =
      if eqb last factor then (last_pub, []) else publish_derate last_pub asset_class factor

  -- `_publish_if_changed`: the last published derates, and the message if there is one
  unfoldable pub publish_if_changed : Dict F → String → F → Dict F × List (Message F)
  publish_if_changed last_pub asset_class factor =
      publish_unless (lookup asset_class last_pub) last_pub asset_class factor

  abbrev pub battery_message : Command F → Message F
  battery_message c = record {
    asset_class = "battery";
    setpoints =
        ("active_power_setpoint_kw", c.battery_sp)
        ∷ ("reactive_power_setpoint_kvar", c.reactive_sp)
        ∷ [];
  }

  abbrev pub classes : List (Message F) → List String
  classes [] = []
  classes (m ∷ ms) = m.asset_class ∷ classes ms

  -- from the command on: publish, remember, report
  unfoldable pub finish :
      ControlLoop F → ModeDecision F → Assembled F → Command F → F → ControlLoop F × Outcome F
  finish l decision a c now =
      let (pub1, pv) = publish_if_changed l.last_pub "pv" c.curtail in
      let (pub2, load) = publish_if_changed pub1 "flexible_load" c.derate in
      let messages = battery_message c ∷ (pv ++ load) in
      let result : CycleResult F = record {
        mode = decision.mode;
        mode_changed = decision.changed;
        mode_reason = decision.reason;
        battery_setpoint_kw = c.battery_sp;
        reactive_setpoint_kvar = c.reactive_sp;
        derate_factor = c.derate;
        curtail_factor = c.curtail;
        pcc_error_kw = c.pcc_error;
        pi_output_kw = c.pi_output;
        loop_duration_ms = c.dur;
        data_fresh = a.data_fresh;
        battery_ok = a.battery_ok;
        published = classes messages;
      } in
      let (control, returned) = write l.write_control (control_measurement_fields result) now in
      (
        record l { last_reactive = c.reactive_sp; last_pub = pub2 },
        record { result = result; messages = messages; control = control; returned = returned },
      )

  unfoldable pub run_once : ControlLoop F → Snapshot F → F → F → ControlLoop F × Option (Outcome F)
  run_once l snap now dur_ms =
      let a = assemble_inputs snap l.pcc_setpoint_kw l.max_feed_kw in
      let (modes, decision) = update l.modes a.data_fresh a.battery_ok now in
      let l' = record l { modes = modes } in
      elim (command l' decision.mode a dur_ms) [
        | none ↦ (l', none)
        | some (edge, c) ↦
            let (l'', out) = finish (record l' { edge = edge }) decision a c now in (l'', some out)
      ]
