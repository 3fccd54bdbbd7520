-- ===== src/Controller/Loop/Cycle.antt =====
-- What one cycle does to the commands, across RUN, HOLD and SAFE.
use edge_ems.Prelude.{◌≡◌, refl, inl, inr, Option, Option-cases, none, some}
use edge_ems.Float.{Float, IsOrdered, ◌≼◌, ◌+◌, ◌-◌, ◌*◌}
use edge_ems.Float.Order.{le_refl}
use edge_ems.Controller.Modes.{Mode, run, hold, safe, update}
use edge_ems.Controller.Modes.Ramp.{ramp_step}
use edge_ems.Controller.Edge.{ControlInputs, EdgeController, step}
use edge_ems.Controller.Edge.Window.{compute_step}
use edge_ems.Controller.Edge.Factors.{IsFactors, IsFloors, compute-IsFactors, compute_state}
use edge_ems.Controller.Loop.{
  ControlLoop, Command, Outcome, command, run_command, hold_command, safe_command, finish, run_once,
  droop_correction,
}
use edge_ems.Controller.Loop.Inputs.{Snapshot, Assembled, assemble_inputs}

-- A slew limit is configured, its step is not negative, and the factors lie in their ranges.
pub record IsSteady {F : Type 0} ⦃d : Float F⦄ (limit : F) (e : EdgeController F) : Type 0 where
  pub slew : e.params.slew_limit_kw_s ≡ some limit
  pub step_nonneg : d.nought ≼ limit * e.params.update_period
  pub floors : IsFloors e.derate
  pub factors : IsFactors e.derate e.state

module _ {F : Type 0} ⦃d : Float F⦄ where
  abbrev pub last_setpoint : EdgeController F → F
  last_setpoint e = e.state.last_battery_setpoint_kw

  -- From `e` to `e'` with three commands: at most one step of the battery setpoint, which the new
  -- state records with both factors.
  pub record IsSmooth (limit : F) (e e' : EdgeController F) (sp derate curtail : F) : Type 0 where
    pub not_below : last_setpoint e - limit * e.params.update_period ≼ sp
    pub not_above : sp ≼ last_setpoint e + limit * e.params.update_period
    pub recorded : last_setpoint e' ≡ sp
    pub derate_recorded : e'.state.derate_factor ≡ derate
    pub curtail_recorded : e'.state.curtail_factor ≡ curtail
    pub same_params : e'.params ≡ e.params
    pub same_derate : e'.derate ≡ e.derate

  abbrev FollowsCommand : F → EdgeController F → EdgeController F → Command F → Type 0
  FollowsCommand limit e e' c = IsSmooth limit e e' c.battery_sp c.derate c.curtail

  -- A cycle that gives no command leaves the control core alone; any other settles what it commands.
  abbrev pub Reports : F → EdgeController F → EdgeController F → Option (Outcome F) → Type 0
  Reports limit e e' none = e' ≡ e
  Reports limit e e' (some out) =
      IsSmooth limit e e' out.result.battery_setpoint_kw out.result.derate_factor
        out.result.curtail_factor

module _ {F : Type 0} ⦃d : Float F⦄ (laws : IsOrdered F) where
  open laws use {le_trans, sub-le, le-add}

  run_command-smooth :
      (limit : F) (l : ControlLoop F) (i : ControlInputs F) (corr : F × F) (dur : F)
      → IsSteady limit l.edge
      → let r = run_command l i corr dur in FollowsCommand limit l.edge r.0 r.1 × IsSteady limit r.0
  unfolding run_command step
  run_command-smooth limit l i (dp, dq) dur v =
      let i' : ControlInputs F = record i { pcc_setpoint_kw = l.pcc_setpoint_kw + dp } in
      let e = l.edge in
      let recorded = compute_state laws i' e.params e.battery e.derate e.state in
      let moved =
        compute_step laws i' e.params e.battery e.derate e.state limit v.slew v.step_nonneg in
      (
        record {
          not_below = moved.0;
          not_above = moved.1;
          recorded = recorded.0;
          derate_recorded = recorded.1;
          curtail_recorded = recorded.2;
          same_params = refl;
          same_derate = refl;
        },
        record {
          slew = v.slew;
          step_nonneg = v.step_nonneg;
          floors = v.floors;
          factors =
              compute-IsFactors laws i' e.params e.battery e.derate e.state v.floors v.factors;
        },
      )

  hold_command-smooth :
      (limit : F) (l : ControlLoop F) (i : ControlInputs F)
      → IsSteady limit l.edge
      → FollowsCommand limit l.edge l.edge (hold_command l i)
  unfolding hold_command
  hold_command-smooth limit l i v = record {
    not_below = sub-le _ _ v.step_nonneg;
    not_above = le-add _ _ v.step_nonneg;
    recorded = refl;
    derate_recorded = refl;
    curtail_recorded = refl;
    same_params = refl;
    same_derate = refl;
  }

  safe_command-smooth :
      (limit : F) (l : ControlLoop F) (i : ControlInputs F)
      → IsSteady limit l.edge
      → let r = safe_command l i in FollowsCommand limit l.edge r.0 r.1 × IsSteady limit r.0
  unfolding safe_command
  safe_command-smooth limit l i v =
      let ramp =
        ramp_step laws (last_setpoint l.edge) limit l.edge.params.update_period v.step_nonneg in
      (
        record {
          not_below = rw v.slew ramp.0;
          not_above = rw v.slew ramp.1;
          recorded = refl;
          derate_recorded = refl;
          curtail_recorded = refl;
          same_params = refl;
          same_derate = refl;
        },
        record {
          slew = v.slew;
          step_nonneg = v.step_nonneg;
          floors = v.floors;
          factors = record {
            derate_floor = v.floors.load_le;
            derate_top = le_refl laws d.one;
            curtail_floor = v.floors.pv_le;
            curtail_top = le_refl laws d.one;
          };
        },
      )

  -- the command of any branch
  abbrev FollowsAny : F → ControlLoop F → Option (EdgeController F × Command F) → Type 0
  FollowsAny limit l none = Unit
  FollowsAny limit l (some (e, c)) = FollowsCommand limit l.edge e c × IsSteady limit e

  command-smooth :
      (limit : F) (l : ControlLoop F) (m : Mode) (a : Assembled F) (dur : F)
      → IsSteady limit l.edge
      → FollowsAny limit l (command l m a dur)
  unfolding command
  command-smooth limit l run a dur v =
      elim (Option-cases (droop_correction l.droop a.freq a.volt)) [
        | inl e ↦ rw (e, command) tt
        | inr (corr, e) ↦ rw (e, command) (run_command-smooth limit l a.inputs corr dur v)
      ]
  command-smooth limit l hold a dur v = (hold_command-smooth limit l a.inputs v, v)
  command-smooth limit l safe a dur v = safe_command-smooth limit l a.inputs v

  -- With a slew limit, in every mode and across every change of mode: a cycle moves the battery
  -- setpoint by at most one step from the last command, the state of the core records the setpoint
  -- and the factors that the cycle commands, and both factors stay in their ranges, also when the
  -- cycle raises at the end because `write_control` does. A cycle whose droop correction raises gives
  -- no command and leaves the core as it was.
  pub run_once-smooth :
      (limit : F) (l : ControlLoop F) (snap : Snapshot F) (now dur : F)
      → IsSteady limit l.edge
      → let (l', out) = run_once l snap now dur in
        IsSteady limit l'.edge × Reports limit l.edge l'.edge out
  unfolding run_once finish
  run_once-smooth limit l snap now dur v =
      let a = assemble_inputs snap l.pcc_setpoint_kw l.max_feed_kw in
      let (modes, decision) = update l.modes a.data_fresh a.battery_ok now in
      let l1 : ControlLoop F = record l { modes = modes } in
      let followed = command-smooth limit l1 decision.mode a dur v in
      elim (Option-cases (command l1 decision.mode a dur)) [
        | inl e ↦ rw (e, run_once) (v, refl)
        | inr (r, e) ↦ let both = rw e at followed in rw (e, run_once) (both.1, both.0)
      ]
