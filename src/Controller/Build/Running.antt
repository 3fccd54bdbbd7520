-- ===== src/Controller/Build/Running.antt =====
-- A configuration that passed its checks gives a loop, and each cycle of the loop ends in a command.
use edge_ems.Prelude.{
  ◌≡◌, refl, sym, ◌∙◌, inl, inr, Bool-cases, Bool, true, false, Option, Option-cases, none, some,
  List, [], ◌∷◌, arith, length, is_some, list_cases, subst, ◌>>=◌,
}
use edge_ems.Prelude.Dict.{lookup}
use edge_ems.Float as Float
use edge_ems.Float.{Float}
use edge_ems.Common.DataModel.{DataModel}
use edge_ems.Common.Config.{
  AssetEntry, AssetConfigFile, active, has_battery, check_controller_requirements,
}
use edge_ems.Common.Config.Ems.{
  EdgeEmsConfigFile, EmsError, droop_is_valid, fields_are_valid, validate_edge_ems_config,
}
use edge_ems.Controller.Modes as Modes
use edge_ems.Controller.Modes.{Mode, run, hold, safe, update}
use edge_ems.Controller.Edge.{EdgeController}
use edge_ems.Controller.Droop.{DroopController}
use edge_ems.Controller.Loop.{
  ControlLoop, ControlFields, CycleResult, Outcome, Command, command, finish, run_once, value_of,
  write, control_measurement_fields,
}
use edge_ems.Controller.Loop.Inputs.{Snapshot, Assembled, assemble_inputs}
use edge_ems.Controller.Build.{
  limits_from, battery_limits_from_config, pcc_params_from_config, droop_from, loop_of,
  build_control_loop,
}
use edge_ems.Controller.Build.Ready.{HasCurves, droop_new, droop_correction_total}

module _ {F : Type 0} ⦃d : Float F⦄ where
  command_total :
      (l : ControlLoop F) (mode : Mode) (a : Assembled F) (dur : F)
      → HasCurves l.droop
      → (r : EdgeController F × Command F) × (command l mode a dur ≡ some r)
  unfolding command
  command_total l run a dur h =
      let (corr, e) = droop_correction_total l.droop a.freq a.volt h in
      elim (Option-cases (command l run a dur)) [
        | inl raised ↦ absurd (ground arith)
        | inr found ↦ found
      ]
  command_total l hold a dur h = (_, refl)
  command_total l safe a dur h = (_, refl)

  pub run_once_total :
      (l : ControlLoop F) (snap : Snapshot F) (now dur : F)
      → HasCurves l.droop
      → (l' : ControlLoop F) × (out : Outcome F) × (run_once l snap now dur ≡ (l', some out))
        × (l'.droop ≡ l.droop)
        × (out.returned ≡ (write l.write_control (control_measurement_fields out.result) now).1)
        × (l'.write_control ≡ l.write_control)
  unfolding run_once finish
  run_once_total l snap now dur h =
      let a = assemble_inputs snap l.pcc_setpoint_kw l.max_feed_kw in
      let (modes, decision) = update l.modes a.data_fresh a.battery_ok now in
      let ready = record l { modes = modes } in
      let ((edge, c), e) = command_total ready decision.mode a dur h in
      let (l', out) = finish (record ready { edge = edge }) decision a c now in
      (l', out, rw (e, run_once) refl, refl, refl, refl)

  -- A call of `write_control`, if there is one, returns.
  abbrev pub CanWrite : Option (ControlFields F → F → Bool) → Type 0
  CanWrite w = (fields : ControlFields F) (now : F) → (write w fields now).1 ≡ true

  -- one result per cycle; `none` if a cycle raises
  abbrev pub cycles : ControlLoop F → List (Snapshot F × F × F) → Option (List (CycleResult F))
  cycles l [] = some []
  cycles l ((snap, now, dur) ∷ rest) =
      let (l', out) = run_once l snap now dur in
      do first ← value_of out; others ← cycles l' rest; some (first ∷ others)

  cycles_total :
      (l : ControlLoop F) (inputs : List (Snapshot F × F × F))
      → HasCurves l.droop
      → CanWrite l.write_control
      → (outs : List (CycleResult F)) × (cycles l inputs ≡ some outs)
        × (length outs ≡ length inputs)
  cycles_total l [] h w = ([], refl, refl)
  cycles_total l ((snap, now, dur) ∷ rest) h w =
      let (l', out, e, same, wrote, writer) = run_once_total l snap now dur h in
      let back = wrote ∙ w (control_measurement_fields out.result) now in
      let (outs, es, n) =
        cycles_total l' rest (subst HasCurves (sym same) h) (subst CanWrite (sym writer) w) in
      (out.result ∷ outs, rw (e, back, cycles, es) refl, omega (arith, n))

  battery_limits_total :
      (ac : AssetConfigFile F)
      → has_battery ac ≡ true
      → (a : AssetEntry F) × (assets : List (AssetEntry F)) × (active "battery" ac.assets
          ≡ a ∷ assets)
        × (battery_limits_from_config ac ≡ some (limits_from a assets))
  unfolding battery_limits_from_config has_battery
  battery_limits_total ac h = elim (list_cases (active "battery" ac.assets)) [
    | inl e ↦ absurd (ground arith)
    | inr (a, assets, e) ↦ (a, assets, e, rw (e, battery_limits_from_config) refl)
  ]

  requirements :
      (ac : AssetConfigFile F) → check_controller_requirements ac ≡ [] → has_battery ac ≡ true
  unfolding check_controller_requirements
  requirements ac e = ground arith

  -- The settings that the validators accept hold a time that is not negative.
  accepted :
      (dm : DataModel) (ec : EdgeEmsConfigFile F) (errors : List EmsError)
      → validate_edge_ems_config dm ec ≡ some errors
      → (droop_is_valid ec.droop ≡ true) × (Float.leb d.nought ec.controller.hold_max_s ≡ true)
  unfolding validate_edge_ems_config
  accepted dm ec errors e = elim (Bool-cases (fields_are_valid ec)) [
    | inl ok ↦ (ground arith, ground arith)
    | inr bad ↦ absurd (ground arith)
  ]

  droop_from_total :
      (ec : EdgeEmsConfigFile F) (base : F)
      → droop_is_valid ec.droop ≡ true
      → Float.leb base d.nought ≡ false
      → (droop : Option (DroopController F)) × (droop_from ec base ≡ some droop) × HasCurves droop
  droop_from_total ec base valid positive =
      let (made, checked) = droop_new ec.droop base valid positive in
      elim (Bool-cases ec.droop.enabled) [
        | inl on ↦ (some (record { cfg = ec.droop; base = base }), rw (made, on) refl, checked)
        | inr off ↦ (none, rw off refl, tt)
      ]

  modes_new :
      (hold_max : F) → Float.leb d.nought hold_max ≡ true → is_some (Modes.new hold_max run) ≡ true
  unfolding Modes.new
  modes_new hold_max h = ground arith

  -- The active PCC gives its maximal supply power.
  pcc_params :
      (ac : AssetConfigFile F) (pcc : AssetEntry F) (more : List (AssetEntry F)) (base : F)
      → active "pcc" ac.assets ≡ pcc ∷ more
      → lookup "max_supply_power_kva" pcc.limits ≡ some base
      → Float.leb base d.nought ≡ false
      → pcc_params_from_config ac ≡ some (base, lookup "max_feed_power_kva" pcc.limits)
  unfolding pcc_params_from_config
  pcc_params ac pcc more base one given positive = rw (one, given, positive) refl

  -- The builder and the cycles raise on none of the following: a runtime configuration whose fields
  -- passed the validators, a site configuration that meets the controller's requirements and whose
  -- first active PCC gives a positive `max_supply_power_kva`, which no validator demands, and a
  -- `write_control` that, if there is one, always returns. The loop is built with that power as its
  -- base, the feed limit of the PCC and the limits of the active batteries; and any number of cycles,
  -- on any snapshots at any times, each return a result.
  pub build_control_loop-runs :
      (dm : DataModel) (ac : AssetConfigFile F) (ec : EdgeEmsConfigFile F) (errors : List EmsError)
      (write_control : Option (ControlFields F → F → Bool)) (pcc : AssetEntry F)
      (more : List (AssetEntry F)) (base : F) (inputs : List (Snapshot F × F × F))
      → validate_edge_ems_config dm ec ≡ some errors
      → check_controller_requirements ac ≡ []
      → active "pcc" ac.assets ≡ pcc ∷ more
      → lookup "max_supply_power_kva" pcc.limits ≡ some base
      → Float.leb base d.nought ≡ false
      → CanWrite write_control
      → (l : ControlLoop F) × (outs : List (CycleResult F)) × (build_control_loop ac ec
            write_control
          ≡ some l)
        × (battery_limits_from_config ac ≡ some l.edge.battery)
        × (l.pcc_base_kw ≡ base)
        × (l.max_feed_kw ≡ lookup "max_feed_power_kva" pcc.limits)
        × (cycles l inputs ≡ some outs)
        × (length outs ≡ length inputs)
  unfolding build_control_loop
  build_control_loop-runs dm ac ec errors write_control pcc more base inputs valid required one
        given positive writes =
      let (ok, time) = accepted dm ec errors valid in
      let (a, assets, found, limits) = battery_limits_total ac (requirements ac required) in
      let params = pcc_params ac pcc more base one given positive in
      let feed = lookup "max_feed_power_kva" pcc.limits in
      let (droop, made, curves) = droop_from_total ec base ok positive in
      elim (Option-cases (Modes.new ec.controller.hold_max_s run)) [
        | inl none_made ↦ absurd (ground (arith, modes_new ec.controller.hold_max_s time))
        | inr (modes, em) ↦
            let l = loop_of ac ec write_control (limits_from a assets) (base, feed) droop modes in
            let (outs, es, n) = cycles_total l inputs curves writes in
            (l, outs, rw (limits, params, made, em) refl, limits, refl, refl, es, n)
      ]
