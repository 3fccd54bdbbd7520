-- ===== src/Controller/Loop/Gate.antt =====
-- When the loop regulates: the guard in front of RUN.
use edge_ems.Prelude.{
  ◌≡◌, refl, ◌↔◌, Bool, true, false, Option-cases, inl, inr, Option, none, some, [], arith, or_else,
}
use edge_ems.Prelude.Dict.{Dict, lookup}
use edge_ems.Float.{Float, ◌≼◌, eqb}
use edge_ems.Common.Points.{PointValue, IsGood}
use edge_ems.Controller.Modes.{run, ModeController, update}
use edge_ems.Controller.Loop.{ControlLoop, finish, run_once}
use edge_ems.Controller.Loop.Inputs.{
  Snapshot, assemble_inputs, battery_available, pcc_plausible, pcc_v_min_v, pcc_f_min_hz,
  pcc_f_max_hz, is_fresh, soc_present, alarmed,
}

module _ {F : Type 0} ⦃d : Float F⦄ where
  -- The alarm point, if it is GOOD with a value, shows zero.
  abbrev pub IsQuiet : Option (PointValue F) → Type 0
  IsQuiet alarm = (v : F) → IsGood alarm v → eqb v d.nought ≡ true

  -- The snapshot of a live grid and an available battery.
  pub record IsPlausible (snap : Snapshot F) : Type 0 where
    pub volt : (v : F) × IsGood (lookup "voltage_v" snap.pcc) v × (pcc_v_min_v ≼ v)
    pub freq :
        (f : F) × IsGood (lookup "frequency_hz" snap.pcc) f
        × (pcc_f_min_hz ≼ f)
        × (f ≼ pcc_f_max_hz)
    pub power : (p : F) × IsGood (lookup "active_power_kw" snap.pcc) p
    pub soc : (v : F) × IsGood (lookup "soc_pct" (or_else (lookup "battery" snap.aggregates) [])) v
    pub charge :
        (v : F) × IsGood
          (lookup "available_charge_power_kw" (or_else (lookup "battery" snap.aggregates) []))
          v
    pub discharge :
        (v : F) × IsGood
          (lookup "available_discharge_power_kw" (or_else (lookup "battery" snap.aggregates) []))
          v
    pub alarm : IsQuiet (lookup "converter_alarm" (or_else (lookup "battery" snap.aggregates) []))

  is_fresh_iff : (o : Option (PointValue F)) → (is_fresh o ≡ true) ↔ ((v : F) × IsGood o v)
  is_fresh_iff none = (λ e. absurd (ground arith), λ (v, h). absurd h)
  is_fresh_iff (some p) = elim (Option-cases p.value) [
    | inl e ↦ (λ f. absurd (ground arith), λ (v, h). ground arith)
    | inr (v, e) ↦ (λ f. (v, (e, ground arith)), λ (w, h). ground arith)
  ]

  alarmed_iff : (o : Option (PointValue F)) → (alarmed o ≡ false) ↔ IsQuiet o
  alarmed_iff none = (λ e v h. absurd h, λ q. refl)
  alarmed_iff (some p) = elim (Option-cases p.value) [
    | inl e ↦ (λ f v h. ground arith, λ q. ground arith)
    | inr (v, e) ↦ (λ f w h. ground arith, λ q. ground (arith, q v))
  ]

  -- the order test on a point's value, given that it is GOOD
  plausible_iff :
      (volt freq : Option (PointValue F))
      → (pcc_plausible volt freq ≡ true) ↔ (
          ((v : F) × IsGood volt v × (pcc_v_min_v ≼ v))
          × ((f : F) × IsGood freq f × (pcc_f_min_hz ≼ f) × (f ≼ pcc_f_max_hz)))
  unfolding pcc_plausible
  plausible_iff none freq = (λ e. absurd (ground arith), λ (v, f). absurd v.1)
  plausible_iff (some p) none = (λ e. absurd (ground arith), λ (v, f). absurd f.1)
  plausible_iff (some p) (some q) = elim (Option-cases p.value) [
    | inl e ↦ (λ h. absurd (ground arith), λ (v, f). ground arith)
    | inr (v, e) ↦ elim (Option-cases q.value) [
      | inl e' ↦ (λ h. absurd (ground arith), λ (v', f'). ground arith)
      | inr (f, e') ↦ (
        λ h. (
          (v, (e, ground arith), ground arith),
          (f, (e', ground arith), ground arith, ground arith),
        ),
        λ (v', f'). ground arith,
      )
    ]
  ]

  present_of_good : (o : Option (PointValue F)) (v : F) → IsGood o v → soc_present o ≡ true
  present_of_good none v h = absurd h
  present_of_good (some p) v h = ground arith

  battery_available_iff :
      (batt : Dict (PointValue F)) (v : F)
      → IsGood (lookup "soc_pct" batt) v
      → (battery_available batt ≡ true) ↔ IsQuiet (lookup "converter_alarm" batt)
  unfolding battery_available
  battery_available_iff batt v h =
      let both = alarmed_iff (lookup "converter_alarm" batt) in
      let present = present_of_good (lookup "soc_pct" batt) v h in
      (λ a. both.0 (ground arith), λ q. ground (arith, both.1 q))

  -- The flag that lets the loop run is set exactly on plausible snapshots.
  data_fresh_iff :
      (snap : Snapshot F) (sp : F) (feed : Option F)
      → ((assemble_inputs snap sp feed).data_fresh ≡ true) ↔ IsPlausible snap
  unfolding assemble_inputs
  data_fresh_iff snap sp feed =
      let batt = or_else (lookup "battery" snap.aggregates) [] in
      let grid = plausible_iff (lookup "voltage_v" snap.pcc) (lookup "frequency_hz" snap.pcc) in
      let soc = is_fresh_iff (lookup "soc_pct" batt) in
      (
        λ h.
            let s = soc.0 (ground arith) in
            record {
              volt = (grid.0 (ground arith)).0;
              freq = (grid.0 (ground arith)).1;
              power = (is_fresh_iff (lookup "active_power_kw" snap.pcc)).0 (ground arith);
              soc = s;
              charge = (is_fresh_iff (lookup "available_charge_power_kw" batt)).0 (ground arith);
              discharge =
                  (is_fresh_iff (lookup "available_discharge_power_kw" batt)).0 (ground arith);
              alarm = (battery_available_iff batt s.0 s.1).0 (ground arith);
            },
        λ p. ground (
          arith,
          grid.1 (p.volt, p.freq),
          soc.1 p.soc,
          (is_fresh_iff (lookup "active_power_kw" snap.pcc)).1 p.power,
          (is_fresh_iff (lookup "available_charge_power_kw" batt)).1 p.charge,
          (is_fresh_iff (lookup "available_discharge_power_kw" batt)).1 p.discharge,
          (battery_available_iff batt p.soc.0 p.soc.1).1 p.alarm,
        ),
      )

  fresh_needs_battery :
      (snap : Snapshot F) (sp : F) (feed : Option F)
      → let a = assemble_inputs snap sp feed in a.data_fresh ≡ true → a.battery_ok ≡ true
  unfolding assemble_inputs
  fresh_needs_battery snap sp feed h = ground arith

  update-run :
      (c : ModeController F) (fresh ok : Bool) (now : F)
      → (fresh ≡ true → ok ≡ true)
      → ((update c fresh ok now).0.mode ≡ run) ↔ (fresh ≡ true)
  unfolding update
  update-run c true true now h = (λ e. refl, λ e. refl)
  update-run c true false now h = (λ e. refl, λ e. ground arith)
  update-run c false false now h = (λ e. ground arith, λ e. ground arith)
  update-run c false true now h = (λ e. absurd (ground arith), λ e. ground arith)

  -- The loop keeps the mode controller that `update` gives back, whether or not the cycle raises.
  pub modes-run_once :
      (l : ControlLoop F) (snap : Snapshot F) (now dur : F)
      → let a = assemble_inputs snap l.pcc_setpoint_kw l.max_feed_kw in
        (run_once l snap now dur).0.modes ≡ (update l.modes a.data_fresh a.battery_ok now).0
  unfolding run_once finish
  modes-run_once l snap now dur = ground arith

  -- Whatever state the loop is in, a cycle ends in RUN exactly when the snapshot is plausible: PCC
  -- voltage, frequency and power and the battery's state of charge and headroom are GOOD with
  -- values, the voltage is at least 50 V, the frequency from 45 to 55 Hz, and no GOOD converter
  -- alarm differs from zero.
  pub run_once-run :
      (l : ControlLoop F) (snap : Snapshot F) (now dur : F)
      → ((run_once l snap now dur).0.modes.mode ≡ run) ↔ IsPlausible snap
  run_once-run l snap now dur =
      let a = assemble_inputs snap l.pcc_setpoint_kw l.max_feed_kw in
      let fresh = data_fresh_iff snap l.pcc_setpoint_kw l.max_feed_kw in
      let mode =
        update-run l.modes a.data_fresh a.battery_ok now
          (fresh_needs_battery snap l.pcc_setpoint_kw l.max_feed_kw) in
      rw (modes-run_once l snap now dur) (λ e. fresh.0 (mode.0 e), λ p. mode.1 (fresh.1 p))
