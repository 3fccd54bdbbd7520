-- ===== src/Controller/Loop/Inputs.antt =====
-- The reading half of packages/controller/src/controller/control_loop.py: from a snapshot to the
-- control inputs and the flags that drive the mode ladder.
use edge_ems.Prelude.{
  Bool, false, not, Option, none, some, [], ◌∷◌, if◌then◌else◌, ◌&&◌, or_else, every,
}
use edge_ems.Prelude.Dict.{Dict, lookup}
use edge_ems.Float.{Float, leb, eqb}
use edge_ems.Common.Points.{good, comm_fail, quality_eq, PointValue}
use edge_ems.Controller.Edge.{ControlInputs}

pub record Snapshot (F : Type 0) : Type 0 where
  pub aggregates : Dict (Dict (PointValue F))
  pub pcc : Dict (PointValue F)

-- What `assemble_inputs` returns.
pub record Assembled (F : Type 0) : Type 0 where
  pub inputs : ControlInputs F
  pub freq : F
  pub volt : F
  pub data_fresh : Bool
  pub battery_ok : Bool

module _ {F : Type 0} ⦃d : Float F⦄ where
  abbrev pub pcc_v_min_v : F
  pcc_v_min_v = d.dec 50 0

  abbrev pub pcc_f_min_hz : F
  pcc_f_min_hz = d.dec 45 0

  abbrev pub pcc_f_max_hz : F
  pcc_f_max_hz = d.dec 55 0

  -- `_val`
  abbrev pub val : Option (PointValue F) → F → F
  val none default = default
  val (some pv) default = or_else pv.value default

  -- `_fresh`
  abbrev pub is_fresh : Option (PointValue F) → Bool
  is_fresh none = false
  is_fresh (some pv) = elim pv.value [ none ↦ false | some _ ↦ quality_eq pv.quality good ]

  unfoldable pub pcc_plausible : Option (PointValue F) → Option (PointValue F) → Bool
  pcc_plausible volt_pt freq_pt =
      is_fresh volt_pt
      && leb pcc_v_min_v (val volt_pt d.nought)
      && is_fresh freq_pt
      && leb pcc_f_min_hz (val freq_pt d.nought)
      && leb (val freq_pt d.nought) pcc_f_max_hz

  -- an asserted alarm: GOOD and not zero
  abbrev pub alarmed : Option (PointValue F) → Bool
  alarmed none = false
  alarmed (some pv) =
      quality_eq pv.quality good && elim pv.value [ none ↦ false | some v ↦ not (eqb v d.nought) ]

  abbrev pub soc_present : Option (PointValue F) → Bool
  soc_present none = false
  soc_present (some pv) = elim pv.value [
    | none ↦ false
    | some _ ↦ not (quality_eq pv.quality comm_fail)
  ]

  unfoldable pub battery_available : Dict (PointValue F) → Bool
  battery_available batt =
      if not (soc_present (lookup "soc_pct" batt))
      then false
      else not (alarmed (lookup "converter_alarm" batt))

  unfoldable pub assemble_inputs : Snapshot F → F → Option F → Assembled F
  assemble_inputs snap pcc_setpoint_kw max_feed_kw =
      let batt = or_else (lookup "battery" snap.aggregates) [] in
      let pv = or_else (lookup "pv" snap.aggregates) [] in
      let pcc = snap.pcc in
      let soc = lookup "soc_pct" batt in
      let battery_ok = battery_available batt in
      let pcc_p = lookup "active_power_kw" pcc in
      let charge_hl = lookup "available_charge_power_kw" batt in
      let discharge_hl = lookup "available_discharge_power_kw" batt in
      let volt_pt = lookup "voltage_v" pcc in
      let freq_pt = lookup "frequency_hz" pcc in
      let grid_ok = pcc_plausible volt_pt freq_pt in
      record {
        inputs = record {
          pcc_meas_kw = val pcc_p d.nought;
          pcc_setpoint_kw = pcc_setpoint_kw;
          soc_pct = val soc d.nought;
          avail_charge_kw = val charge_hl d.nought;
          avail_discharge_kw = val discharge_hl d.nought;
          pv_active_power_kw = val (lookup "active_power_kw" pv) d.nought;
          max_feed_kw = max_feed_kw;
        };
        freq = val freq_pt (d.dec 50 0);
        volt = val volt_pt (d.dec 230 0);
        data_fresh =
            grid_ok && battery_ok && every is_fresh (pcc_p ∷ soc ∷ charge_hl ∷ discharge_hl ∷ []);
        battery_ok = battery_ok;
      }
