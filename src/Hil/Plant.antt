-- ===== src/Hil/Plant.antt =====
-- hil/plant/models.py: the devices of the plant. The functions of Python's math module are an
-- argument, and `none` is an exception: a division by zero, or the arc cosine of no cosine.
pub mod Bounds
use edge_ems.Prelude.{Bool, Option, none, some, ◌&&◌, if◌then◌else◌, ◌>>=◌}
use edge_ems.Float.{Float, ◌+◌, ◌-◌, ◌*◌, ◌/◌, neg, ltb, eqb, min, max}

pub record Math (F : Type 0) : Type 0 where
  pub exp : F → F
  pub tan : F → F
  pub sqrt : F → F
  pub hypot : F → F → F
  pub acos : F → Option F

pub record BatteryModel (F : Type 0) : Type 0 where
  pub max_charge_kw : F
  pub max_discharge_kw : F
  pub capacity_kwh : F
  pub min_soc_pct : F
  pub max_soc_pct : F
  pub soc_pct : F
  pub tau_s : F
  pub p_kw : F
  pub q_kvar : F
  pub p_setpoint : F
  pub q_setpoint : F

pub record PvModel (F : Type 0) : Type 0 where
  pub peak_kw : F
  pub max_kva : F
  pub min_derate : F
  pub irradiance : F
  pub curtail_factor : F
  pub pf : F
  pub p_kw : F
  pub q_kvar : F

pub record FlexibleLoadModel (F : Type 0) : Type 0 where
  pub max_kw : F
  pub min_derate : F
  pub base_fraction : F
  pub derate_factor : F
  pub pf : F
  pub p_kw : F
  pub q_kvar : F

pub record FixedLoadModel (F : Type 0) : Type 0 where
  pub base_kw : F
  pub pf : F
  pub p_kw : F
  pub q_kvar : F

pub record GridModel (F : Type 0) : Type 0 where
  pub nominal_voltage_v : F
  pub nominal_frequency_hz : F
  pub line_voltage_v : F
  pub frequency_hz : F
  pub voltage_v : F

module _ {F : Type 0} ⦃d : Float F⦄ where
  -- `a / b`, which raises for 0
  abbrev pub quotient : F → F → Option F
  quotient a b = if eqb b d.nought then none else some (a / b)

  abbrev pub available_charge_power_kw : BatteryModel F → F
  available_charge_power_kw b = if ltb b.soc_pct b.max_soc_pct then b.max_charge_kw else d.nought

  abbrev pub available_discharge_power_kw : BatteryModel F → F
  available_discharge_power_kw b =
      if ltb b.min_soc_pct b.soc_pct then b.max_discharge_kw else d.nought

  abbrev pub power_window : BatteryModel F → F × F
  power_window b =
      let upper = available_charge_power_kw b in
      let lower = neg (available_discharge_power_kw b) in
      if ltb upper lower then (d.nought, d.nought) else (lower, upper)

  unfoldable pub set_setpoint : F → F → BatteryModel F → BatteryModel F
  set_setpoint p q b = record b { p_setpoint = p; q_setpoint = q }

  abbrev pub clamp : F × F → F → F
  clamp (lower, upper) x = min (max x lower) upper

  module _ (m : Math F) where
    -- the power after the lag of the converter, before it is clamped again
    abbrev pub follow : F → BatteryModel F → F
    follow dt b =
        let target = clamp (power_window b) b.p_setpoint in
        if ltb d.nought b.tau_s
        then b.p_kw + (d.one - m.exp (neg dt / b.tau_s)) * (target - b.p_kw)
        else target

    unfoldable pub step_battery : F → BatteryModel F → Option (BatteryModel F)
    step_battery dt b =
        let p = clamp (power_window b) (follow dt b) in
        do
          used ← quotient (p * dt / d.dec 3600 0) b.capacity_kwh
          some (record b {
            p_kw = p;
            q_kvar = b.q_setpoint;
            soc_pct = min (d.dec 100 0) (max d.nought (b.soc_pct + used * d.dec 100 0));
          })

  -- `min(1.0, max(min_derate, factor))`
  abbrev pub factor_of : F → F → F
  factor_of min_derate factor = min d.one (max min_derate factor)

  unfoldable pub set_curtail : F → PvModel F → PvModel F
  set_curtail factor pv = record pv { curtail_factor = factor_of pv.min_derate factor }

  unfoldable pub set_irradiance : F → PvModel F → PvModel F
  set_irradiance irradiance pv = record pv { irradiance = max d.nought irradiance }

  -- the reactive power of `p` at the power factor; `k` is what p stands for in the product
  abbrev pub reactive : Math F → F → F → F → Option F
  reactive m pf p k =
      if ltb pf d.one && ltb d.nought p
      then (do angle ← m.acos pf; some (k * m.tan angle))
      else some d.nought

  unfoldable pub step_pv : Math F → F → PvModel F → Option (PvModel F)
  step_pv m dt pv =
      let gen = min (pv.peak_kw * pv.irradiance * pv.curtail_factor) pv.max_kva in
      do q ← reactive m pv.pf gen (neg gen); some (record pv { p_kw = neg gen; q_kvar = q })

  unfoldable pub set_derate : F → FlexibleLoadModel F → FlexibleLoadModel F
  set_derate factor load = record load { derate_factor = factor_of load.min_derate factor }

  unfoldable pub set_base : F → FlexibleLoadModel F → FlexibleLoadModel F
  set_base fraction load = record load { base_fraction = max d.nought fraction }

  unfoldable pub set_base_kw : F → FlexibleLoadModel F → Option (FlexibleLoadModel F)
  set_base_kw kw load = do
    fraction ← quotient kw load.max_kw
    some (record load { base_fraction = max d.nought fraction })

  unfoldable pub step_load : Math F → F → FlexibleLoadModel F → Option (FlexibleLoadModel F)
  step_load m dt load =
      let p = max d.nought (load.max_kw * min d.one load.base_fraction * load.derate_factor) in
      do q ← reactive m load.pf p p; some (record load { p_kw = p; q_kvar = q })

  unfoldable pub set_fixed_kw : F → FixedLoadModel F → FixedLoadModel F
  set_fixed_kw kw load = record load { base_kw = max d.nought kw }

  unfoldable pub step_fixed : Math F → F → FixedLoadModel F → Option (FixedLoadModel F)
  step_fixed m dt load =
      let p = max d.nought load.base_kw in
      do q ← reactive m load.pf p p; some (record load { p_kw = p; q_kvar = q })

  unfoldable pub set_frequency : F → GridModel F → GridModel F
  set_frequency hz g = record g { frequency_hz = hz }

  unfoldable pub set_voltage : F → GridModel F → GridModel F
  set_voltage v g = record g { voltage_v = v }

  unfoldable pub set_voltage_pu : F → GridModel F → GridModel F
  set_voltage_pu pu g = record g { voltage_v = pu * g.nominal_voltage_v }
