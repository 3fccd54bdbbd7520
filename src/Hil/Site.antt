-- ===== src/Hil/Site.antt =====
-- hil/plant/models.py: the site, which steps its devices, forms the balance at the grid connection
-- and serves its points by class. `none` is an exception.
pub mod History
pub mod Tests
use edge_ems.Prelude.{Bool, Option, none, some, List, [], ◌∷◌, String, str_eq, if◌then◌else◌, ◌>>=◌}
use edge_ems.Prelude.Dict.{Dict}
use edge_ems.Float.{Float, ◌+◌, ◌*◌, ◌/◌, leb, ltb, abs}
use edge_ems.Hil.Plant.{
  Math, BatteryModel, PvModel, FlexibleLoadModel, FixedLoadModel, GridModel, set_setpoint,
  set_curtail, set_derate, available_charge_power_kw, available_discharge_power_kw, step_battery,
  step_pv, step_load, step_fixed,
}

pub record PccMeasurement (F : Type 0) : Type 0 where
  pub voltage_v : F
  pub frequency_hz : F
  pub current_a : F
  pub active_power_kw : F
  pub reactive_power_kvar : F

pub record SiteModel (F : Type 0) : Type 0 where
  pub grid : GridModel F
  pub battery : BatteryModel F
  pub pv : PvModel F
  pub load : FlexibleLoadModel F
  pub fixed_load : FixedLoadModel F

module _ {F : Type 0} ⦃d : Float F⦄ (m : Math F) where
  unfoldable pub step : F → SiteModel F → Option (SiteModel F)
  step dt s = do
    battery ← step_battery m dt s.battery
    pv ← step_pv m dt s.pv
    load ← step_load m dt s.load
    fixed_load ← step_fixed m dt s.fixed_load
    some (record s { battery = battery; pv = pv; load = load; fixed_load = fixed_load })

  abbrev pub pcc_active_power_kw : SiteModel F → F
  pcc_active_power_kw s = s.load.p_kw + s.fixed_load.p_kw + s.battery.p_kw + s.pv.p_kw

  abbrev pub pcc_reactive_power_kvar : SiteModel F → F
  pcc_reactive_power_kvar s = s.load.q_kvar + s.fixed_load.q_kvar + s.battery.q_kvar + s.pv.q_kvar

  -- the current of a line that carries `p` and `q`
  abbrev pub current_of : F → F → F → F
  current_of v_ll p q = abs (m.hypot p q) * d.dec 1000 0 / (m.sqrt (d.dec 3 0) * v_ll)

  abbrev pub pcc_current_a : SiteModel F → F
  pcc_current_a s =
      let v_ll = s.grid.line_voltage_v in
      if leb v_ll d.nought
      then d.nought
      else current_of v_ll (pcc_active_power_kw s) (pcc_reactive_power_kvar s)

  abbrev pub pcc_measurement : SiteModel F → PccMeasurement F
  pcc_measurement s = record {
    voltage_v = s.grid.voltage_v;
    frequency_hz = s.grid.frequency_hz;
    current_a = pcc_current_a s;
    active_power_kw = pcc_active_power_kw s;
    reactive_power_kvar = pcc_reactive_power_kvar s;
  }

  abbrev pub pcc_points : PccMeasurement F → Dict F
  pcc_points p =
      ("voltage_v", p.voltage_v)
      ∷ ("frequency_hz", p.frequency_hz)
      ∷ ("current_a", p.current_a)
      ∷ ("active_power_kw", p.active_power_kw)
      ∷ ("reactive_power_kvar", p.reactive_power_kvar)
      ∷ []

  abbrev pub battery_points : BatteryModel F → Dict F
  battery_points b =
      ("soc_pct", b.soc_pct)
      ∷ ("active_power_kw", b.p_kw)
      ∷ ("reactive_power_kvar", b.q_kvar)
      ∷ ("available_charge_power_kw", available_charge_power_kw b)
      ∷ ("available_discharge_power_kw", available_discharge_power_kw b)
      ∷ []

  abbrev pub power_points : F → F → Dict F
  power_points p q = ("active_power_kw", p) ∷ ("reactive_power_kvar", q) ∷ []

  abbrev pub meter_points : SiteModel F → Dict F
  meter_points s =
      let v_ll = s.grid.line_voltage_v in
      let p = s.fixed_load.p_kw in
      let q = s.fixed_load.q_kvar in
      ("voltage_v", s.grid.voltage_v)
      ∷ ("frequency_hz", s.grid.frequency_hz)
      ∷ ("current_a", if ltb d.nought v_ll then current_of v_ll p q else d.nought)
      ∷ power_points p q

  unfoldable pub points : SiteModel F → String → Option (Dict F)
  points s asset_class =
      if str_eq asset_class "pcc"
      then some (pcc_points (pcc_measurement s))
      else if str_eq asset_class "battery"
      then some (battery_points s.battery)
      else if str_eq asset_class "pv"
      then some (power_points s.pv.p_kw s.pv.q_kvar)
      else if str_eq asset_class "flexible_load"
      then some (power_points s.load.p_kw s.load.q_kvar)
      else if str_eq asset_class "meter"
      then some (meter_points s)
      else none

module _ {F : Type 0} ⦃d : Float F⦄ where
  abbrev pub apply_battery : String → F → BatteryModel F → BatteryModel F
  apply_battery point value b =
      if str_eq point "active_power_setpoint_kw"
      then set_setpoint value b.q_setpoint b
      else if str_eq point "reactive_power_setpoint_kvar"
      then set_setpoint b.p_setpoint value b
      else b

  unfoldable pub apply_setpoint : String → String → F → SiteModel F → SiteModel F
  apply_setpoint asset_class point value s =
      if str_eq asset_class "battery"
      then record s { battery = apply_battery point value s.battery }
      else if str_eq asset_class "pv"
      then (if str_eq point "derate_factor_setpoint"
          then record s { pv = set_curtail value s.pv }
          else s)
      else if str_eq asset_class "flexible_load"
      then (if str_eq point "derate_factor_setpoint"
          then record s { load = set_derate value s.load }
          else s)
      else s
