-- ===== src/Controller/Build.antt =====
-- packages/controller/src/controller: the builders of control_loop.py and `build_control_loop` of
-- runtime.py, from the configuration to a loop. `none` is a ValueError.
pub mod Ready
pub mod Running
pub mod Tests
use edge_ems.Prelude.{
  Bool, Option, none, some, List, [], ◌∷◌, String, or_else, if◌then◌else◌, ◌>>=◌,
}
use edge_ems.Prelude.Dict.{lookup}
use edge_ems.Float.{Float, ◌+◌, leb}
use edge_ems.Common.Config.{AssetEntry, AssetConfigFile, active}
use edge_ems.Common.Config.Ems.{EdgeEmsConfigFile}
use edge_ems.Controller.Modes as Modes
use edge_ems.Controller.Modes.{ModeController, run}
use edge_ems.Controller.Edge.{
  ControlParams, BatteryLimits, DerateLimits, EdgeController, initial_state,
}
use edge_ems.Controller.Droop as Droop
use edge_ems.Controller.Droop.{DroopController}
use edge_ems.Controller.Loop.{ControlLoop, ControlFields}

module _ {F : Type 0} ⦃d : Float F⦄ where
  -- `flexibility.limits.get(name, default)`
  abbrev pub limit_of : String → F → AssetEntry F → F
  limit_of name default a = or_else (lookup name a.flexibility.limits) default

  abbrev pub total_from : F → String → List (AssetEntry F) → F
  total_from acc name [] = acc
  total_from acc name (a ∷ assets) = total_from (acc + limit_of name d.nought a) name assets

  -- the limits of the batteries `a ∷ assets`
  abbrev pub limits_from : AssetEntry F → List (AssetEntry F) → BatteryLimits F
  limits_from a assets = record {
    max_charge_kw = total_from d.nought "max_charge_kw" (a ∷ assets);
    max_discharge_kw = total_from d.nought "max_discharge_kw" (a ∷ assets);
    min_soc_pct = limit_of "min_soc_pct" d.nought a;
    max_soc_pct = limit_of "max_soc_pct" (d.dec 100 0) a;
    min_warning_soc_pct = limit_of "min_warning_soc_pct" d.nought a;
    max_warning_soc_pct = limit_of "max_warning_soc_pct" d.nought a;
  }

  unfoldable pub battery_limits_from_config : AssetConfigFile F → Option (BatteryLimits F)
  battery_limits_from_config ac = elim (active "battery" ac.assets) [
    | [] ↦ none
    | a ∷ assets ↦ some (limits_from a assets)
  ]

  abbrev pub floor_of : List (AssetEntry F) → F
  floor_of [] = d.nought
  floor_of (a ∷ assets) = limit_of "min_derate_factor" d.nought a

  unfoldable pub derate_limits_from_config : AssetConfigFile F → DerateLimits F
  derate_limits_from_config ac = record {
    load_min_derate = floor_of (active "flexible_load" ac.assets);
    pv_min_derate = floor_of (active "pv" ac.assets);
  }

  abbrev pub pcc_params_of : List (AssetEntry F) → Option (F × Option F)
  pcc_params_of [] = none
  pcc_params_of (pcc ∷ assets) = do
    base ← lookup "max_supply_power_kva" pcc.limits
    if leb base d.nought then none else some (base, lookup "max_feed_power_kva" pcc.limits)

  unfoldable pub pcc_params_from_config : AssetConfigFile F → Option (F × Option F)
  pcc_params_from_config ac = pcc_params_of (active "pcc" ac.assets)

  abbrev pub params_from_config : EdgeEmsConfigFile F → ControlParams F
  params_from_config ec =
      let c = ec.controller in
      record {
        kp = c.kp;
        ki = c.ki;
        update_period = c.update_period;
        slew_limit_kw_s = c.slew_limit_kw_s;
      }

  abbrev pub droop_from : EdgeEmsConfigFile F → F → Option (Option (DroopController F))
  droop_from ec base =
      if ec.droop.enabled then (do c ← Droop.new ec.droop base; some (some c)) else some none

  abbrev pub loop_of :
      AssetConfigFile F
      → EdgeEmsConfigFile F
      → Option (ControlFields F → F → Bool)
      → BatteryLimits F
      → F × Option F
      → Option (DroopController F)
      → ModeController F
      → ControlLoop F
  loop_of ac ec write_control battery (base, max_feed) droop modes = record {
    edge = record {
      params = params_from_config ec;
      battery = battery;
      derate = derate_limits_from_config ac;
      state = initial_state;
    };
    modes = modes;
    droop = droop;
    pcc_base_kw = base;
    max_feed_kw = max_feed;
    pcc_setpoint_kw = ec.controller.pcc_setpoint_kw;
    write_control = write_control;
    last_reactive = d.nought;
    last_pub = [];
  }

  unfoldable pub build_control_loop :
      AssetConfigFile F
      → EdgeEmsConfigFile F
      → Option (ControlFields F → F → Bool)
      → Option (ControlLoop F)
  build_control_loop ac ec write_control = do
    battery ← battery_limits_from_config ac
    pcc ← pcc_params_from_config ac
    droop ← droop_from ec pcc.0
    modes ← Modes.new ec.controller.hold_max_s run
    some (loop_of ac ec write_control battery pcc droop modes)
