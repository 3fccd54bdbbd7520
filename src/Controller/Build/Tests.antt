-- ===== src/Controller/Build/Tests.antt =====
-- The loop of a site with two batteries, over two cycles without data, in thousandths.
use edge_ems.Prelude.{◌≡◌, refl, Bool, Option, true, false, none, some, List, [], ◌∷◌, length}
use edge_ems.Prelude.Int.{ℤ, pos}
use edge_ems.Float.Milli.{milli}
use edge_ems.Common.Config.Tests.{site_model, pcc, site_file, site_file-met}
use edge_ems.Common.Config.Ems.{
  EdgeEmsConfigFile, check_values, check_knots, validate_edge_ems_config,
}
use edge_ems.Controller.Droop.Tests as DroopTests
use edge_ems.Controller.Loop.{ControlLoop, ControlFields, CycleResult}
use edge_ems.Controller.Loop.Inputs.{Snapshot}
use edge_ems.Controller.Build.{battery_limits_from_config, build_control_loop}
use edge_ems.Controller.Build.Running.{cycles, build_control_loop-runs}

abbrev pub ems_file : EdgeEmsConfigFile ℤ
ems_file = record {
  data_model_version = "1.0";
  influxdb = record { url = "http://db"; org = "site"; bucket = "ems"; token = "" };
  mqtt = record {
    broker_address = "broker";
    broker_port = 1883;
    client_id = "edge";
    username = "";
    password = "";
  };
  controller = record {
    update_period = pos 1000;
    kp = pos 500;
    ki = pos 100;
    timeout_period = pos 2000;
    hold_max_s = pos 10000;
    slew_limit_kw_s = none;
    pcc_setpoint_kw = pos 0;
  };
  droop = DroopTests.config;
  asset_aggregation = [];
  http_api = record { host = "0.0.0.0"; port = 5000; debug = false };
  logging = record { level = "INFO"; file = none; max_file_size = none; backup_count = none };
}

pub ems_valid : validate_edge_ems_config site_model ems_file ≡ some []
unfolding validate_edge_ems_config check_values check_knots
ems_valid = refl

abbrev dark : Snapshot ℤ
dark = record { aggregates = []; pcc = [] }

-- a writer that takes every record
abbrev writer : Option (ControlFields ℤ → ℤ → Bool)
writer = some (λ fields now. true)

build_control_loop-runs_example :
    (l : ControlLoop ℤ) × (outs : List (CycleResult ℤ)) × (build_control_loop site_file ems_file
        writer
      ≡ some l)
    × (battery_limits_from_config site_file ≡ some l.edge.battery)
    × (l.pcc_base_kw ≡ pos 2000000)
    × (l.max_feed_kw ≡ none)
    × (cycles l ((dark, pos 1000, pos 1) ∷ (dark, pos 2000, pos 1) ∷ []) ≡ some outs)
    × (length outs ≡ 2)
build_control_loop-runs_example =
    build_control_loop-runs site_model site_file ems_file [] writer pcc [] (pos 2000000)
      ((dark, pos 1000, pos 1) ∷ (dark, pos 2000, pos 1) ∷ []) ems_valid site_file-met refl refl
      refl (λ fields now. refl)
