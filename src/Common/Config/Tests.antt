-- ===== src/Common/Config/Tests.antt =====
-- A site with a grid connection and a battery, in thousandths.
use edge_ems.Prelude.{◌≡◌, ◌↔◌, refl, none, List, [], ◌∷◌, String, All}
use edge_ems.Prelude.Int.{ℤ, pos}
use edge_ems.Common.DataModel.{AssetClassDef, DataModel}
use edge_ems.Common.Config.{
  AssetEntry, AssetConfigFile, validate_asset_config, check_controller_requirements, has_one_pcc,
  has_battery, duplicate_id, an_active_battery,
}
use edge_ems.Common.Config.Assets.{IsDistinct, IsAllowed, validate_asset_config_iff}

abbrev class_def : String → String → List String → AssetClassDef
class_def name control limits = record {
  name = name;
  control = control;
  points = [];
  limits_schema = limits;
  nominal_schema = [];
}

abbrev pub site_model : DataModel
site_model = record {
  version = "1.0";
  asset_classes =
      ("battery", class_def "battery" "power_setpoint" ("max_charge_kw" ∷ "max_discharge_kw" ∷ []))
      ∷ ("pcc", class_def "pcc" "none" ("max_supply_power_kva" ∷ []))
      ∷ [];
  aggregates = [];
}

abbrev battery : String → AssetEntry ℤ
battery id = record {
  id = id;
  name = "";
  asset_class = "battery";
  state = "active";
  flexibility = record {
    control = "power_setpoint";
    limits = ("max_charge_kw", pos 500000) ∷ ("max_discharge_kw", pos 400000) ∷ [];
  };
  nominal = [];
  limits = [];
  comm = none;
}

abbrev pub pcc : AssetEntry ℤ
pcc = record {
  id = "pcc-1";
  name = "";
  asset_class = "pcc";
  state = "active";
  flexibility = record { control = "none"; limits = [] };
  nominal = [];
  limits = ("max_supply_power_kva", pos 2000000) ∷ [];
  comm = none;
}

abbrev file_of : List (AssetEntry ℤ) → AssetConfigFile ℤ
file_of assets = record {
  data_model_version = "1.0";
  site = record { id = "site-a"; name = ""; location = none };
  assets = assets;
}

abbrev pub site_file : AssetConfigFile ℤ
site_file = file_of (pcc ∷ battery "bess-1" ∷ battery "bess-2" ∷ [])

same_id :
    validate_asset_config site_model (file_of (battery "bess-1" ∷ battery "bess-1" ∷ []))
    ≡ duplicate_id "bess-1" ∷ []
unfolding validate_asset_config
same_id = refl

no_battery : check_controller_requirements (file_of (pcc ∷ [])) ≡ an_active_battery ∷ []
unfolding check_controller_requirements has_one_pcc has_battery
no_battery = refl

pub site_file-met : check_controller_requirements site_file ≡ []
unfolding check_controller_requirements has_one_pcc has_battery
site_file-met = refl

validate_asset_config_iff_example : (validate_asset_config site_model site_file ≡ []) ↔ (
    ("1.0" ≡ site_model.version)
    × IsDistinct site_file.assets
    × All (IsAllowed site_model) site_file.assets)
validate_asset_config_iff_example = validate_asset_config_iff site_model site_file
