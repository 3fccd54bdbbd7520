-- ===== src/Common/DataModel/Tests.antt =====
-- A data model with one asset class.
use edge_ems.Prelude.{◌≡◌, refl, ◌↔◌, some, [], ◌∷◌, String, All}
use edge_ems.Prelude.Dict.{lookup}
use edge_ems.Common.DataModel.{
  PointDef, AssetClassDef, DataModel, self_check, validate_fields, unknown_aggregate_point,
}
use edge_ems.Common.DataModel.Fields.{Declares, validate_fields_iff}

abbrev point : String → String → PointDef
point n way = record { name = n; unit_name = "kW"; type_name = "float"; direction = way }

abbrev battery : AssetClassDef
battery = record {
  name = "battery";
  control = "full";
  points =
      ("active_power_kw", point "active_power_kw" "input")
      ∷ ("active_power_setpoint_kw", point "active_power_setpoint_kw" "output")
      ∷ [];
  limits_schema = [];
  nominal_schema = [];
}

abbrev pub model : DataModel
model = record {
  version = "1.0";
  asset_classes = ("battery", battery) ∷ [];
  aggregates = ("battery", "soc_pct" ∷ []) ∷ [];
}

missing_point : self_check model ≡ unknown_aggregate_point "battery" "soc_pct" ∷ []
unfolding self_check
missing_point = refl

validate_fields_iff_example :
    (validate_fields model "battery" ("active_power_setpoint_kw" ∷ []) (some "output") ≡ []) ↔ (
      (c : AssetClassDef) × (lookup "battery" model.asset_classes ≡ some c)
      × All (Declares c.points (some "output")) ("active_power_setpoint_kw" ∷ []))
validate_fields_iff_example =
    validate_fields_iff model "battery" ("active_power_setpoint_kw" ∷ []) (some "output")
