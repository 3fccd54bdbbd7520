-- ===== src/Common/RegisterMap/Tests.antt =====
-- A map of a battery, and one whose registers overlap.
use edge_ems.Prelude.{◌≡◌, refl, none, some, [], ◌∷◌, ℕ}
use edge_ems.Prelude.Int.{ℤ, pos}
use edge_ems.Prelude.Dict.{lookup}
use edge_ems.Common.DataModel.{AssetClassDef}
use edge_ems.Common.DataModel.Tests.{model}
use edge_ems.Common.RegisterMap.{
  RegisterDef, RegisterMap, RegisterType, Access, int16, int32, r, rw, load_register_map, loaded,
  invalid, overlap, read_only,
}
use edge_ems.Common.RegisterMap.Disjoint.{Apart, AllPermitted, load_register_map-Apart}

abbrev pub register : ℕ → RegisterType → Access → RegisterDef ℤ
register address type access = record {
  address = address;
  type = type;
  size = none;
  scale = pos 100;
  sf_address = none;
  sf_value = none;
  unit_scale = pos 1000;
  value = none;
  role = none;
  rw = access;
}

abbrev pub battery_map : RegisterMap ℤ
battery_map = record {
  map_version = "1";
  asset_class = "battery";
  points =
      ("active_power_kw", register 40010 int32 r)
      ∷ ("active_power_setpoint_kw", register 40012 int16 rw)
      ∷ [];
}

loads : load_register_map model battery_map ≡ loaded battery_map
unfolding load_register_map
loads = refl

overlaps :
    load_register_map model (record battery_map {
      points =
          ("active_power_kw", register 40010 int32 r)
          ∷ ("active_power_setpoint_kw", register 40011 int16 r)
          ∷ [];
    })
    ≡ invalid (
        read_only "active_power_setpoint_kw"
        ∷ overlap "active_power_setpoint_kw" 40011 "active_power_kw"
        ∷ [])
unfolding load_register_map
overlaps = refl

load_register_map-Apart_example :
    (battery_map ≡ battery_map)
    × Apart battery_map.points
    × ((cls : AssetClassDef) × (lookup "battery" model.asset_classes ≡ some cls)
        × AllPermitted cls.points battery_map.points)
load_register_map-Apart_example = load_register_map-Apart model battery_map battery_map loads
