-- ===== src/Core/InfluxWriter/Tests.antt =====
-- A battery's aggregate with one point that failed.
use edge_ems.Prelude.{◌≡◌, ◌↔◌, refl, none, some, [], ◌∷◌, String, All}
use edge_ems.Prelude.Int.{ℤ, pos}
use edge_ems.Prelude.Dict.{Dict, lookup, keys, values}
use edge_ems.Float.Milli.{milli}
use edge_ems.Common.Points.{IsGood, PointValue, good, comm_fail}
use edge_ems.Common.DataModel.{AssetClassDef, validate_fields}
use edge_ems.Common.DataModel.Tests.{model}
use edge_ems.Common.DataModel.Fields.{Declares}
use edge_ems.Core.InfluxWriter.{Record, built, build_aggregate_point}
use edge_ems.Core.InfluxWriter.Canonical.{CanCount, build_aggregate_point-canonical}

abbrev vals : Dict (PointValue ℤ)
vals =
    ("active_power_kw", record { value = some (pos 7000); ts = pos 5000; quality = good })
    ∷ ("soc_pct", record { value = none; ts = pos 5000; quality = comm_fail })
    ∷ []

abbrev expected : Record ℤ
expected = record {
  measurement = "aggregate";
  tag = ("asset_class", "battery");
  site_id = "site-1";
  quality = comm_fail;
  fields = ("active_power_kw", pos 7000) ∷ [];
  ts = pos 5000;
}

is_built : build_aggregate_point model "site-1" "battery" vals ≡ built expected
unfolding build_aggregate_point validate_fields
is_built = refl

build_aggregate_point-canonical_example :
    ((n : String) (x : ℤ) → (lookup n expected.fields ≡ some x) ↔ IsGood (lookup n vals) x)
    × ((c : AssetClassDef) × (lookup "battery" model.asset_classes ≡ some c)
        × All (Declares c.points (some "input")) (keys expected.fields))
    × ((expected.quality ≡ good) ↔ All CanCount (values vals))
    × (expected.tag ≡ ("asset_class", "battery"))
build_aggregate_point-canonical_example =
    build_aggregate_point-canonical model "site-1" "battery" vals expected (refl, (refl, tt))
      is_built
