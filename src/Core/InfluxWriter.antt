-- ===== src/Core/InfluxWriter.antt =====
-- packages/core/src/core/influx_writer.py: from points to the records of the database. A record's
-- time is kept as the newest timestamp in seconds; `bad` is the ValueError. The database itself and
-- its client are outside.
pub mod Canonical
mod Tests
use edge_ems.Prelude.{
  Bool, true, false, ◌&&◌, ℕ, Option, none, some, List, [], ◌∷◌, String, length, is_some, is_empty,
  if◌then◌else◌,
}
use edge_ems.Prelude.Dict.{Dict, keys}
use edge_ems.Float.{Float, max}
use edge_ems.Common.Points.{PointValue, Quality, good, comm_fail}
use edge_ems.Common.DataModel.{DataModel, FieldError, validate_fields}
use edge_ems.Common.Conformity.{InfluxError, validate_influx_fields}
use edge_ems.Core.Aggregator.{good_value}

pub record Record (F : Type 0) : Type 0 where
  pub measurement : String
  pub tag : String × String  -- the tag beside `site_id` and `quality`
  pub site_id : String
  pub quality : Quality
  pub fields : Dict F
  pub ts : F

-- nothing to write, the ValueError with its errors, or a record
pub data Built (E F : Type 0) : Type 0 where
  nothing : Built E F
  bad : List E → Built E F
  built : Record F → Built E F

-- a good point: its value and timestamp
abbrev pub good_points : {F : Type 0} → Dict (PointValue F) → Dict (F × F)
good_points [] = []
good_points ((n, pv) ∷ ps) =
    let rest = good_points ps in
    elim (good_value (some pv)) [ none ↦ rest | some v ↦ (n, (v, pv.ts)) ∷ rest ]

abbrev pub field_values : {F : Type 0} → Dict (F × F) → Dict F
field_values [] = []
field_values ((n, (v, ts)) ∷ ps) = (n, v) ∷ field_values ps

abbrev pub same_length : {A B : Type 0} → List A → List B → Bool
same_length [] [] = true
same_length (_ ∷ xs) (_ ∷ ys) = same_length xs ys
same_length _ _ = false

module _ {F : Type 0} ⦃d : Float F⦄ where
  abbrev pub newest : F → Dict (F × F) → F
  newest acc [] = acc
  newest acc ((n, (v, ts)) ∷ ps) = newest (max acc ts) ps

  -- what both builders do once they have the good points and the errors
  abbrev pub build :
      {E : Type 0}
      → String
      → String × String
      → String
      → Dict (PointValue F)
      → Dict (F × F)
      → List E
      → Built E F
  build measurement tag site_id values [] errors = nothing
  build measurement tag site_id values ((n, (v, ts)) ∷ ps) (e ∷ errors) = bad (e ∷ errors)
  build measurement tag site_id values ((n, (v, ts)) ∷ ps) [] = built (record {
    measurement = measurement;
    tag = tag;
    site_id = site_id;
    quality = if same_length ((n, (v, ts)) ∷ ps) values then good else comm_fail;
    fields = field_values ((n, (v, ts)) ∷ ps);
    ts = newest ts ps;
  })

  unfoldable pub build_asset_point :
      DataModel → String → String → String → Dict (PointValue F) → Built InfluxError F
  build_asset_point dm site_id asset_class asset_id values =
      let kept = good_points values in
      build asset_class ("asset_id", asset_id) site_id values kept
        (validate_influx_fields asset_class (keys kept) dm)

  unfoldable pub build_aggregate_point :
      DataModel → String → String → Dict (PointValue F) → Built FieldError F
  build_aggregate_point dm site_id asset_class values =
      let kept = good_points values in
      build "aggregate" ("asset_class", asset_class) site_id values kept
        (validate_fields dm asset_class (keys kept) (some "input"))

-- the records of a cycle's batch, and their number
unfoldable pub write_cycle : {F : Type 0} → List (Option (Record F)) → List (Record F)
write_cycle [] = []
write_cycle (none ∷ points) = write_cycle points
write_cycle (some r ∷ points) = r ∷ write_cycle points
