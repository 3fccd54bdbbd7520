-- ===== src/Common/DataModel.antt =====
-- packages/common/src/common/data_model.py: the canonical data model and its checks. Reading the YAML
-- file is not modelled; units, types and meta data of a point play no part in any check.
pub mod Fields
pub mod Tests
use edge_ems.Prelude.{
  Bool, true, false, not, ◌||◌, Option, none, some, List, [], ◌∷◌, ◌++◌, String, str_eq, keep,
  if◌then◌else◌,
}
use edge_ems.Prelude.Dict.{Dict, lookup, contains}

pub record PointDef : Type 0 where
  pub name : String
  pub unit_name : String
  pub type_name : String
  pub direction : String

pub record AssetClassDef : Type 0 where
  pub name : String
  pub control : String
  pub points : Dict PointDef
  pub limits_schema : List String
  pub nominal_schema : List String

pub record DataModel : Type 0 where
  pub version : String
  pub asset_classes : Dict AssetClassDef
  pub aggregates : Dict (List String)

pub data ModelError : Type 0 where
  unknown_aggregate : String → ModelError
  unknown_aggregate_point : String → String → ModelError
  invalid_direction : String → String → ModelError

pub data FieldError : Type 0 where
  unknown_class : String → FieldError
  unknown_field : String → String → FieldError

abbrev pub points_by_direction : String → Dict PointDef → Dict PointDef
points_by_direction direction [] = []
points_by_direction direction ((n, p) ∷ ps) =
    let rest = points_by_direction direction ps in
    if str_eq p.direction direction then (n, p) ∷ rest else rest

abbrev pub aggregate_errors : String → Dict PointDef → List String → List ModelError
aggregate_errors cname points [] = []
aggregate_errors cname points (f ∷ fields) =
    let rest = aggregate_errors cname points fields in
    if contains f points then rest else unknown_aggregate_point cname f ∷ rest

abbrev pub aggregates_errors : Dict AssetClassDef → Dict (List String) → List ModelError
aggregates_errors classes [] = []
aggregates_errors classes ((cname, fields) ∷ aggs) =
    let rest = aggregates_errors classes aggs in
    elim (lookup cname classes) [
      | none ↦ unknown_aggregate cname ∷ rest
      | some c ↦ aggregate_errors cname c.points fields ++ rest
    ]

abbrev pub direction_errors : String → Dict PointDef → List ModelError
direction_errors cname [] = []
direction_errors cname ((pname, p) ∷ ps) =
    let rest = direction_errors cname ps in
    if str_eq p.direction "input" || str_eq p.direction "output"
    then rest
    else invalid_direction cname pname ∷ rest

abbrev pub directions_errors : Dict AssetClassDef → List ModelError
directions_errors [] = []
directions_errors ((cname, c) ∷ cs) = direction_errors cname c.points ++ directions_errors cs

unfoldable pub self_check : DataModel → List ModelError
self_check dm =
    aggregates_errors dm.asset_classes dm.aggregates ++ directions_errors dm.asset_classes

abbrev pub allowed_points : AssetClassDef → Option String → Dict PointDef
allowed_points c none = c.points
allowed_points c (some direction) = points_by_direction direction c.points

abbrev pub unknown_fields : String → Dict PointDef → List String → List FieldError
unknown_fields cname allowed [] = []
unknown_fields cname allowed (f ∷ fields) =
    let rest = unknown_fields cname allowed fields in
    if contains f allowed then rest else unknown_field cname f ∷ rest

unfoldable pub validate_fields : DataModel → String → List String → Option String → List FieldError
validate_fields dm asset_class fields direction = elim (lookup asset_class dm.asset_classes) [
  | none ↦ unknown_class asset_class ∷ []
  | some c ↦ unknown_fields asset_class (allowed_points c direction) fields
]
