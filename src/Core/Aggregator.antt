-- ===== src/Core/Aggregator.antt =====
-- packages/core/src/core/aggregator.py: one virtual asset for each class. `none` is the ValueError;
-- the clock is an argument; `sum` adds from left to right.
pub mod Sources
mod Tests
use edge_ems.Prelude.{
  Bool, true, false, ◌&&◌, Option, none, some, List, [], ◌∷◌, String, str_eq, str_ends_with, length,
  is_some, or_else, if◌then◌else◌,
}
use edge_ems.Prelude.Int.{pos}
use edge_ems.Prelude.Dict.{Dict, lookup, insert}
use edge_ems.Float.{Float, ◌+◌, ◌*◌, ◌/◌, eqb}
use edge_ems.Common.Points.{PointValue, good, comm_fail, quality_eq}
use edge_ems.Common.DataModel.{DataModel}

module _ {F : Type 0} where
  -- a value that counts: there, GOOD and not None
  abbrev pub good_value : Option (PointValue F) → Option F
  good_value none = none
  good_value (some pv) = if quality_eq pv.quality good then pv.value else none

module _ {F : Type 0} ⦃d : Float F⦄ where
  -- `zip(values, ws)`
  abbrev pub contributions : String → Option (Dict F) → Dict (Dict (PointValue F)) → List (F × F)
  contributions pname weights [] = []
  contributions pname weights ((asset_id, points) ∷ readings) =
      let rest = contributions pname weights readings in
      elim (good_value (lookup pname points)) [
        | none ↦ rest
        | some v ↦ (v, or_else (lookup asset_id (or_else weights [])) d.one) ∷ rest
      ]

  abbrev pub sum_by : (F × F → F) → F → List (F × F) → F
  sum_by f acc [] = acc
  sum_by f acc (x ∷ xs) = sum_by f (acc + f x) xs

  unfoldable pub aggregate_point : String → F → List (F × F) → PointValue F
  aggregate_point pname ts [] = record { value = none; ts = ts; quality = comm_fail }
  aggregate_point pname ts (x ∷ xs) =
      let pairs = x ∷ xs in
      record {
        value = some (
            if str_ends_with pname "_pct"
            then (let total_w = sum_by (λ p. p.1) d.nought pairs in
                sum_by (λ p. p.0 * p.1) d.nought pairs
                / (if eqb total_w d.nought then d.of_int (pos (length pairs)) else total_w))
            else sum_by (λ p. p.0) d.nought pairs);
        ts = ts;
        quality = good;
      }

  abbrev pub aggregate_points :
      F
      → Dict (Dict (PointValue F))
      → Option (Dict F)
      → Dict (PointValue F)
      → List String
      → Dict (PointValue F)
  aggregate_points ts readings weights out [] = out
  aggregate_points ts readings weights out (pname ∷ names) =
      aggregate_points ts readings weights
        (insert pname (aggregate_point pname ts (contributions pname weights readings)) out) names

  unfoldable pub aggregate_class :
      String
      → DataModel
      → Dict (Dict (PointValue F))
      → Option (Dict F)
      → F
      → Option (Dict (PointValue F))
  aggregate_class asset_class dm readings weights ts = elim (lookup asset_class dm.aggregates) [
    | none ↦ none
    | some names ↦ some (aggregate_points ts readings weights [] names)
  ]
