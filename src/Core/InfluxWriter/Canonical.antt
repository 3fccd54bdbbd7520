-- ===== src/Core/InfluxWriter/Canonical.antt =====
-- What a record of the database holds.
use edge_ems.Prelude.{
  ◌≡◌, refl, sym, ap, ◌∙◌, inl, inr, ◌↔◌, Bool-cases, true, false, Option-cases, some, List, [],
  ◌∷◌, String, str_eq, eq_iff, arith, All, length, suc, if◌then◌else◌,
}
use edge_ems.Prelude.Dict.{Dict, lookup, contains, lookup_absent, keys, values, IsDict}
use Prim.Native.Nat.{◌<◌}
use edge_ems.Float.{Float}
use edge_ems.Common.Points.{PointValue, good, comm_fail, IsGood}
use edge_ems.Common.DataModel.{DataModel, AssetClassDef, validate_fields}
use edge_ems.Common.DataModel.Fields.{Declares, validate_fields_iff}
use edge_ems.Core.Aggregator.{good_value}
use edge_ems.Core.Aggregator.Sources.{good_value_iff}
use edge_ems.Core.InfluxWriter.{
  Record, built, good_points, field_values, same_length, build, build_aggregate_point,
}

same_length_iff :
    {A B : Type 0} (xs : List A) (ys : List B)
    → (same_length xs ys ≡ true) ↔ (length xs ≡ length ys)
same_length_iff [] [] = (λ e. refl, λ e. refl)
same_length_iff [] (y ∷ ys) = (λ e. absurd (ground arith), λ e. absurd (ground arith))
same_length_iff (x ∷ xs) [] = (λ e. absurd (ground arith), λ e. absurd (ground arith))
same_length_iff (x ∷ xs) (y ∷ ys) =
    let ih = same_length_iff xs ys in (λ e. ground (arith, ih.0), λ e. ground (arith, ih.1))

module _ {F : Type 0} where
  -- The point is GOOD and has a value.
  abbrev pub CanCount : PointValue F → Type 0
  CanCount pv = (v : F) × IsGood (some pv) v

  length-good_points :
      (ps : Dict (PointValue F))
      → (length (good_points ps) < suc (length ps))
        × ((length (good_points ps) ≡ length ps) ↔ All CanCount (values ps))
  length-good_points [] = (omega arith, (λ e. tt, λ h. refl))
  length-good_points ((k, pv) ∷ ps) =
      let ih = length-good_points ps in
      elim (Option-cases (good_value (some pv))) [
        | inl e ↦ (
          ground (arith, ih.0),
          (
            λ x. absurd (ground (arith, ih.0)),
            λ h. absurd (ground (arith, (good_value_iff (some pv) h.0.0).1 h.0.1)),
          ),
        )
        | inr (v, e) ↦ (
          ground (arith, ih.0),
          (
            λ x. ((v, (good_value_iff (some pv) v).0 e), ih.1.0 (ground arith)),
            λ h. ground (arith, ih.1.1 h.1),
          ),
        )
      ]

  absent-field_values :
      (n : String) (ps : Dict (PointValue F))
      → contains n ps ≡ false
      → contains n (field_values (good_points ps)) ≡ false
  absent-field_values n [] h = refl
  absent-field_values n ((k, pv) ∷ ps) h =
      let ih = absent-field_values n ps (ground arith) in
      elim (Option-cases (good_value (some pv))) [
        | inl e ↦ ground (arith, ih)
        | inr (v, e) ↦ ground (arith, ih)
      ]

  lookup-field_values :
      (n : String) (ps : Dict (PointValue F))
      → IsDict ps
      → lookup n (field_values (good_points ps)) ≡ good_value (lookup n ps)
  lookup-field_values n [] v = refl
  lookup-field_values n ((k, pv) ∷ ps) (fresh, v) =
      let ih = lookup-field_values n ps v in
      let gone = lookup_absent k (field_values (good_points ps)) (absent-field_values k ps fresh) in
      elim (Bool-cases (str_eq k n)) [
        | inl same ↦ elim (Option-cases (good_value (some pv))) [
          | inl e ↦ ground (arith, gone, (eq_iff k n).0 same)
          | inr (x, e) ↦ ground (arith, (eq_iff k n).0 same)
        ]
        | inr other ↦ elim (Option-cases (good_value (some pv))) [
          | inl e ↦ ground (arith, ih)
          | inr (x, e) ↦ ground (arith, ih)
        ]
      ]

  keys-field_values : (ps : Dict (F × F)) → keys (field_values ps) ≡ keys ps
  keys-field_values [] = refl
  keys-field_values ((n, (v, ts)) ∷ ps) = ap (λ ks. n ∷ ks) (keys-field_values ps)

module _ {F : Type 0} ⦃d : Float F⦄ where
  build-built :
      {E : Type 0} (m : String) (tag : String × String) (site : String) (vs : Dict (PointValue F))
      (ps : Dict (F × F)) (errors : List E) (r : Record F)
      → build m tag site vs ps errors ≡ built r
      → (errors ≡ [])
        × (r.fields ≡ field_values ps)
        × (r.quality ≡ (if same_length ps vs then good else comm_fail))
        × (r.tag ≡ tag)
  build-built m tag site vs [] errors r e = absurd (ground arith)
  build-built m tag site vs (p ∷ ps) (x ∷ errors) r e = absurd (ground arith)
  build-built m tag site vs ((n, (v, ts)) ∷ ps) [] r e =
      (refl, ground arith, ground arith, ground arith)

  -- A record of the `aggregate` measurement has exactly the GOOD values of its class, each under the
  -- name of an input point of the class in the data model; its quality is GOOD when all points given
  -- are GOOD and have a value, and COMM_FAIL otherwise. No point is given twice.
  pub build_aggregate_point-canonical :
      (dm : DataModel) (site asset_class : String) (vs : Dict (PointValue F)) (r : Record F)
      → IsDict vs
      → build_aggregate_point dm site asset_class vs ≡ built r
      → ((n : String) (x : F) → (lookup n r.fields ≡ some x) ↔ IsGood (lookup n vs) x)
        × ((c : AssetClassDef) × (lookup asset_class dm.asset_classes ≡ some c)
            × All (Declares c.points (some "input")) (keys r.fields))
        × ((r.quality ≡ good) ↔ All CanCount (values vs))
        × (r.tag ≡ ("asset_class", asset_class))
  unfolding build_aggregate_point
  build_aggregate_point-canonical dm site k vs r v e =
      let ps = good_points vs in
      let (clean, fields, quality, tag) =
        build-built "aggregate" ("asset_class", k) site vs ps
          (validate_fields dm k (keys ps) (some "input")) r e in
      let (c, known, names) = (validate_fields_iff dm k (keys ps) (some "input")).0 clean in
      let same = same_length_iff ps vs in
      let count = (length-good_points vs).1 in
      (
        λ n x.
            let own = ap (lookup n) fields ∙ lookup-field_values n vs v in
            let counts = good_value_iff (lookup n vs) x in
            (λ e. counts.0 (sym own ∙ e), λ h. own ∙ counts.1 h),
        (c, known, rw (fields, keys-field_values ps) names),
        (λ g. count.0 (same.0 (ground arith)), λ h. ground (arith, same.1 (count.1 h))),
        tag,
      )
