-- ===== src/Core/Aggregator/Sources.antt =====
-- Which readings an aggregate comes from.
use edge_ems.Prelude.{
  listed, ◌⊎◌, ◌↔◌, ◌≡◌, refl, ap, ◌∙◌, sym, inl, inr, Bool, Bool-cases, false, Option,
  Option-cases, none, some, List, [], ◌∷◌, String, str_eq, eq_iff, arith, All, is_some, is_empty,
  if◌then◌else◌,
}
use edge_ems.Prelude.Dict.{
  Dict, lookup, contains, lookup_absent, insert, lookup-insert, values, IsDict,
}
use edge_ems.Float.{Float}
use edge_ems.Common.Points.{PointValue, Quality, good, stale, comm_fail, quality_eq, IsGood}
use edge_ems.Common.DataModel.{DataModel}
use edge_ems.Core.Aggregator.{
  good_value, contributions, aggregate_point, aggregate_points, aggregate_class,
}

none_of : {V : Type 0} (o : Option V) → is_some o ≡ false → o ≡ none
none_of none h = refl
none_of (some v) h = absurd (ground arith)

module _ {F : Type 0} where
  -- The points of an asset without those that are not GOOD or have no value.
  abbrev pub is_kept : Quality → Option F → Bool
  is_kept good value = is_some value
  is_kept stale value = false
  is_kept comm_fail value = false

  abbrev pub only_good : Dict (PointValue F) → Dict (PointValue F)
  only_good [] = []
  only_good ((n, pv) ∷ ps) =
      let rest = only_good ps in if is_kept pv.quality pv.value then (n, pv) ∷ rest else rest

  abbrev pub all_good : Dict (Dict (PointValue F)) → Dict (Dict (PointValue F))
  all_good [] = []
  all_good ((aid, ps) ∷ rs) = (aid, only_good ps) ∷ all_good rs

  is_kept_lem : (pv : PointValue F) → is_some (good_value (some pv)) ≡ is_kept pv.quality pv.value
  is_kept_lem pv = by_quality pv.quality pv.value
    where
      by_quality :
          (q : Quality) (value : Option F)
          → is_some (if quality_eq q good then value else none) ≡ is_kept q value
      by_quality good value = refl
      by_quality stale value = refl
      by_quality comm_fail value = refl

  pub good_value_iff : (o : Option (PointValue F)) (v : F) → (good_value o ≡ some v) ↔ IsGood o v
  good_value_iff none v = (λ e. absurd (ground arith), λ h. absurd h)
  good_value_iff (some pv) v = (λ e. (ground arith, ground arith), λ (h, g). ground arith)

  absent-only_good :
      (n : String) (ps : Dict (PointValue F))
      → contains n ps ≡ false
      → contains n (only_good ps) ≡ false
  absent-only_good n [] h = refl
  absent-only_good n ((k, pv) ∷ ps) h =
      let ih = absent-only_good n ps (ground arith) in
      elim (Bool-cases (is_kept pv.quality pv.value)) [
        | inl kept ↦ rw kept ground (arith, ih)
        | inr dropped ↦ rw dropped ih
      ]

  good_value-only_good :
      (n : String) (ps : Dict (PointValue F))
      → IsDict ps
      → good_value (lookup n (only_good ps)) ≡ good_value (lookup n ps)
  good_value-only_good n [] v = refl
  good_value-only_good n ((k, pv) ∷ ps) (fresh, v) =
      let ih = good_value-only_good n ps v in
      let gone = lookup_absent k (only_good ps) (absent-only_good k ps fresh) in
      elim (Bool-cases (is_kept pv.quality pv.value)) [
        | inl kept ↦ rw kept ground (arith, ih)
        | inr dropped ↦ elim (Bool-cases (str_eq k n)) [
          | inl same ↦
              let e = (eq_iff k n).0 same in
              rw (dropped, same)
                (ap good_value (ap (λ m. lookup m (only_good ps)) (sym e) ∙ gone)
                  ∙ sym (none_of (good_value (some pv)) (is_kept_lem pv ∙ dropped)))
          | inr other ↦ rw (dropped, other) ih
        ]
      ]

module _ {F : Type 0} ⦃d : Float F⦄ where
  contributions-all_good :
      (pname : String) (weights : Option (Dict F)) (rs : Dict (Dict (PointValue F)))
      → All IsDict (values rs)
      → contributions pname weights (all_good rs) ≡ contributions pname weights rs
  contributions-all_good pname weights [] v = refl
  contributions-all_good pname weights ((aid, ps) ∷ rs) (v, vs) =
      ground (arith, good_value-only_good pname ps v, contributions-all_good pname weights rs vs)

  aggregate_points-all_good :
      (ts : F) (rs : Dict (Dict (PointValue F))) (weights : Option (Dict F))
      (out : Dict (PointValue F)) (names : List String)
      → All IsDict (values rs)
      → aggregate_points ts (all_good rs) weights out names
        ≡ aggregate_points ts rs weights out names
  aggregate_points-all_good ts rs weights out [] v = refl
  aggregate_points-all_good ts rs weights out (n ∷ names) v =
      rw (contributions-all_good n weights rs v) (
        aggregate_points-all_good ts rs weights
          (insert n (aggregate_point n ts (contributions n weights rs)) out) names v)

  -- Some asset has a GOOD value of the point.
  abbrev pub HasGood : String → Dict (Dict (PointValue F)) → Type 0
  HasGood pname [] = ⊥
  HasGood pname ((aid, ps) ∷ rs) = ((v : F) × IsGood (lookup pname ps) v) ⊎ HasGood pname rs

  contributions_iff :
      (pname : String) (weights : Option (Dict F)) (rs : Dict (Dict (PointValue F)))
      → (is_empty (contributions pname weights rs) ≡ false) ↔ HasGood pname rs
  contributions_iff pname weights [] = (λ e. ground arith, λ h. absurd h)
  contributions_iff pname weights ((aid, ps) ∷ rs) =
      let ih = contributions_iff pname weights rs in
      elim (Option-cases (good_value (lookup pname ps))) [
        | inl e ↦ (
          λ h. inr (ih.0 (ground arith)),
          λ h. elim h [
            | inl (v, g) ↦ absurd (ground (arith, (good_value_iff (lookup pname ps) v).1 g))
            | inr y ↦ ground (arith, ih.1 y)
          ],
        )
        | inr (v, e) ↦ (λ h. inl (v, (good_value_iff (lookup pname ps) v).0 e), λ h. ground arith)
      ]

  quality-aggregate_point :
      (pname : String) (ts : F) (pairs : List (F × F))
      → (aggregate_point pname ts pairs).quality ≡ (if is_empty pairs then comm_fail else good)
  unfolding aggregate_point
  quality-aggregate_point pname ts [] = refl
  quality-aggregate_point pname ts (x ∷ xs) = refl

  lookup-aggregate_points :
      (ts : F) (rs : Dict (Dict (PointValue F))) (weights : Option (Dict F))
      (out : Dict (PointValue F)) (names : List String) (n : String)
      → lookup n (aggregate_points ts rs weights out names) ≡ (
          if listed n names
          then some (aggregate_point n ts (contributions n weights rs))
          else lookup n out)
  lookup-aggregate_points ts rs weights out [] n = refl
  lookup-aggregate_points ts rs weights out (k ∷ names) n =
      let point = aggregate_point k ts (contributions k weights rs) in
      ground (
        arith,
        lookup-aggregate_points ts rs weights (insert k point out) names n,
        lookup-insert k n point out,
        eq_iff k n,
      )

  IsGood-point :
      (n : String) (ts : F) (weights : Option (Dict F)) (rs : Dict (Dict (PointValue F)))
      (pv : PointValue F)
      → aggregate_point n ts (contributions n weights rs) ≡ pv
      → ((pv.quality ≡ good) ↔ HasGood n rs) × ((pv.quality ≡ comm_fail) ↔ (¬ HasGood n rs))
  IsGood-point n ts weights rs pv e =
      let q : pv.quality ≡ (if is_empty (contributions n weights rs) then comm_fail else good) =
        ap (λ p. p.quality) (sym e) ∙ quality-aggregate_point n ts (contributions n weights rs) in
      let some_good = contributions_iff n weights rs in
      elim (Bool-cases (is_empty (contributions n weights rs))) [
        | inl none_left ↦ (
          (λ g. absurd (ground arith), λ h. absurd (ground (arith, some_good.1 h))),
          (λ c h. absurd (ground (arith, some_good.1 h)), λ h. ground arith),
        )
        | inr left ↦ (
          (λ g. some_good.0 left, λ h. ground arith),
          (λ c. absurd (ground arith), λ h. absurd (h (some_good.0 left))),
        )
      ]

  -- An aggregate has exactly the points that the data model lists for its class. A point is GOOD
  -- exactly when some asset has a GOOD value of it, and COMM_FAIL otherwise. Readings that are not
  -- GOOD or have no value change nothing. The readings of an asset name no point twice.
  pub aggregate_class-sources :
      (asset_class : String) (dm : DataModel) (rs : Dict (Dict (PointValue F)))
      (weights : Option (Dict F)) (ts : F)
      → All IsDict (values rs)
      → (aggregate_class asset_class dm (all_good rs) weights ts
          ≡ aggregate_class asset_class dm rs weights ts)
        × ((names : List String)
            → lookup asset_class dm.aggregates ≡ some names
            → (out : Dict (PointValue F)) × (aggregate_class asset_class dm rs weights ts
                ≡ some out)
              × ((n : String) → contains n out ≡ listed n names)
              × ((n : String) (pv : PointValue F)
                  → lookup n out ≡ some pv
                  → ((pv.quality ≡ good) ↔ HasGood n rs)
                    × ((pv.quality ≡ comm_fail) ↔ (¬ HasGood n rs))))
  unfolding aggregate_class
  aggregate_class-sources asset_class dm rs weights ts v = (
    elim (Option-cases (lookup asset_class dm.aggregates)) [
      | inl e ↦ rw (e, aggregate_class) refl
      | inr (names, e) ↦
          rw (e, aggregate_class) (ap some (aggregate_points-all_good ts rs weights [] names v))
    ],
    λ names e. (
      aggregate_points ts rs weights [] names,
      rw (e, aggregate_class) refl,
      λ n. ground (arith, lookup-aggregate_points ts rs weights [] names n),
      λ n pv h.
          IsGood-point n ts weights rs pv
            (ground (arith, lookup-aggregate_points ts rs weights [] names n)),
    ),
  )
