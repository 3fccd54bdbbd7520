-- ===== src/Common/Config/Assets.antt =====
-- What an asset configuration without errors is.
use edge_ems.Prelude.{
  ◌≡◌, ◌↔◌, ◌⊎◌, refl, sym, ◌∙◌, inl, inr, Bool-cases, true, false, Option-cases, some, List, [],
  ◌∷◌, ◌++◌, String, arith, map, All, listed, str_eq, eq_iff,
}
use edge_ems.Prelude.Dict.{lookup, keys}
use edge_ems.Common.DataModel.{DataModel, AssetClassDef}
use edge_ems.Common.Config.{
  AssetEntry, AssetConfigFile, ConfigError, version_errors, key_errors, control_errors,
  known_errors, class_errors, id_errors, assets_errors, validate_asset_config, unknown_limit,
  unknown_nominal,
}

append_empty : {A : Type 0} (xs ys : List A) → (xs ++ ys ≡ []) ↔ ((xs ≡ []) × (ys ≡ []))
append_empty [] ys = (λ e. (refl, e), λ h. h.1)
append_empty (x ∷ xs) ys = (λ e. absurd (ground arith), λ h. absurd (ground (arith, h.0)))

key_errors_iff :
    (error : String → ConfigError) (schema ks : List String)
    → (key_errors error schema ks ≡ []) ↔ All (λ k. listed k schema ≡ true) ks
key_errors_iff error schema [] = (λ e. tt, λ h. refl)
key_errors_iff error schema (k ∷ ks) =
    let ih = key_errors_iff error schema ks in
    (λ e. ground (arith, ih.0), λ h. ground (arith, ih.1))

All-parts :
    {A : Type 0} (P : A → Type 0) (xs ys : List A) → All P (xs ++ ys) ↔ (All P xs × All P ys)
All-parts P [] ys = (λ h. (tt, h), λ h. h.1)
All-parts P (x ∷ xs) ys =
    let ih = All-parts P xs ys in
    (λ h. let (l, r) = ih.0 h.1 in ((h.0, l), r), λ h. (h.0.0, ih.1 (h.0.1, h.1)))

version_errors_iff : (has wants : String) → (version_errors has wants ≡ []) ↔ (has ≡ wants)
version_errors_iff has wants =
    (λ e. (eq_iff has wants).0 (ground arith), λ e. rw ((eq_iff has wants).1 e) refl)

module _ {F : Type 0} where
  -- The class is known, the control is none or the class's, and every limit and nominal value is in
  -- the class's schemas.
  abbrev pub IsAllowed : DataModel → AssetEntry F → Type 0
  IsAllowed dm a =
      (c : AssetClassDef) × (lookup a.asset_class dm.asset_classes ≡ some c)
      × ((a.flexibility.control ≡ "none") ⊎ (a.flexibility.control ≡ c.control))
      × All (λ k. listed k c.limits_schema ≡ true) (keys a.limits)
      × All (λ k. listed k c.limits_schema ≡ true) (keys a.flexibility.limits)
      × All (λ k. listed k c.nominal_schema ≡ true) (keys a.nominal)

  -- No id stands twice.
  abbrev pub IsDistinct : List (AssetEntry F) → Type 0
  IsDistinct [] = Unit
  IsDistinct (a ∷ assets) = (listed a.id (map (λ b. b.id) assets) ≡ false) × IsDistinct assets

  abbrev IsNew : List String → List (AssetEntry F) → Type 0
  IsNew seen assets = All (λ a. listed a.id seen ≡ false) assets

  control_errors_iff :
      (a : AssetEntry F) (c : AssetClassDef)
      → (control_errors a c ≡ [])
        ↔ ((a.flexibility.control ≡ "none") ⊎ (a.flexibility.control ≡ c.control))
  control_errors_iff a c =
      let is_none = eq_iff a.flexibility.control "none" in
      let is_own = eq_iff a.flexibility.control c.control in
      elim (Bool-cases (str_eq a.flexibility.control "none")) [
        | inl e ↦ (λ _. inl (is_none.0 e), λ _. rw e refl)
        | inr e ↦ elim (Bool-cases (str_eq a.flexibility.control c.control)) [
          | inl f ↦ (λ _. inr (is_own.0 f), λ _. rw (e, f) refl)
          | inr f ↦ (
            λ h. absurd (ground arith),
            λ h. elim h [
              | inl g ↦ absurd (ground (arith, is_none.1 g))
              | inr g ↦ absurd (ground (arith, is_own.1 g))
            ],
          )
        ]
      ]

  -- The asset is one of the class `c`.
  abbrev IsOf : AssetEntry F → AssetClassDef → Type 0
  IsOf a c =
      ((a.flexibility.control ≡ "none") ⊎ (a.flexibility.control ≡ c.control))
      × All (λ k. listed k c.limits_schema ≡ true) (keys a.limits)
      × All (λ k. listed k c.limits_schema ≡ true) (keys a.flexibility.limits)
      × All (λ k. listed k c.nominal_schema ≡ true) (keys a.nominal)

  known_errors_iff : (a : AssetEntry F) (c : AssetClassDef) → (known_errors a c ≡ []) ↔ IsOf a c
  known_errors_iff a c =
      let limit = λ (key : String). unknown_limit a.id key a.asset_class in
      let nominal = λ (key : String). unknown_nominal a.id key a.asset_class in
      let limits = keys a.limits ++ keys a.flexibility.limits in
      let limit_iff = key_errors_iff limit c.limits_schema limits in
      let nominal_iff = key_errors_iff nominal c.nominal_schema (keys a.nominal) in
      let control_iff = control_errors_iff a c in
      let parts =
        All-parts (λ k. listed k c.limits_schema ≡ true) (keys a.limits)
          (keys a.flexibility.limits) in
      let inner =
        append_empty (key_errors limit c.limits_schema limits)
          (key_errors nominal c.nominal_schema (keys a.nominal)) in
      let outer = append_empty (control_errors a c) (
        key_errors limit c.limits_schema limits
        ++ key_errors nominal c.nominal_schema (keys a.nominal)) in
      (
        λ e.
            let (first, more) = outer.0 e in
            let (second, third) = inner.0 more in
            let (own, flexible) = parts.0 (limit_iff.0 second) in
            (control_iff.0 first, own, flexible, nominal_iff.0 third),
        λ (control, own, flexible, nominal'). outer.1 (
          control_iff.1 control,
          inner.1 (limit_iff.1 (parts.1 (own, flexible)), nominal_iff.1 nominal'),
        ),
      )

  class_errors_iff : (dm : DataModel) (a : AssetEntry F) → (class_errors dm a ≡ []) ↔ IsAllowed dm a
  class_errors_iff dm a = (
    λ e. elim (Option-cases (lookup a.asset_class dm.asset_classes)) [
      | inl u ↦ absurd (ground arith)
      | inr (c, u) ↦
          let same : class_errors dm a ≡ known_errors a c = rw (u, class_errors) refl in
          let (control, own, flexible, nominal) = (known_errors_iff a c).0 (sym same ∙ e) in
          (c, u, control, own, flexible, nominal)
    ],
    λ (c, u, control, own, flexible, nominal).
        let same : class_errors dm a ≡ known_errors a c = rw (u, class_errors) refl in
        same ∙ (known_errors_iff a c).1 (control, own, flexible, nominal),
  )

  id_errors_iff :
      (seen : List String) (a : AssetEntry F) → (id_errors seen a ≡ []) ↔ (listed a.id seen ≡ false)
  id_errors_iff seen a = (λ e. ground arith, λ e. rw e refl)

  -- the ids of the list are new after `x` too, and none is `x`
  IsNew-cons :
      (x : String) (seen : List String) (assets : List (AssetEntry F))
      → IsNew (x ∷ seen) assets ↔ ((listed x (map (λ b. b.id) assets) ≡ false) × IsNew seen assets)
  IsNew-cons x seen [] = (λ h. (refl, tt), λ h. tt)
  IsNew-cons x seen (a ∷ assets) =
      let ih = IsNew-cons x seen assets in
      let flip = eq_iff x a.id in
      let flop = eq_iff a.id x in
      (
        λ (h, hs). (ground (arith, ih.0 hs, flip, flop), (ground arith, (ih.0 hs).1)),
        λ (absent, (h, hs)). (ground (arith, flip, flop), ih.1 (ground (arith, flip, flop), hs)),
      )

  assets_errors_iff :
      (dm : DataModel) (seen : List String) (assets : List (AssetEntry F))
      → (assets_errors dm seen assets ≡ [])
        ↔ (IsNew seen assets × IsDistinct assets × All (IsAllowed dm) assets)
  assets_errors_iff dm seen [] = (λ e. (tt, tt, tt), λ h. refl)
  assets_errors_iff dm seen (a ∷ assets) =
      let ih = assets_errors_iff dm (a.id ∷ seen) assets in
      let new = IsNew-cons a.id seen assets in
      let outer =
        append_empty (id_errors seen a)
          (class_errors dm a ++ assets_errors dm (a.id ∷ seen) assets) in
      let inner = append_empty (class_errors dm a) (assets_errors dm (a.id ∷ seen) assets) in
      (
        λ e.
            let (first, more) = outer.0 e in
            let (second, third) = inner.0 more in
            let (news, distinct, allowed) = ih.0 third in
            let (other, rest) = new.0 news in
            (
              ((id_errors_iff seen a).0 first, rest),
              (other, distinct),
              ((class_errors_iff dm a).0 second, allowed),
            ),
        λ ((h, rest), (other, distinct), (ok, allowed)). outer.1 (
          (id_errors_iff seen a).1 h,
          inner.1 ((class_errors_iff dm a).1 ok, ih.1 (new.1 (other, rest), distinct, allowed)),
        ),
      )

  IsNew-nil : (assets : List (AssetEntry F)) → IsNew [] assets
  IsNew-nil [] = tt
  IsNew-nil (a ∷ assets) = (refl, IsNew-nil assets)

  -- An asset configuration has no errors exactly when its version is the data model's, no two assets
  -- have the same id, and each asset is of a known class, controlled not at all or as its class is,
  -- with limits and nominal values of its class's schemas only.
  pub validate_asset_config_iff :
      (dm : DataModel) (cfg : AssetConfigFile F)
      → (validate_asset_config dm cfg ≡ []) ↔ (
          (cfg.data_model_version ≡ dm.version)
          × IsDistinct cfg.assets
          × All (IsAllowed dm) cfg.assets)
  unfolding validate_asset_config
  validate_asset_config_iff dm cfg =
      let outer =
        append_empty (version_errors cfg.data_model_version dm.version)
          (assets_errors dm [] cfg.assets) in
      let version = version_errors_iff cfg.data_model_version dm.version in
      let assets = assets_errors_iff dm [] cfg.assets in
      (
        λ e.
            let (first, more) = outer.0 e in
            let (news, distinct, allowed) = assets.0 more in (version.0 first, distinct, allowed),
        λ (same, distinct, allowed).
            outer.1 (version.1 same, assets.1 (IsNew-nil cfg.assets, distinct, allowed)),
      )
