-- ===== src/Common/ConfigManager/Loading.antt =====
-- What a load of the configuration files leaves active has no errors.
use edge_ems.Prelude.{
  ◌≡◌, refl, ap, ◌∙◌, subst, inl, inr, Bool-cases, true, Option, Option-cases, none, some, List, [],
  ◌∷◌, arith, is_empty,
}
use edge_ems.Prelude.Dict.{Dict}
use edge_ems.Float.{Float}
use edge_ems.Common.DataModel.{DataModel}
use edge_ems.Common.Config.{AssetConfigFile, validate_asset_config}
use edge_ems.Common.Config.Ems.{EdgeEmsConfigFile, EmsError, validate_edge_ems_config}
use edge_ems.Common.ConfigManager.{
  Reading, Which, assets, ems, other, ConfigManager, checked_assets, checked_ems, without_errors,
  load_assets, load_ems, reload_assets, reload_ems, reload, persist, read_raw,
}

empty_of : {A : Type 0} (xs : List A) → is_empty xs ≡ true → xs ≡ []
empty_of [] h = refl
empty_of (x ∷ xs) h = absurd (ground arith)

module _ {F : Type 0} ⦃d : Float F⦄ where
  -- Both configurations are there and have no errors.
  abbrev pub IsLive : ConfigManager F → Type 0
  IsLive m =
      ((a : AssetConfigFile F) × (m.asset_config ≡ some a) × (validate_asset_config m.dm a ≡ []))
      × ((e : EdgeEmsConfigFile F) × (m.ems_config ≡ some e)
          × (validate_edge_ems_config m.dm e ≡ some []))

  abbrev pub Keeps : ConfigManager F → ConfigManager F → Type 0
  Keeps m m' = IsLive m' × (m'.dm ≡ m.dm)

module _ {D : Type 0} {F : Type 0} ⦃d : Float F⦄ (b : Reading D F) where
  checked_assets_lem :
      (dm : DataModel) (raw : D) (a : AssetConfigFile F)
      → checked_assets b dm raw ≡ some a
      → validate_asset_config dm a ≡ []
  unfolding checked_assets
  checked_assets_lem dm raw a e = elim (Option-cases (b.parse_assets raw)) [
    | inl p ↦ absurd (ground arith)
    | inr (cfg, p) ↦ elim (Bool-cases (is_empty (validate_asset_config dm cfg))) [
      | inl ok ↦
          let same : cfg ≡ a = ground arith in
          subst (λ c. validate_asset_config dm c ≡ []) same
            (empty_of (validate_asset_config dm cfg) ok)
      | inr bad ↦ absurd (ground arith)
    ]
  ]

  no_errors : (r : Option (List EmsError)) → without_errors b r ≡ true → r ≡ some []
  no_errors none h = absurd (ground arith)
  no_errors (some errors) h = ap some (empty_of errors h)

  checked_ems_lem :
      (dm : DataModel) (raw : D) (e : EdgeEmsConfigFile F)
      → checked_ems b dm raw ≡ some e
      → validate_edge_ems_config dm e ≡ some []
  unfolding checked_ems
  checked_ems_lem dm raw a e = elim (Option-cases (b.parse_ems raw)) [
    | inl p ↦ absurd (ground arith)
    | inr (cfg, p) ↦ elim (Bool-cases (without_errors b (validate_edge_ems_config dm cfg))) [
      | inl ok ↦
          let same : cfg ≡ a = ground arith in
          subst (λ c. validate_edge_ems_config dm c ≡ some []) same
            (no_errors (validate_edge_ems_config dm cfg) ok)
      | inr bad ↦ absurd (ground arith)
    ]
  ]

  load_assets_lem :
      (files : Dict D) (m : ConfigManager F) (cfg : AssetConfigFile F)
      → load_assets b files m ≡ some cfg
      → validate_asset_config m.dm cfg ≡ []
  load_assets_lem files m cfg read = elim (Option-cases (read_raw b files m.asset_path)) [
    | inl r ↦ absurd (ground arith)
    | inr (raw, r) ↦ checked_assets_lem m.dm raw cfg (ground arith)
  ]

  load_ems_lem :
      (files : Dict D) (m : ConfigManager F) (cfg : EdgeEmsConfigFile F)
      → load_ems b files m ≡ some cfg
      → validate_edge_ems_config m.dm cfg ≡ some []
  load_ems_lem files m cfg read = elim (Option-cases (read_raw b files m.ems_path)) [
    | inl r ↦ absurd (ground arith)
    | inr (raw, r) ↦ checked_ems_lem m.dm raw cfg (ground arith)
  ]

  reload_assets-Keeps :
      (files : Dict D) (m : ConfigManager F) → IsLive m → Keeps m ((reload_assets b files m).0)
  unfolding reload_assets
  reload_assets-Keeps files m (a, e) = elim (Option-cases (load_assets b files m)) [
    | inl none_read ↦ rw (none_read, reload_assets) ((a, e), refl)
    | inr (cfg, read) ↦
        rw (read, reload_assets) (((cfg, refl, load_assets_lem files m cfg read), e), refl)
  ]

  reload_ems-Keeps :
      (files : Dict D) (m : ConfigManager F) → IsLive m → Keeps m ((reload_ems b files m).0)
  unfolding reload_ems
  reload_ems-Keeps files m (a, e) = elim (Option-cases (load_ems b files m)) [
    | inl none_read ↦ rw (none_read, reload_ems) ((a, e), refl)
    | inr (cfg, read) ↦
        rw (read, reload_ems) ((a, (cfg, refl, load_ems_lem files m cfg read)), refl)
  ]

  pub reload-Keeps :
      (files : Dict D) (m : ConfigManager F) → IsLive m → Keeps m ((reload b files m).0)
  unfolding reload
  reload-Keeps files m live =
      let (first, same) = reload_assets-Keeps files m live in
      let (second, same') = reload_ems-Keeps files ((reload_assets b files m).0) first in
      elim (Bool-cases ((reload_assets b files m).1)) [
        | inl ok ↦ rw ok (second, same' ∙ same)
        | inr failed ↦ rw failed (first, same)
      ]

  pub persist-Keeps :
      (which : Which) (raw : D) (files : Dict D) (m : ConfigManager F)
      → IsLive m
      → Keeps m ((persist b which raw files m).1.0)
  persist-Keeps assets raw files m live =
      reload_assets-Keeps (persist b assets raw files m).0 m live
  persist-Keeps ems raw files m live = reload_ems-Keeps (persist b ems raw files m).0 m live
  persist-Keeps other raw files m live = (live, refl)

  reload_both :
      (files : Dict D) (m m1 m2 : ConfigManager F)
      → reload_assets b files m ≡ (m1, true)
      → reload_ems b files m1 ≡ (m2, true)
      → reload b files m ≡ (m2, true)
  unfolding reload
  reload_both files m m1 m2 first second = rw (first, reload, second) refl

  pub reload_loaded :
      (files : Dict D) (m : ConfigManager F) (a : AssetConfigFile F) (e : EdgeEmsConfigFile F)
      → load_assets b files m ≡ some a
      → load_ems b files m ≡ some e
      → reload b files m ≡ (record m { asset_config = some a; ems_config = some e }, true)
  unfolding reload_assets reload_ems
  reload_loaded files m a e la le =
      reload_both files m (record m { asset_config = some a })
        (record m { asset_config = some a; ems_config = some e }) (rw (la, reload_assets) refl)
        (rw (le, reload_ems) refl)
