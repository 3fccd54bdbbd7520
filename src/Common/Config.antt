-- ===== src/Common/Config.antt =====
-- packages/common/src/common/config_models.py: the configuration files and their checks against the
-- data model. A file is what pydantic has parsed: the shapes of its fields, patterns of ids, literals
-- and defaults are the library's part.
pub mod Assets
pub mod Ems
pub mod Tests
use edge_ems.Prelude.{
  Bool, not, ◌||◌, ◌&&◌, Option, none, some, List, [], ◌∷◌, ◌++◌, ℕ, String, str_eq, listed,
  is_empty, length, ◌==◌, if◌then◌else◌, ◌>>=◌,
}
use edge_ems.Prelude.Dict.{Dict, lookup, keys}
use edge_ems.Common.DataModel.{DataModel, AssetClassDef}

pub record Flexibility (F : Type 0) : Type 0 where
  pub control : String
  pub limits : Dict F

pub record CommConfig : Type 0 where
  pub protocol : String
  pub host : String
  pub port : ℕ
  pub unit_id : ℕ
  pub register_map : String

pub record SiteConfig (F : Type 0) : Type 0 where
  pub id : String
  pub name : String
  pub location : Option (F × F)

pub record AssetEntry (F : Type 0) : Type 0 where
  pub id : String
  pub name : String
  pub asset_class : String
  pub state : String
  pub flexibility : Flexibility F
  pub nominal : Dict F
  pub limits : Dict F
  pub comm : Option CommConfig

pub record AssetConfigFile (F : Type 0) : Type 0 where
  pub data_model_version : String
  pub site : SiteConfig F
  pub assets : List (AssetEntry F)

pub data ConfigError : Type 0 where
  version_mismatch : String → String → ConfigError
  duplicate_id : String → ConfigError
  unknown_class : String → String → ConfigError
  control_not_allowed : String → String → String → ConfigError
  unknown_limit : String → String → String → ConfigError
  unknown_nominal : String → String → String → ConfigError

abbrev pub version_errors : String → String → List ConfigError
version_errors has wants = if str_eq has wants then [] else version_mismatch has wants ∷ []

-- an error for each key that the schema does not have
abbrev pub key_errors : (String → ConfigError) → List String → List String → List ConfigError
key_errors error schema [] = []
key_errors error schema (key ∷ ks) =
    let rest = key_errors error schema ks in if listed key schema then rest else error key ∷ rest

module _ {F : Type 0} where
  abbrev pub control_errors : AssetEntry F → AssetClassDef → List ConfigError
  control_errors a c =
      if str_eq a.flexibility.control "none" || str_eq a.flexibility.control c.control
      then []
      else control_not_allowed a.id a.flexibility.control a.asset_class ∷ []

  -- the errors of an asset of the class `c`
  abbrev pub known_errors : AssetEntry F → AssetClassDef → List ConfigError
  known_errors a c =
      control_errors a c
      ++ (key_errors (λ key. unknown_limit a.id key a.asset_class) c.limits_schema
            (keys a.limits ++ keys a.flexibility.limits)
          ++ key_errors (λ key. unknown_nominal a.id key a.asset_class) c.nominal_schema
              (keys a.nominal))

  abbrev pub class_errors : DataModel → AssetEntry F → List ConfigError
  class_errors dm a = elim (lookup a.asset_class dm.asset_classes) [
    | none ↦ unknown_class a.id a.asset_class ∷ []
    | some c ↦ known_errors a c
  ]

  abbrev pub id_errors : List String → AssetEntry F → List ConfigError
  id_errors seen a = if listed a.id seen then duplicate_id a.id ∷ [] else []

  -- the loop over the assets, with its set `seen`
  abbrev pub assets_errors : DataModel → List String → List (AssetEntry F) → List ConfigError
  assets_errors dm seen [] = []
  assets_errors dm seen (a ∷ assets) =
      id_errors seen a ++ (class_errors dm a ++ assets_errors dm (a.id ∷ seen) assets)

  -- The errors; without any the file is taken as it is.
  unfoldable pub validate_asset_config : DataModel → AssetConfigFile F → List ConfigError
  validate_asset_config dm cfg =
      version_errors cfg.data_model_version dm.version ++ assets_errors dm [] cfg.assets

  -- the active assets of a class
  abbrev pub active : String → List (AssetEntry F) → List (AssetEntry F)
  active asset_class [] = []
  active asset_class (a ∷ assets) =
      let rest = active asset_class assets in
      if str_eq a.asset_class asset_class && str_eq a.state "active" then a ∷ rest else rest

  unfoldable pub has_one_pcc : AssetConfigFile F → Bool
  has_one_pcc cfg = length (active "pcc" cfg.assets) == 1

  unfoldable pub has_battery : AssetConfigFile F → Bool
  has_battery cfg = not (is_empty (active "battery" cfg.assets))

pub data Requirement : Type 0 where
  one_active_pcc : ℕ → Requirement
  an_active_battery : Requirement

module _ {F : Type 0} where
  unfoldable pub check_controller_requirements : AssetConfigFile F → List Requirement
  check_controller_requirements cfg =
      (if has_one_pcc cfg then [] else one_active_pcc (length (active "pcc" cfg.assets)) ∷ [])
      ++ (if has_battery cfg then [] else an_active_battery ∷ [])
