-- ===== src/Common/ConfigManager.antt =====
-- packages/common/src/common/config_manager.py: the active configuration over its two files. The
-- expansion of the environment's variables and the parsing by pydantic are arguments that may raise
-- (`none`); the files are a dictionary from paths to documents. An operation gives back whether it
-- returned: `false` is an exception, with the state that it leaves.
pub mod Loading
use edge_ems.Prelude.{
  Bool, true, false, Option, none, some, List, [], ◌∷◌, String, is_empty, is_some, if◌then◌else◌,
  ◌>>=◌,
}
use edge_ems.Prelude.Dict.{Dict, lookup, insert}
use edge_ems.Float.{Float}
use edge_ems.Common.DataModel.{DataModel}
use edge_ems.Common.Config.{AssetConfigFile, validate_asset_config}
use edge_ems.Common.Config.Ems.{EdgeEmsConfigFile, EmsError, validate_edge_ems_config}

pub record Reading (D : Type 0) (F : Type 0) : Type 0 where
  pub expand : D → Option D
  pub parse_assets : D → Option (AssetConfigFile F)
  pub parse_ems : D → Option (EdgeEmsConfigFile F)

-- the keys of the two files, or any other
pub data Which : Type 0 where
  assets ems other : Which

pub record ConfigManager (F : Type 0) : Type 0 where
  pub dm : DataModel
  pub asset_path : String
  pub ems_path : String
  pub asset_config : Option (AssetConfigFile F)
  pub ems_config : Option (EdgeEmsConfigFile F)

module _ {D : Type 0} {F : Type 0} ⦃d : Float F⦄ (b : Reading D F) where
  -- a document that parses and has no errors
  unfoldable pub checked_assets : DataModel → D → Option (AssetConfigFile F)
  checked_assets dm raw = do
    cfg ← b.parse_assets raw
    if is_empty (validate_asset_config dm cfg) then some cfg else none

  abbrev pub without_errors : Option (List EmsError) → Bool
  without_errors none = false
  without_errors (some errors) = is_empty errors

  unfoldable pub checked_ems : DataModel → D → Option (EdgeEmsConfigFile F)
  checked_ems dm raw = do
    cfg ← b.parse_ems raw
    if without_errors (validate_edge_ems_config dm cfg) then some cfg else none

  -- the file with its variables expanded
  abbrev pub read_raw : Dict D → String → Option D
  read_raw files path = do text ← lookup path files; b.expand text

  abbrev pub load_assets : Dict D → ConfigManager F → Option (AssetConfigFile F)
  load_assets files m = do raw ← read_raw files m.asset_path; checked_assets m.dm raw

  abbrev pub load_ems : Dict D → ConfigManager F → Option (EdgeEmsConfigFile F)
  load_ems files m = do raw ← read_raw files m.ems_path; checked_ems m.dm raw

  unfoldable pub reload_assets : Dict D → ConfigManager F → ConfigManager F × Bool
  reload_assets files m = elim (load_assets files m) [
    | none ↦ (m, false)
    | some cfg ↦ (record m { asset_config = some cfg }, true)
  ]

  unfoldable pub reload_ems : Dict D → ConfigManager F → ConfigManager F × Bool
  reload_ems files m = elim (load_ems files m) [
    | none ↦ (m, false)
    | some cfg ↦ (record m { ems_config = some cfg }, true)
  ]

  -- The site's file is swapped in before the other is read.
  unfoldable pub reload : Dict D → ConfigManager F → ConfigManager F × Bool
  reload files m =
      let (m', ok) = reload_assets files m in if ok then reload_ems files m' else (m', false)

  unfoldable pub new : Dict D → DataModel → String → String → ConfigManager F × Bool
  new files dm asset_path ems_path = reload files (record {
    dm = dm;
    asset_path = asset_path;
    ems_path = ems_path;
    asset_config = none;
    ems_config = none;
  })

  -- whether `_validate` returns
  unfoldable pub validate : Which → D → ConfigManager F → Bool
  validate assets raw m = is_some (checked_assets m.dm raw)
  validate ems raw m = is_some (checked_ems m.dm raw)
  validate other raw m = false

  abbrev pub persist : Which → D → Dict D → ConfigManager F → Dict D × (ConfigManager F × Bool)
  persist assets raw files m =
      let files' = insert m.asset_path raw files in (files', reload_assets files' m)
  persist ems raw files m =
      let files' = insert m.ems_path raw files in (files', reload_ems files' m)
  persist other raw files m = (files, (m, false))

  unfoldable pub update : Which → D → Dict D → ConfigManager F → Dict D × (ConfigManager F × Bool)
  update which raw files m =
      if validate which raw m then persist which raw files m else (files, (m, false))
