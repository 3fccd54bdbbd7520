-- ===== src/Controller/ConfigClient.antt =====
-- packages/controller/src/controller/config_client.py: the pull of the configuration from the core
-- into the local cache, and the watcher that pulls again and reloads. The core's answers are an
-- argument: `none` for an endpoint is a transport or parse error. Failing writes of the cache are not
-- modelled.
pub mod Keeping
pub mod Tests
use edge_ems.Prelude.{
  Bool, true, false, ◌&&◌, Option, none, some, List, [], ◌∷◌, String, str_append, if◌then◌else◌,
  ◌>>=◌,
}
use edge_ems.Prelude.Dict.{Dict, contains, insert}
use edge_ems.Float.{Float}
use edge_ems.Common.ConfigManager.{Reading, ConfigManager, reload}

-- cache filename and endpoint
abbrev pub targets : List (String × String)
targets =
    ("data_model.yaml", "/config/data_model")
    ∷ ("asset_config.yaml", "/config/assets")
    ∷ ("edge_ems_config.yaml", "/config/ems")
    ∷ []

module _ {D : Type 0} where
  abbrev pub all_cached : List (String × String) → Dict D → Bool
  all_cached [] files = true
  all_cached ((name, _) ∷ ts) files = contains name files && all_cached ts files

  abbrev pub fetch : (String → Option D) → String → List (String × String) → Option (Dict D)
  fetch get base [] = some []
  fetch get base ((name, endpoint) ∷ ts) = do
    data' ← get (str_append base endpoint)
    rest ← fetch get base ts
    some ((name, data') ∷ rest)

  abbrev pub write_files : Dict D → Dict D → Dict D
  write_files [] files = files
  write_files ((name, data') ∷ fetched) files = write_files fetched (insert name data' files)

  -- the cache after it, and whether it returned
  unfoldable pub sync : (String → Option D) → String → Dict D → Dict D × Bool
  sync get base files = elim (fetch get base targets) [
    | none ↦ (files, all_cached targets files)
    | some fetched ↦ (write_files fetched files, true)
  ]

module _ {D : Type 0} {F : Type 0} ⦃d : Float F⦄ (b : Reading D F) where
  -- `_resync`, whose exceptions its two callers catch
  unfoldable pub resync :
      (String → Option D) → String → Dict D × ConfigManager F → Dict D × ConfigManager F
  resync get base (files, m) =
      let (files', ok) = sync get base files in
      if ok then (files', (reload b files' m).0) else (files', m)
