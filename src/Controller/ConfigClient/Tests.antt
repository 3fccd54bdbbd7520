-- ===== src/Controller/ConfigClient/Tests.antt =====
-- Documents as numbers: 1 is the site's file, 2 the runtime file, everything else does not parse.
use edge_ems.Prelude.{
  ◌≡◌, refl, false, Option, none, some, List, [], ◌∷◌, ℕ, String, ◌==◌, if◌then◌else◌,
}
use edge_ems.Prelude.Int.{ℤ}
use edge_ems.Prelude.Dict.{Dict}
use edge_ems.Float.Milli.{milli}
use edge_ems.Common.Config.{AssetConfigFile, validate_asset_config}
use edge_ems.Common.Config.Ems.{EdgeEmsConfigFile}
use edge_ems.Common.Config.Tests.{site_model, site_file}
use edge_ems.Common.ConfigManager.{
  Reading, Which, ConfigManager, assets, load_assets, load_ems, validate, update, checked_assets,
  reload_assets,
}
use edge_ems.Common.ConfigManager.Loading.{Keeps}
use edge_ems.Controller.Build.Tests.{ems_file, ems_valid}
use edge_ems.Controller.ConfigClient.{targets, fetch, write_files, resync}
use edge_ems.Controller.ConfigClient.Keeping.{Event, submitted, signalled, after, config-after}

abbrev pub reading : Reading ℕ ℤ
reading = record {
  expand = λ n. some n;
  parse_assets = λ n. if n == 1 then some site_file else none;
  parse_ems = λ n. if n == 2 then some ems_file else none;
}

abbrev pub files : Dict ℕ
files = ("asset_config.yaml", 1) ∷ ("edge_ems_config.yaml", 2) ∷ []

abbrev pub manager : ConfigManager ℤ
manager = record {
  dm = site_model;
  asset_path = "asset_config.yaml";
  ems_path = "edge_ems_config.yaml";
  asset_config = some site_file;
  ems_config = some ems_file;
}

-- A broken document of the site, and a core that does not answer.
abbrev events : List (Event ℕ)
events = submitted assets 7 ∷ signalled (λ url. none) ∷ signalled (λ url. some 1) ∷ []

-- A variable whose value breaks the document: it passes as submitted and does not load from the file.
abbrev broken : Reading ℕ ℤ
broken = record reading { expand = λ n. some 7 }

put_breaks_file :
    update broken assets 1 (("asset_config.yaml", 3) ∷ []) manager
    ≡ (("asset_config.yaml", 1) ∷ [], (manager, false))
unfolding update validate checked_assets reload_assets validate_asset_config
put_breaks_file = refl

site_valid : validate_asset_config site_model site_file ≡ []
unfolding validate_asset_config
site_valid = refl

config-after_example :
    let (files', m') = after reading "http://core" events (files, manager) in
    Keeps manager m'
    × ((which : Which) (raw : ℕ)
        → validate reading which raw m' ≡ false
        → update reading which raw files' m' ≡ (files', (m', false)))
    × ((get : String → Option ℕ)
        → fetch get "http://core" targets ≡ none
        → (resync reading get "http://core" (files', m')).0 ≡ files')
    × ((get : String → Option ℕ) (fetched : Dict ℕ) (a : AssetConfigFile ℤ)
          (e : EdgeEmsConfigFile ℤ)
        → fetch get "http://core" targets ≡ some fetched
        → load_assets reading (write_files fetched files') m' ≡ some a
        → load_ems reading (write_files fetched files') m' ≡ some e
        → resync reading get "http://core" (files', m')
          ≡ (write_files fetched files', record m' { asset_config = some a; ems_config = some e }))
config-after_example =
    config-after reading "http://core" events files manager
      ((site_file, refl, site_valid), (ems_file, refl, ems_valid))
