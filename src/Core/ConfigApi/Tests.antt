-- ===== src/Core/ConfigApi/Tests.antt =====
-- A document that drops an asset, put while the loop of the controller cannot be reached, and while it
-- runs.
use edge_ems.Prelude.{◌≡◌, refl, Option, some, List, [], ◌∷◌, ℕ}
use edge_ems.Float.Milli.{milli}
use edge_ems.Common.ConfigManager.{validate, checked_assets}
use edge_ems.Common.Config.{validate_asset_config}
use edge_ems.Controller.ConfigClient.Tests.{reading, files, manager}
use edge_ems.Controller.HttpApi as HttpApi
use edge_ems.Core.ConfigApi.{Pair, raised, refused, put_assets}

abbrev fewer : ℕ → Option (List Pair)
fewer n = some (("pcc-1", "pcc") ∷ [])

unreachable : (put_assets reading fewer (some raised) 1 files manager).1.1 ≡ refused "unknown"
unfolding put_assets validate checked_assets validate_asset_config
unreachable = refl
