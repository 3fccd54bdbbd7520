-- ===== src/Core/ConfigApi/Gate.antt =====
-- No structural change is applied while the loop runs, by either service.
use edge_ems.Prelude.{◌≡◌, ◌⊎◌, ◌↔◌, Bool, true, Option, some, List, String}
use edge_ems.Prelude.Dict.{Dict, lookup}
use edge_ems.Float.{Float}
use edge_ems.Common.Config.{AssetConfigFile}
use edge_ems.Common.ConfigManager.{Reading, assets, ConfigManager, load_assets, validate}
use edge_ems.Core.ConfigApi.{Pair, active_pairs, Response, applied, invalid, refused}
use edge_ems.Core.ConfigApi.Pairs.{Names}
use edge_ems.Controller.HttpApi as HttpApi

module _ {D : Type 0} {F : Type 0} ⦃d : Float F⦄ (b : Reading D F)
    (read_pairs : D → Option (List Pair)) where
  -- The submitted document names the same assets, each with the same class, as the active
  -- configuration.
  abbrev pub KeepsAssets : D → ConfigManager F → Type 0
  KeepsAssets raw m =
      (new : List Pair) × (read_pairs raw ≡ some new)
      × ((p : Pair) → Names p new ↔ Names p (active_pairs m.asset_config))

  -- What an answer says: the document stands in the file and what the file loads is active, or nothing
  -- has changed.
  abbrev pub Answers : D → Dict D → ConfigManager F → Dict D × (ConfigManager F × Response) → Type 0
  Answers raw files m (files', (m', r)) =
      ((structural : Bool)
        → r ≡ applied structural
        → (validate b assets raw m ≡ true)
          × (lookup m.asset_path files' ≡ some raw)
          × ((cfg : AssetConfigFile F) × (load_assets b files' m ≡ some cfg)
              × (m' ≡ record m { asset_config = some cfg })))
      × (r ≡ invalid → (files' ≡ files) × (m' ≡ m))
      × ((state : String) → r ≡ refused state → (files' ≡ files) × (m' ≡ m))

  -- Whatever is applied either met the condition or keeps the assets.
  abbrev pub Gated : D → ConfigManager F → Response → Type 0 → Type 0
  Gated raw m r Allowed = (s : Bool) → r ≡ applied s → Allowed ⊎ KeepsAssets raw m
