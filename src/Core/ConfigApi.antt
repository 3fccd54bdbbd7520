-- ===== src/Core/ConfigApi.antt =====
-- packages/core/src/core/config_api.py: the handlers of the configuration API. What the gate reads of a
-- submitted document is an argument (`none` where it is malformed), and so is the answer of the
-- controller about its loop. Hashes and notifications, which never fail a write, are left out.
pub mod Gate
pub mod Pairs
mod Tests
use edge_ems.Prelude.{
  Bool, true, false, not, ◌&&◌, ◌||◌, Option, none, some, List, [], ◌∷◌, String, str_eq, every,
  if◌then◌else◌,
}
use edge_ems.Prelude.Dict.{Dict}
use edge_ems.Float.{Float}
use edge_ems.Common.Config.{AssetEntry, AssetConfigFile}
use edge_ems.Common.ConfigManager.{Reading, Which, assets, ems, ConfigManager, validate, update}

-- the pair of an asset's id and class
abbrev pub Pair : Type 0
Pair = String × String

abbrev pub member : Pair → List Pair → Bool
member (i, c) [] = false
member (i, c) ((j, k) ∷ pairs) = (str_eq i j && str_eq c k) || member (i, c) pairs

-- `==` of two sets
abbrev pub same_set : List Pair → List Pair → Bool
same_set xs ys = every (λ x. member x ys) xs && every (λ y. member y xs) ys

-- how the question for the loop's state ends
pub data StateAnswer : Type 0 where
  raised : StateAnswer
  said : Option String → StateAnswer

abbrev pub confirmed_state : StateAnswer → String
confirmed_state raised = "unknown"
confirmed_state (said none) = "unknown"
confirmed_state (said (some state)) = if str_eq state "" then "unknown" else state

pub data Response : Type 0 where
  -- `structural` of an applied change
  applied : Bool → Response
  invalid : Response
  refused : String → Response
  failed : Response

module _ {F : Type 0} where
  abbrev pub pairs_of : List (AssetEntry F) → List Pair
  pairs_of [] = []
  pairs_of (a ∷ entries) = (a.id, a.asset_class) ∷ pairs_of entries

  abbrev pub active_pairs : Option (AssetConfigFile F) → List Pair
  active_pairs none = []
  active_pairs (some cfg) = pairs_of cfg.assets

  -- Asset added, removed or reclassified.
  abbrev pub is_structural_change : ConfigManager F → Option (List Pair) → Bool
  is_structural_change m none = true
  is_structural_change m (some new) = not (same_set new (active_pairs m.asset_config))

-- `state != "stopped"` where a provider is there
abbrev pub is_blocked : Bool → Option StateAnswer → Bool
is_blocked structural none = false
is_blocked structural (some answer) = structural && not (str_eq (confirmed_state answer) "stopped")

abbrev pub state_of : Option StateAnswer → String
state_of none = "unknown"
state_of (some answer) = confirmed_state answer

module _ {D : Type 0} {F : Type 0} ⦃d : Float F⦄ (b : Reading D F)
    (read_pairs : D → Option (List Pair)) where
  abbrev pub respond :
      Bool → Dict D × (ConfigManager F × Bool) → Dict D × (ConfigManager F × Response)
  respond structural (files, (m, ok)) = (files, (m, if ok then applied structural else failed))

  unfoldable pub put_assets :
      Option StateAnswer → D → Dict D → ConfigManager F → Dict D × (ConfigManager F × Response)
  put_assets loop_state raw files m =
      let structural = is_structural_change m (read_pairs raw) in
      if not (validate b assets raw m)
      then (files, (m, invalid))
      else if is_blocked structural loop_state
      then (files, (m, refused (state_of loop_state)))
      else respond structural (update b assets raw files m)

  unfoldable pub put_ems : D → Dict D → ConfigManager F → Dict D × (ConfigManager F × Response)
  put_ems raw files m =
      if not (validate b ems raw m)
      then (files, (m, invalid))
      else respond false (update b ems raw files m)
