-- ===== src/Controller/HttpApi.antt =====
-- packages/controller/src/controller/http_api.py: the loop handle and the handlers that change a state.
-- The handlers of the configuration share the manager with the core's.
use edge_ems.Prelude.{Bool, true, false, not, ◌&&◌, Option, List, if◌then◌else◌}
use edge_ems.Prelude.Dict.{Dict}
use edge_ems.Float.{Float}
use edge_ems.Common.ConfigManager.{Reading, assets, ConfigManager, validate, update}
use edge_ems.Core.ConfigApi.{Pair, Response, invalid, refused, is_structural_change, respond}

-- the state of `LoopHandle`
pub data LoopState : Type 0 where
  running stopped : LoopState

abbrev pub is_running : LoopState → Bool
is_running running = true
is_running stopped = false

-- `start` and `stop`: the new state, and whether it changed
abbrev pub start : LoopState → LoopState × Bool
start running = (running, false)
start stopped = (running, true)

abbrev pub stop : LoopState → LoopState × Bool
stop running = (stopped, true)
stop stopped = (stopped, false)

module _ {D : Type 0} {F : Type 0} ⦃d : Float F⦄ (b : Reading D F)
    (read_pairs : D → Option (List Pair)) where
  -- The loop is asked before the document is validated.
  unfoldable pub put_assets :
      LoopState → D → Dict D → ConfigManager F → Dict D × (ConfigManager F × Response)
  put_assets loop raw files m =
      let structural = is_structural_change m (read_pairs raw) in
      if is_running loop && structural
      then (files, (m, refused "running"))
      else if not (validate b assets raw m)
      then (files, (m, invalid))
      else respond b read_pairs structural (update b assets raw files m)
