-- ===== src/Hil/ClosedLoop.antt =====
-- hil/chil_runner.py: the control loop closed over the plant in one process. A stimulus gives the uses
-- of the site for a time. The time of a cycle (`(i + 1) * update_period`), its faults, which the
-- caller switches between cycles, and its measured duration are arguments; the recorded series is left
-- out. `none` is an exception.
pub mod Steady
mod Tests
use edge_ems.Prelude.{
  Bool, true, false, Option, none, some, List, [], ◌∷◌, String, listed, if◌then◌else◌, ◌>>=◌,
}
use edge_ems.Prelude.Dict.{Dict}
use edge_ems.Float.{Float, ◌+◌, ◌-◌, ◌*◌, eqb, max}
use edge_ems.Common.Points.{PointValue, Quality, good, stale, comm_fail}
use edge_ems.Hil.Plant.{Math}
use edge_ems.Hil.Site.{SiteModel, step, points, apply_setpoint}
use edge_ems.Hil.Site.History.{Use, after}
use edge_ems.Controller.Loop.{ControlLoop, Message, Outcome, run_once}
use edge_ems.Controller.Loop.Inputs.{Snapshot}

pub record Faults : Type 0 where
  pub stale_inputs : Bool
  pub battery_comm_fail : Bool
  pub dropped_classes : List String

-- `PlantInTheLoop`
pub record Plant (F : Type 0) : Type 0 where
  pub site : SiteModel F
  pub update_period : F
  pub last_ts : F

abbrev pub quality : Faults → Quality
quality f = if f.stale_inputs then stale else good

module _ {F : Type 0} ⦃d : Float F⦄ where
  abbrev pub tagged : Quality → F → Dict F → Dict (PointValue F)
  tagged q now [] = []
  tagged q now ((k, v) ∷ ps) =
      (k, record { value = some v; ts = now; quality = q }) ∷ tagged q now ps

  -- an aggregate, unless its class is dropped
  abbrev pub aggregate :
      Faults
      → String
      → Quality
      → F
      → Dict F
      → Dict (Dict (PointValue F))
      → Dict (Dict (PointValue F))
  aggregate f asset_class q now ps rest =
      if listed asset_class f.dropped_classes then rest else (asset_class, tagged q now ps) ∷ rest

  abbrev pub elapsed : Plant F → F → F
  elapsed p now = if eqb p.last_ts d.nought then p.update_period else now - p.last_ts

  -- `build_loop` hands over `_write_control`, which appends to the series and returns
  abbrev pub wired : ControlLoop F → ControlLoop F
  wired l = record l { write_control = some (λ fields now. true) }

  module _ (m : Math F) where
    -- the plant a period later, and what the controller sees of it
    unfoldable pub read_snapshot : Faults → Plant F → F → Option (Plant F × Snapshot F)
    read_snapshot f p now = do
      site ← step m (max d.nought (elapsed p now)) p.site
      bp ← points m site "battery"
      pp ← points m site "pv"
      pcc ← points m site "pcc"
      let q = quality f
      let bq = if f.battery_comm_fail then comm_fail else q
      some (
        record p { site = site; last_ts = now },
        record {
          aggregates = aggregate f "battery" bq now bp (aggregate f "pv" q now pp []);
          pcc = tagged q now pcc;
        },
      )

    abbrev pub apply_values : String → Dict F → SiteModel F → SiteModel F
    apply_values asset_class [] s = s
    apply_values asset_class ((point, value) ∷ vs) s =
        apply_values asset_class vs (apply_setpoint asset_class point value s)

    -- `_publish` of each message, in order
    abbrev pub publish_all : List (Message F) → SiteModel F → SiteModel F
    publish_all [] s = s
    publish_all (msg ∷ msgs) s = publish_all msgs (apply_values msg.asset_class msg.setpoints s)

    -- one round of `run`
    unfoldable pub round :
        List (Use F) → Faults → Plant F → ControlLoop F → F → F → Option (Plant F × ControlLoop F)
    round stimulus f p l now dur = do
      site ← after m stimulus p.site
      seen ← read_snapshot f (record p { site = site }) now
      let (l', result) = run_once (wired l) seen.1 now dur
      out ← result
      some (record (seen.0) { site = publish_all out.messages (seen.0).site }, l')

    -- the rounds of `run`: the time of a cycle, its faults and its duration are given
    abbrev pub rounds :
        (F → SiteModel F → List (Use F))
        → F
        → List (F × Faults × F)
        → Plant F
        → ControlLoop F
        → Option (Plant F × ControlLoop F)
    rounds stimulus sim_t [] p l = some (p, l)
    rounds stimulus sim_t ((now, f, dur) ∷ rest) p l = do
      next ← round (stimulus sim_t p.site) f p l now dur
      rounds stimulus (sim_t + p.update_period) rest next.0 next.1
