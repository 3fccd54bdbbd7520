-- ===== src/Controller/Runtime.antt =====
-- packages/controller/src/controller/runtime.py: reading the live snapshot, and the runner of the
-- loop. The clocks, the rows of the queries and each cycle's snapshot (`none`: reading it raised) are
-- arguments. The thread is a sequence of ticks; a change of the target falls between two cycles, and
-- a stopped thread ends within the time that `stop` waits for it.
pub mod Target
mod Tests
use edge_ems.Prelude.{
  Bool, true, false, not, Option, none, some, List, [], ◌∷◌, ℕ, suc, String, is_empty,
  if◌then◌else◌,
}
use edge_ems.Prelude.Dict.{Dict, insert}
use edge_ems.Float.{Float, ◌+◌, ◌-◌, ltb}
use edge_ems.Common.Points.{PointValue}
use edge_ems.Common.DataModel.{DataModel, validate_fields}
use edge_ems.Controller.DataConnector.{Row, Reader, point_of, read}
use edge_ems.Controller.Loop.{ControlLoop, CycleResult, Outcome, value_of, run_once}
use edge_ems.Controller.Loop.Inputs.{Snapshot}

-- a row of the PCC query
pub record PccRow (F : Type 0) : Type 0 where
  pub fld : String
  pub value : F
  pub ts : F

pub record SnapshotReader (F : Type 0) : Type 0 where
  pub dm : DataModel
  pub agg : Reader F
  pub agg_classes : List String
  pub timeout_s : F

pub record LoopRunner (F : Type 0) : Type 0 where
  pub loop : ControlLoop F
  pub period_s : F
  pub running : Bool  -- the thread is there and alive
  pub stopping : Bool
  pub last : Option (CycleResult F)
  pub overruns : ℕ
  pub next_tick : F

-- `status`: the cycle's part is there once a cycle has ended
pub record Status (F : Type 0) : Type 0 where
  pub running : Bool
  pub overruns : ℕ
  pub pcc_setpoint_kw : F
  pub cycle : Option (CycleResult F)

module _ {F : Type 0} ⦃d : Float F⦄ where
  abbrev pub read_pcc :
      SnapshotReader F → F → Dict (PointValue F) → List (PccRow F) → Dict (PointValue F)
  read_pcc r now pcc [] = pcc
  read_pcc r now pcc (row ∷ rows) =
      read_pcc r now
        (if is_empty (validate_fields r.dm "pcc" (row.fld ∷ []) (some "input"))
          then insert row.fld (point_of r.timeout_s now row.value row.ts) pcc
          else pcc)
        rows

  unfoldable pub read_snapshot : SnapshotReader F → F → List (Row F) → List (PccRow F) → Snapshot F
  read_snapshot r now rows pcc_rows = record {
    aggregates = read r.agg r.agg_classes now rows;
    pcc = read_pcc r now [] pcc_rows;
  }

  unfoldable pub new : ControlLoop F → F → LoopRunner F
  new loop period_s = record {
    loop = loop;
    period_s = period_s;
    running = false;
    stopping = false;
    last = none;
    overruns = 0;
    next_tick = d.nought;
  }

  unfoldable pub set_pcc_setpoint_kw : LoopRunner F → F → LoopRunner F × F
  set_pcc_setpoint_kw r value =
      (record r { loop = record (r.loop) { pcc_setpoint_kw = value } }, value)

  -- the new thread takes its first tick from the monotonic clock
  unfoldable pub start : LoopRunner F → F → LoopRunner F × Bool
  start r clock =
      if r.running
      then (r, false)
      else (record r { stopping = false; running = true; next_tick = clock }, true)

  unfoldable pub stop : LoopRunner F → LoopRunner F × Bool
  stop r = if r.running then (record r { stopping = true; running = false }, true) else (r, false)

  unfoldable pub status : LoopRunner F → Status F
  status r = record {
    running = r.running;
    overruns = r.overruns;
    pcc_setpoint_kw = r.loop.pcc_setpoint_kw;
    cycle = r.last;
  }

  -- the cycle of a tick: an exception leaves the last result
  unfoldable pub cycle : LoopRunner F → Option (Snapshot F) → F → F → LoopRunner F
  cycle r none now dur_ms = r
  cycle r (some snap) now dur_ms =
      let (loop, out) = run_once r.loop snap now dur_ms in
      record r { loop = loop; last = elim (value_of out) [ none ↦ r.last | some c ↦ some c ] }

  -- the schedule of a tick, with the monotonic clock after the cycle and at a resync: the pause
  unfoldable pub schedule : LoopRunner F → F → F → LoopRunner F × F
  schedule r clock resync =
      let next_tick = r.next_tick + r.period_s in
      if ltb (next_tick - clock) d.nought
      then (record r { overruns = suc r.overruns; next_tick = resync }, d.nought)
      else (record r { next_tick = next_tick }, next_tick - clock)

  -- one round of `_run`; a stopped thread does no more
  unfoldable pub tick : LoopRunner F → Option (Snapshot F) → F → F → F → F → LoopRunner F × F
  tick r snap now dur_ms clock resync =
      if r.stopping then (r, d.nought) else schedule (cycle r snap now dur_ms) clock resync
