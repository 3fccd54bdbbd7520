-- ===== src/Core/Orchestrator.antt =====
-- packages/core/src/core/orchestrator.py: the core's cycle. What the devices read and answer, the
-- clock of the aggregator and the times are arguments. The order of the set of aggregated classes
-- is that of the data model. A read that raises (`none`) ends a poll before the readings are kept, any
-- other exception after that. A write of the records that raises leaves the state of a poll that
-- returns, and is left out.
pub mod Feeding
mod Tests
use edge_ems.Prelude.{
  Bool, true, false, Option, none, some, List, [], ◌∷◌, ◌++◌, String, str_eq, or_else, is_empty,
  every, if◌then◌else◌, ◌>>=◌,
}
use edge_ems.Prelude.Dict.{Dict, lookup, insert, keys, values}
use edge_ems.Float.{Float}
use edge_ems.Common.Points.{PointValue}
use edge_ems.Common.DataModel.{DataModel}
use edge_ems.Common.Json.{Json}
use edge_ems.Core.Adapter.{Devices, WriteResult}
use edge_ems.Core.Dispatcher.{UnitLimits, Dispatcher, Dispatch, report, dispatch}
use edge_ems.Core.Watchdog.{Watchdog, notify, check}
use edge_ems.Core.Aggregator.{aggregate_class}
use edge_ems.Core.InfluxWriter.{
  Record, Built, nothing, bad, built, build_asset_point, build_aggregate_point, write_cycle,
}

pub record Orchestrator (F : Type 0) : Type 0 where
  pub dm : DataModel
  pub site_id : String
  pub classes : Dict String
  pub input_points : Dict (List String)
  pub weights : Dict F
  pub dispatcher : Dispatcher F
  pub watchdog : Watchdog F
  pub latest : Dict (Dict (PointValue F))

module _ {F : Type 0} ⦃d : Float F⦄ where
  abbrev pub headroom : String → Dict (PointValue F) → F
  headroom name vals = elim (lookup name vals) [
    | none ↦ d.nought
    | some pv ↦ or_else pv.value d.nought
  ]

  abbrev pub limits_from :
      Dict (UnitLimits F) → Dict (Dict (PointValue F)) → Dict String → Dict (UnitLimits F)
  limits_from limits latest [] = limits
  limits_from limits latest ((aid, cls) ∷ classes) =
      let vals = or_else (lookup aid latest) [] in
      limits_from
        (if str_eq cls "battery"
          then insert aid
              (record {
                charge_kw = headroom "available_charge_power_kw" vals;
                discharge_kw = headroom "available_discharge_power_kw" vals;
              })
              limits
          else limits)
        latest classes

  unfoldable pub battery_unit_limits : Orchestrator F → Dict (UnitLimits F)
  battery_unit_limits o = limits_from [] o.latest o.classes

  -- `none` is an exception; a builder with nothing to write gives `none` as its point
  abbrev pub point_of : {E : Type 0} → Built E F → Option (Option (Record F))
  point_of nothing = some none
  point_of (bad errors) = none
  point_of (built r) = some (some r)

  abbrev pub also :
      Option (Option (Record F))
      → Option (List (Option (Record F)))
      → Option (List (Option (Record F)))
  also (some p) (some ps) = some (p ∷ ps)
  also _ _ = none

  abbrev pub asset_points :
      Orchestrator F → Dict (Dict (PointValue F)) → Option (List (Option (Record F)))
  asset_points o [] = some []
  asset_points o ((aid, vals) ∷ readings) =
      also
        (elim (lookup aid o.classes) [
          | none ↦ none
          | some cls ↦ point_of (build_asset_point o.dm o.site_id cls aid vals)
        ])
        (asset_points o readings)

  abbrev pub members_of :
      Dict String → String → Dict (Dict (PointValue F)) → Dict (Dict (PointValue F))
  members_of classes cls [] = []
  members_of classes cls ((aid, vals) ∷ readings) =
      let rest = members_of classes cls readings in
      if str_eq (or_else (lookup aid classes) "") cls then (aid, vals) ∷ rest else rest

  abbrev pub weights_of : Dict F → List String → Dict F
  weights_of weights [] = []
  weights_of weights (aid ∷ aids) =
      (aid, or_else (lookup aid weights) d.one) ∷ weights_of weights aids

  abbrev pub aggregate_points :
      Orchestrator F
      → Dict (Dict (PointValue F))
      → F
      → List String
      → Option (List (Option (Record F)))
  aggregate_points o readings clock [] = some []
  aggregate_points o readings clock (cls ∷ classes) =
      let rest = aggregate_points o readings clock classes in
      let members = members_of o.classes cls readings in
      if is_empty members
      then rest
      else also
          (elim (aggregate_class cls o.dm members (some (weights_of o.weights (keys members)))
            clock) [
              | none ↦ none
              | some agg ↦ point_of (build_aggregate_point o.dm o.site_id cls agg)
            ])
          rest

  -- `none` where a device raises
  abbrev pub read_all :
      (String → List String → Option (Dict (PointValue F)))
      → Dict (List String)
      → Option (Dict (Dict (PointValue F)))
  read_all read_points [] = some []
  read_all read_points ((aid, names) ∷ inputs) = do
    vals ← read_points aid names
    rest ← read_all read_points inputs
    some ((aid, vals) ∷ rest)

  abbrev pub records_of :
      Option (List (Option (Record F)))
      → Option (List (Option (Record F)))
      → Option (List (Record F))
  records_of (some assets) (some aggregates) = some (write_cycle (assets ++ aggregates))
  records_of _ _ = none

  -- what a poll does with its readings
  abbrev pub poll_readings :
      Dict (Dict (PointValue F)) → Orchestrator F → F → Orchestrator F × Option (List (Record F))
  poll_readings readings o clock =
      let o' = record o { latest = readings } in
      (
        o',
        records_of (asset_points o' readings)
            (aggregate_points o' readings clock (keys o.dm.aggregates)),
      )

  unfoldable pub poll_cycle :
      (String → List String → Option (Dict (PointValue F)))
      → Orchestrator F
      → F
      → Orchestrator F × Option (List (Record F))
  poll_cycle read_points o clock = elim (read_all read_points o.input_points) [
    | none ↦ (o, none)
    | some readings ↦ poll_readings readings o clock
  ]

  abbrev pub feed : Orchestrator F → Dispatch F → F → Orchestrator F
  feed o (report r) now = if r.accepted then record o { watchdog = notify o.watchdog now } else o
  feed o _ now = o

  unfoldable pub safety_cycle :
      Devices F → Orchestrator F → F → Orchestrator F × Bool × Dict WriteResult
  safety_cycle devices o now =
      let (w, tripped, writes) = check devices o.watchdog now in
      (record o { watchdog = w }, tripped, writes)

  module _ (show : Json F → String) (parse_ts : String → Option F) (devices : Devices F) where
    unfoldable pub handle_setpoint : Orchestrator F → Json F → F → Orchestrator F × Dispatch F
    handle_setpoint o payload now =
        let (s, out) =
          dispatch show parse_ts devices o.dispatcher payload (some (battery_unit_limits o)) now in
        (feed (record o { dispatcher = s }) out now, out)

unfoldable pub safe_state_results_ok : Dict WriteResult → Bool
safe_state_results_ok results = every (λ r. r.ok) (values results)
