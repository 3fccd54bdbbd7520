-- ===== src/Core/Orchestrator/Feeding.antt =====
-- What feeds the silence watchdog.
use edge_ems.Prelude.{
  ◌≡◌, refl, ap, ◌∙◌, sym, subst, inl, inr, Option, Option-cases, some, List, [], ◌∷◌, String,
  arith,
}
use edge_ems.Prelude.Dict.{Dict}
use edge_ems.Float.{Float}
use edge_ems.Common.Points.{PointValue}
use edge_ems.Common.Json.{Json}
use edge_ems.Core.Adapter.{Devices}
use edge_ems.Core.Dispatcher.{
  UnitLimits, Dispatch, bad_payload, failed, Message, passed, guard, dispatch, report, rejection,
  stale_seq,
}
use edge_ems.Core.Dispatcher.Replay as Replay
use edge_ems.Core.Orchestrator.{
  Orchestrator, battery_unit_limits, read_all, poll_cycle, handle_setpoint, safety_cycle, feed,
}

-- What happens to the orchestrator: a poll with what its devices read, a payload, a safety cycle.
pub data Event (F : Type 0) : Type 0 where
  polled : (String → List String → Option (Dict (PointValue F))) → F → Event F
  received : Json F → F → Event F
  guarded : F → Event F

module _ {F : Type 0} ⦃d : Float F⦄ where
  dispatcher-feed :
      (o : Orchestrator F) (out : Dispatch F) (now : F) → (feed o out now).dispatcher ≡ o.dispatcher
  dispatcher-feed o bad_payload now = refl
  dispatcher-feed o (failed done message) now = refl
  dispatcher-feed o (report r) now = ground arith

  module _ (show : Json F → String) (parse_ts : String → Option F) (devices : Devices F) where
    -- the orchestrator after some events, newest first
    unfoldable pub after : Orchestrator F → List (Event F) → Orchestrator F
    after o [] = o
    after o (polled read_points clock ∷ h) = (poll_cycle read_points (after o h) clock).0
    after o (received payload now ∷ h) =
        (handle_setpoint show parse_ts devices (after o h) payload now).0
    after o (guarded now ∷ h) = (safety_cycle devices (after o h) now).0

    -- A poll leaves the dispatcher alone, whether or not it raises.
    dispatcher-poll_cycle :
        (read_points : String → List String → Option (Dict (PointValue F))) (o : Orchestrator F)
        (clock : F)
        → (poll_cycle read_points o clock).0.dispatcher ≡ o.dispatcher
    unfolding poll_cycle
    dispatcher-poll_cycle read_points o clock =
        elim (Option-cases (read_all read_points o.input_points)) [
          | inl raised ↦ rw (raised, poll_cycle) refl
          | inr (readings, kept) ↦ rw (kept, poll_cycle) refl
        ]

    -- The dispatcher has seen only the payloads among the events.
    dispatcher-after :
        (o : Orchestrator F) (h : List (Event F))
        → (seen : List (Json F × Option (Dict (UnitLimits F)) × F)) × ((after o h).dispatcher
            ≡ Replay.after show parse_ts devices o.dispatcher seen)
    unfolding after Replay.after poll_cycle handle_setpoint safety_cycle
    dispatcher-after o [] = ([], refl)
    dispatcher-after o (polled read_points clock ∷ h) =
        let (seen, e) = dispatcher-after o h in
        (seen, dispatcher-poll_cycle read_points (after o h) clock ∙ e)
    dispatcher-after o (guarded now ∷ h) = dispatcher-after o h
    dispatcher-after o (received payload now ∷ h) =
        let (seen, e) = dispatcher-after o h in
        let limits = some (battery_unit_limits (after o h)) in
        let (s, out) = dispatch show parse_ts devices (after o h).dispatcher payload limits now in
        (
          (payload, limits, now) ∷ seen,
          dispatcher-feed (record (after o h) { dispatcher = s }) out now
              ∙ ap (λ x. (dispatch show parse_ts devices x payload limits now).0) e,
        )

    handle_setpoint-stale :
        (o : Orchestrator F) (payload : Json F) (later : F)
        → dispatch show parse_ts devices o.dispatcher payload (some (battery_unit_limits o)) later
          ≡ (o.dispatcher, report (rejection stale_seq))
        → handle_setpoint show parse_ts devices o payload later ≡ (o, report (rejection stale_seq))
    unfolding handle_setpoint
    handle_setpoint-stale o payload later e = rw (e, handle_setpoint) refl

    -- A payload feeds the watchdog at most once: after one that passes the guard, and any polls, also
    -- those that raise, payloads and safety cycles, the same payload is refused as stale, and neither
    -- the watchdog nor anything else of the orchestrator changes. A sender that only repeats itself
    -- cannot keep the safe state away.
    pub handle_setpoint-once :
        (o : Orchestrator F) (payload : Json F) (now : F) (m : Message F)
        → guard show parse_ts o.dispatcher payload now ≡ passed m
        → (h : List (Event F)) (later : F)
        → let o' = after (handle_setpoint show parse_ts devices o payload now).0 h in
          handle_setpoint show parse_ts devices o' payload later
          ≡ (o', report (rejection stale_seq))
    unfolding handle_setpoint
    handle_setpoint-once o payload now m e h later =
        let limits = some (battery_unit_limits o) in
        let (s, out) = dispatch show parse_ts devices o.dispatcher payload limits now in
        let o' = after (handle_setpoint show parse_ts devices o payload now).0 h in
        let (arrivals, seen) =
          dispatcher-after (handle_setpoint show parse_ts devices o payload now).0 h in
        let same : o'.dispatcher ≡ Replay.after show parse_ts devices s arrivals =
          seen
          ∙ ap (λ x. Replay.after show parse_ts devices x arrivals)
              (dispatcher-feed (record o { dispatcher = s }) out now) in
        handle_setpoint-stale o' payload later (
          subst
            (λ x.
              dispatch show parse_ts devices x payload (some (battery_unit_limits o')) later
              ≡ (x, report (rejection stale_seq)))
            (sym same)
            (Replay.dispatch-once show parse_ts devices o.dispatcher payload limits now m e arrivals
              (some (battery_unit_limits o')) later))
