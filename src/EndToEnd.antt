-- ===== src/EndToEnd.antt =====
-- From the controller's publication of a setpoint to the core's dispatch of it:
-- packages/controller/src/controller/data_connector.py and
-- packages/core/src/core/dispatcher.py.
mod Tests
use edge_ems.Prelude.{
  ◌≡◌, refl, sym, ◌∙◌, ap, inl, inr, Bool, Bool-cases, true, false, Option, Option-cases,
  list_cases, none, some, List, [], ◌∷◌, String, suc, arith, or_else, is_empty, eq_iff, str_eq,
  if◌then◌else◌,
}
use edge_ems.Prelude.Int.{ℤ, pos, negsuc, leb_ℤ}
use edge_ems.Prelude.Dict.{Dict, lookup, insert, lookup-insert}
use edge_ems.Float.{Float, ◌-◌, ltb}
use edge_ems.Common.Json.{Json, text, numbers}
use edge_ems.Common.Conformity.{validate_setpoint_payload, setpoint_topic}
use edge_ems.Core.Adapter.{Devices}
use edge_ems.Core.Dispatcher.{
  Dispatcher, UnitLimits, Message, guard, guard_message, read_message, passed, Dispatch, dispatch,
  deliver, units_of, report, rejection, no_units, write_plan, plan,
}
use edge_ems.Controller.DataConnector.{
  Publisher, Published, refused, crashed, returned, setpoint_fields, payload, advance, stamp, send,
  flush_pending, publish_setpoints,
}

module _ {F : Type 0} ⦃d : Float F⦄ where
  numbers-setpoint_fields : (sp : Dict F) → numbers (setpoint_fields sp) ≡ sp
  numbers-setpoint_fields [] = refl
  numbers-setpoint_fields ((k, v) ∷ sp) = ap (λ r. (k, v) ∷ r) (numbers-setpoint_fields sp)

  abbrev pub sent_message : {B : Type 0} → Publisher B → String → Dict F → String → Message F
  sent_message p asset_class setpoints ts = record {
    site = text p.site_id;
    ts = text ts;
    seq = pos p.seq;
    asset_class = asset_class;
    setpoints = setpoint_fields setpoints;
  }

  -- what the core does with setpoints that it accepts
  abbrev pub delivery :
      Devices F → Dispatcher F → String → Option (Dict (UnitLimits F)) → Dict F → Dispatch F
  delivery devices s asset_class limits setpoints =
      let uids = units_of asset_class s.classes in
      if is_empty uids
      then report (rejection (no_units asset_class))
      else write_plan devices (plan asset_class limits uids setpoints)

  deliver-sent_message :
      {B : Type 0} (devices : Devices F) (s : Dispatcher F) (p : Publisher B)
      (asset_class ts : String) (setpoints : Dict F) (limits : Option (Dict (UnitLimits F)))
      → deliver devices s (sent_message p asset_class setpoints ts) limits
        ≡ delivery devices s asset_class limits setpoints
  deliver-sent_message devices s p asset_class ts setpoints limits =
      ap (λ sp. delivery devices s asset_class limits sp) (numbers-setpoint_fields setpoints)

-- How a message that passed its checks goes out.
send-outcome :
    {B : Type 0} (accepts : String → B → Bool) (p : Publisher B) (topic : String) (body : B)
    (b : Bool)
    → (send accepts p topic body).1 ≡ returned b
    → (b ≡ true
        → (rest : List (String × B)) × ((send accepts p topic body).2 ≡ (topic, body) ∷ rest))
      × (b ≡ false
          → ((send accepts p topic body).2 ≡ [])
            × (lookup topic (send accepts p topic body).0.pending ≡ some body))
unfolding send
send-outcome accepts p topic body b e = elim (Bool-cases (accepts topic body)) [
  | inl takes ↦ (λ yes. ((flush_pending accepts p).1, rw takes refl), λ no. absurd (ground arith))
  | inr fails ↦ (
    λ yes. absurd (ground arith),
    λ no.
        rw fails
          (refl, ground (arith, lookup-insert topic topic body p.pending, eq_iff topic topic)),
  )
]

module _ {F B : Type 0} ⦃d : Float F⦄ (show : Json F → String) (isoformat : F → String)
    (parse_ts : String → Option F) (dumps : Json F → B) (loads : B → Option (Json F)) where
  guard-payload :
      (p : Publisher B) (s : Dispatcher F) (asset_class : String) (setpoints : Dict F)
      (t seen now : F)
      → validate_setpoint_payload show p.dm (payload p asset_class setpoints (isoformat t))
        ≡ some []
      → s.dm ≡ p.dm
      → s.site_id ≡ p.site_id
      → parse_ts (isoformat t) ≡ some seen
      → ltb s.max_age_s (now - seen) ≡ false
      → leb_ℤ (pos p.seq) (or_else (lookup asset_class s.last_seq) (negsuc 0)) ≡ false
      → guard show parse_ts s (payload p asset_class setpoints (isoformat t)) now
        ≡ passed (sent_message p asset_class setpoints (isoformat t))
  unfolding guard
  guard-payload p s asset_class setpoints t seen now v dm site parses young fresh =
      let conforms : validate_setpoint_payload show s.dm
            (payload p asset_class setpoints (isoformat t))
          ≡ some [] =
        ap (λ m. validate_setpoint_payload show m (payload p asset_class setpoints (isoformat t)))
          dm
        ∙ v in
      let same : str_eq p.site_id s.site_id ≡ true = ground (arith, eq_iff p.site_id s.site_id) in
      ground (arith, conforms, same)

  publish_setpoints-conforms :
      (accepts : String → B → Bool) (p0 : Publisher B) (asset_class : String) (setpoints : Dict F)
      (now : Option F) (clock : F) (b : Bool)
      → (publish_setpoints show isoformat dumps accepts p0 asset_class setpoints now clock).1
        ≡ returned b
      → validate_setpoint_payload show p0.dm
          (payload (advance p0) asset_class setpoints (isoformat (stamp now clock)))
        ≡ some []
  unfolding publish_setpoints
  publish_setpoints-conforms accepts p0 asset_class setpoints now clock b e =
      let checked =
        validate_setpoint_payload show p0.dm
          (payload (advance p0) asset_class setpoints (isoformat (stamp now clock))) in
      elim (Option-cases checked) [
        | inl v ↦ absurd (ground arith)
        | inr (es, v) ↦ elim (list_cases es) [
          | inl c ↦ v ∙ ap some c
          | inr (x, xs, c) ↦ absurd (ground arith)
        ]
      ]

  publish_setpoints-eq-send :
      (accepts : String → B → Bool) (p0 : Publisher B) (asset_class : String) (setpoints : Dict F)
      (now : Option F) (clock : F)
      → let message = payload (advance p0) asset_class setpoints (isoformat (stamp now clock)) in
        validate_setpoint_payload show p0.dm message ≡ some []
        → publish_setpoints show isoformat dumps accepts p0 asset_class setpoints now clock
          ≡ send accepts (advance p0) (setpoint_topic p0.site_id asset_class) (dumps message)
  unfolding publish_setpoints
  publish_setpoints-eq-send accepts p0 asset_class setpoints now clock v =
      rw (v, publish_setpoints) refl

  -- The two ends of the topic agree. When a publication does not raise, its message is sent first,
  -- or waits for its topic if the broker does not take it. Whatever reads that message back with
  -- the same data model and site, within the maximal age of the time that it reads in the
  -- timestamp, and with no later number of its class behind it, dispatches it: the number is recorded,
  -- and what is delivered is the very setpoints that were published. Assumed are that decoding gives
  -- back the message that was encoded, and that the text written for the time can be read; the time
  -- read may differ from the time written, which is rounded to a microsecond.
  pub publish-dispatch :
      (accepts : String → B → Bool) (p0 : Publisher B) (asset_class : String) (setpoints : Dict F)
      (now : Option F) (clock : F) (b : Bool)
      → (publish_setpoints show isoformat dumps accepts p0 asset_class setpoints now clock).1
        ≡ returned b
      → (devices : Devices F) (s : Dispatcher F) (limits : Option (Dict (UnitLimits F)))
        (seen later : F)
      → (let sent = payload (advance p0) asset_class setpoints (isoformat (stamp now clock)) in
          loads (dumps sent) ≡ some sent)
      → parse_ts (isoformat (stamp now clock)) ≡ some seen
      → s.dm ≡ p0.dm
      → s.site_id ≡ p0.site_id
      → ltb s.max_age_s (later - seen) ≡ false
      → leb_ℤ (pos (suc p0.seq)) (or_else (lookup asset_class s.last_seq) (negsuc 0)) ≡ false
      → let (p, _, sent) =
          publish_setpoints show isoformat dumps accepts p0 asset_class setpoints now clock in
        let topic = setpoint_topic p0.site_id asset_class in
        (body : B) × (message : Json F) × (b ≡ true
          → (rest : List (String × B)) × (sent ≡ (topic, body) ∷ rest))
        × (b ≡ false → (sent ≡ []) × (lookup topic p.pending ≡ some body))
        × (loads body ≡ some message)
        × (dispatch show parse_ts devices s message limits later ≡ (
          record s { last_seq = insert asset_class (pos (suc p0.seq)) s.last_seq },
          delivery devices s asset_class limits setpoints,
        ))
  unfolding publish_setpoints dispatch
  publish-dispatch accepts p0 asset_class setpoints now clock b e devices s limits seen later trips
        parses dm site young fresh =
      let p = advance p0 in
      let t = stamp now clock in
      let message = payload p asset_class setpoints (isoformat t) in
      let v = publish_setpoints-conforms accepts p0 asset_class setpoints now clock b e in
      let g = guard-payload p s asset_class setpoints t seen later v dm site parses young fresh in
      let topic = setpoint_topic p0.site_id asset_class in
      let whole = publish_setpoints-eq-send accepts p0 asset_class setpoints now clock v in
      let out = send-outcome accepts p topic (dumps message) b (ap (λ r. r.1) (sym whole) ∙ e) in
      (
        dumps message,
        message,
        rw whole out.0,
        rw whole out.1,
        trips,
        rw (g, dispatch)
            (ap (λ r. (record s { last_seq = insert asset_class (pos (suc p0.seq)) s.last_seq }, r))
              (deliver-sent_message devices s p asset_class (isoformat t) setpoints limits)),
      )
