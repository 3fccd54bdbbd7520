-- ===== src/EndToEnd/Tests.antt =====
-- A setpoint from a controller to the units, in thousandths; a message is its own encoding.
use edge_ems.Prelude.{◌≡◌, refl, Bool, true, false, some, List, [], ◌∷◌, Option, String}
use edge_ems.Prelude.Int.{ℤ, pos}
use edge_ems.Prelude.Dict.{Dict, lookup, insert}
use edge_ems.Float.Milli.{milli}
use edge_ems.Common.Json.{Json}
use edge_ems.Common.Conformity.{validate_setpoint_payload, setpoint_topic}
use edge_ems.Common.DataModel.{validate_fields}
use edge_ems.Common.DataModel.Tests.{model}
use edge_ems.Core.Adapter.{Devices, wrote}
use edge_ems.Core.Dispatcher.{Dispatcher, UnitLimits, dispatch}
use edge_ems.Controller.DataConnector.{Publisher, returned, publish_setpoints, send}
use edge_ems.EndToEnd.{delivery, publish-dispatch}

abbrev show : Json ℤ → String
show _ = ""

abbrev isoformat : ℤ → String
isoformat _ = "1970-01-01T00:00:01.001000+00:00"

abbrev parse_ts : String → Option ℤ
parse_ts _ = some (pos 1001)

abbrev dumps : Json ℤ → Json ℤ
dumps j = j

abbrev loads : Json ℤ → Option (Json ℤ)
loads j = some j

abbrev accepts : String → Json ℤ → Bool
accepts _ _ = true

abbrev publisher : Publisher (Json ℤ)
publisher = record { dm = model; site_id = "site-1"; version = "1.0"; seq = 3; pending = [] }

abbrev dispatcher : Dispatcher ℤ
dispatcher = record {
  dm = model;
  site_id = "site-1";
  classes = ("bess-01", "battery") ∷ ("bess-02", "battery") ∷ [];
  max_age_s = pos 2000;
  last_seq = ("battery", pos 3) ∷ [];
}

abbrev devices : Devices ℤ
devices _ _ = wrote (record { ok = true; errors = [] })

abbrev setpoints : Dict ℤ
setpoints = ("active_power_setpoint_kw", pos 20000) ∷ []

abbrev limits : Option (Dict (UnitLimits ℤ))
limits = some (
    ("bess-01", record { charge_kw = pos 30000; discharge_kw = pos 30000 })
    ∷ ("bess-02", record { charge_kw = pos 10000; discharge_kw = pos 10000 })
    ∷ [])

is_sent :
    (publish_setpoints show isoformat dumps accepts publisher "battery" setpoints
      (some (pos 1000))
      (pos 0)).1
    ≡ returned true
unfolding publish_setpoints validate_setpoint_payload validate_fields send
is_sent = refl

publish-dispatch_example :
    let (p, _, sent) =
      publish_setpoints show isoformat dumps accepts publisher "battery" setpoints
        (some (pos 1000))
        (pos 0) in
    let topic = setpoint_topic "site-1" "battery" in
    (body : Json ℤ) × (message : Json ℤ) × (true ≡ true
      → (rest : List (String × Json ℤ)) × (sent ≡ (topic, body) ∷ rest))
    × (true ≡ false → (sent ≡ []) × (lookup topic p.pending ≡ some body))
    × (loads body ≡ some message)
    × (dispatch show parse_ts devices dispatcher message limits (pos 1500) ≡ (
      record dispatcher { last_seq = insert "battery" (pos 4) dispatcher.last_seq },
      delivery devices dispatcher "battery" limits setpoints,
    ))
publish-dispatch_example =
    publish-dispatch show isoformat parse_ts dumps loads accepts publisher "battery" setpoints
      (some (pos 1000)) (pos 0) true is_sent devices dispatcher limits (pos 1001) (pos 1500) refl
      refl refl refl refl refl
