-- ===== src/Core/Watchdog.antt =====
-- packages/core/src/core/watchdog.py: the setpoint-silence watchdog. `none` from `new` is the
-- ValueError; the devices' answers are an argument; a trip gives back each write that it made, in
-- order, with its result.
pub mod Episodes
pub mod Trip
pub mod Tests
use edge_ems.Prelude.{
  Bool, true, false, not, ◌||◌, Option, none, some, List, [], ◌∷◌, String, str_eq, is_empty,
  if◌then◌else◌, or_else,
}
use edge_ems.Prelude.Int.{ℤ, pos, ltb_ℤ}
use edge_ems.Prelude.Dict.{Dict, lookup, insert, contains}
use edge_ems.Float.{Float, ◌-◌, ◌*◌, leb, ltb}
use edge_ems.Core.Adapter.{WriteResult, Answer, wrote, raised, Devices}

pub record Watchdog (F : Type 0) : Type 0 where
  pub adapters : List String  -- the asset ids that have an adapter
  pub classes : Dict String
  pub timeout_s : F
  pub safe : Dict (Dict F)
  pub last_setpoint_ts : Option F
  pub tripped : Bool

module _ {F : Type 0} ⦃d : Float F⦄ where
  unfoldable pub default_safe_setpoints : Dict (Dict F)
  default_safe_setpoints =
      (
        "battery",
        ("active_power_setpoint_kw", d.nought) ∷ ("reactive_power_setpoint_kvar", d.nought) ∷ [],
      )
      ∷ ("flexible_load", ("derate_factor_setpoint", d.nought) ∷ [])
      ∷ []

  unfoldable pub new :
      List String → Dict String → F → ℤ → Option (Dict (Dict F)) → Option (Watchdog F)
  new adapters classes period_s max_silence_cycles safe_setpoints =
      if leb period_s d.nought
      then none
      else if ltb_ℤ max_silence_cycles (pos 1)
      then none
      else some (record {
        adapters = adapters;
        classes = classes;
        timeout_s = period_s * d.of_int max_silence_cycles;
        safe =
            let given = or_else safe_setpoints [] in
            if is_empty given then default_safe_setpoints else given;
        last_setpoint_ts = none;
        tripped = false;
      })

  unfoldable pub notify : Watchdog F → F → Watchdog F
  notify w now = record w { last_setpoint_ts = some now; tripped = false }

  unfoldable pub start : Watchdog F → F → Watchdog F
  start w now = record w { last_setpoint_ts = some now; tripped = false }

  unfoldable pub is_silent : Watchdog F → F → Bool
  is_silent w now = elim w.last_setpoint_ts [
    | none ↦ false
    | some last ↦ ltb w.timeout_s (now - last)
  ]

-- `aid in adapters`
abbrev pub has_adapter : List String → String → Bool
has_adapter [] aid = false
has_adapter (a ∷ rest) aid = str_eq a aid || has_adapter rest aid

-- an exception is recorded and does not stop the others
abbrev pub recorded : Answer → WriteResult
recorded (wrote r) = r
recorded (raised text) = record { ok = false; errors = ("exception", text) ∷ [] }

module _ {F : Type 0} where
  -- the write for one asset, if it has safe setpoints and an adapter
  unfoldable pub safe_write : Devices F → Watchdog F → String → String → Option WriteResult
  safe_write devices w aid asset_class = elim (lookup asset_class w.safe) [
    | none ↦ none
    | some setpoints ↦
        if is_empty setpoints
        then none
        else if has_adapter w.adapters aid
        then some (recorded (devices aid setpoints))
        else none
  ]

  unfoldable pub trip_from : Devices F → Watchdog F → Dict String → Dict WriteResult
  trip_from devices w [] = []
  trip_from devices w ((aid, asset_class) ∷ rest) =
      let later = trip_from devices w rest in
      elim (safe_write devices w aid asset_class) [ none ↦ later | some r ↦ (aid, r) ∷ later ]

  unfoldable pub trip : Devices F → Watchdog F → Dict WriteResult
  trip devices w = trip_from devices w w.classes

module _ {F : Type 0} ⦃d : Float F⦄ where
  -- the new state, whether this call tripped, and the writes it made
  unfoldable pub check : Devices F → Watchdog F → F → Watchdog F × Bool × Dict WriteResult
  check devices w now =
      if w.tripped || not (is_silent w now)
      then (w, false, [])
      else (record w { tripped = true }, true, trip devices w)
