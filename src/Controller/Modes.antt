-- ===== src/Controller/Modes.antt =====
-- packages/controller/src/controller/modes.py: the RUN -> HOLD -> SAFE ladder above the control core.
-- Time is a parameter of `update`, as in the source; `none` from `new` is the ValueError. A reason is
-- one of the source's six texts; the formatted one carries its number.
pub mod Ladder
pub mod Ramp
pub mod Tests
use edge_ems.Prelude.{
  Bool, true, false, not, Option, none, some, if◌then◌else◌, or_else, List, [], ◌∷◌,
}
use edge_ems.Float.{Float, ◌+◌, ◌-◌, ◌*◌, leb, ltb, min, max}

pub data Mode : Type 0 where
  run hold safe : Mode

pub data Reason (F : Type 0) : Type 0 where
  battery_unavailable data_is_fresh stale_data holding_last remaining_in_safe : Reason F
  hold_exceeded : F → Reason F

pub record ModeDecision (F : Type 0) : Type 0 where
  pub mode : Mode
  pub changed : Bool
  pub reason : Reason F

pub record ModeController (F : Type 0) : Type 0 where
  pub hold_max_s : F
  pub mode : Mode
  pub hold_since : Option F

-- `==` of the enum
abbrev pub mode_eq : Mode → Mode → Bool
mode_eq run run = true
mode_eq hold hold = true
mode_eq safe safe = true
mode_eq _ _ = false

module _ {F : Type 0} ⦃d : Float F⦄ where
  unfoldable pub new : F → Mode → Option (ModeController F)
  new hold_max mode =
      if ltb hold_max d.nought
      then none
      else some (record { hold_max_s = hold_max; mode = mode; hold_since = none })

  -- the branch for stale data with the battery present
  abbrev pub stale_update : ModeController F → F → Mode → ModeController F × Reason F
  stale_update c now run = (record c { mode = hold; hold_since = some now }, stale_data)
  stale_update c now hold =
      let held = now - or_else c.hold_since now in
      if leb c.hold_max_s held
      then (record c { mode = safe; hold_since = none }, hold_exceeded c.hold_max_s)
      else (c, holding_last)
  stale_update c now safe = (c, remaining_in_safe)

  abbrev pub next_mode : ModeController F → Bool → Bool → F → ModeController F × Reason F
  next_mode c data_fresh battery_ok now =
      if not battery_ok
      then (record c { mode = safe; hold_since = none }, battery_unavailable)
      else if data_fresh
      then (record c { mode = run; hold_since = none }, data_is_fresh)
      else stale_update c now c.mode

  unfoldable pub update : ModeController F → Bool → Bool → F → ModeController F × ModeDecision F
  update c data_fresh battery_ok now =
      let (c', reason) = next_mode c data_fresh battery_ok now in
      (c', record { mode = c'.mode; changed = not (mode_eq c'.mode c.mode); reason = reason })

  -- the ramp to 0 kW in SAFE
  unfoldable pub safe_battery_setpoint : F → Option F → F → F
  safe_battery_setpoint last none period = d.nought
  safe_battery_setpoint last (some slew) period =
      let step = slew * period in
      if ltb d.nought last then max d.nought (last - step) else min d.nought (last + step)
