-- ===== src/Controller/Modes/Tests.antt =====
-- The ladder and the ramp at concrete inputs, in thousandths.
use edge_ems.Prelude.{◌≡◌, refl, ◌↔◌, true, false, some, none, [], ◌∷◌, List, Bool}
use edge_ems.Float.{◌≼◌, ltb}
use edge_ems.Prelude.Int.{ℤ, pos, negsuc}
use edge_ems.Float.Milli.{milli, milli-IsOrdered}
use edge_ems.Controller.Modes.{run, hold, safe, new, update, safe_battery_setpoint}
use edge_ems.Controller.Modes.Ladder.{Observation, after, start, Runs, Holds, mode-after}
use edge_ems.Controller.Modes.Ramp.{Falls, Rises, ramp_toward_nought}

abbrev observe : Bool → Bool → ℤ → Observation ℤ
observe fresh ok now = record { data_fresh = fresh; battery_ok = ok; now = now }

-- fresh at 1 s, then stale at 2 s and 5 s
abbrev outage : List (Observation ℤ)
outage =
    observe false true (pos 5000)
    ∷ observe false true (pos 2000)
    ∷ observe true true (pos 1000)
    ∷ []

outage_holds : (after (start (pos 10000)) outage).mode ≡ hold
unfolding after update
outage_holds = refl

outage_expires : (after (start (pos 3000)) outage).mode ≡ safe
unfolding after update
outage_expires = refl

negative_hold_raises : new (negsuc 0) run ≡ none
unfolding new
negative_hold_raises = refl

mode-after_example :
    let c = after (start (pos 10000)) outage in
    ((c.mode ≡ run) ↔ Runs outage)
    × ((c.mode ≡ hold) ↔ ((s : ℤ) × (c.hold_since ≡ some s) × Holds (pos 10000) s outage))
    × ((c.mode ≡ safe) ↔ ((¬ Runs outage) × ((s : ℤ) → ¬ Holds (pos 10000) s outage)))
mode-after_example = mode-after (pos 10000) outage

ramp_toward_nought_example :
    let next = safe_battery_setpoint (pos 90000) (some (pos 20000)) (pos 1000) in
    (pos 0 ≼ pos 90000 → (pos 0 ≼ next) × (next ≼ pos 90000))
    × (pos 90000 ≼ pos 0 → (pos 90000 ≼ next) × (next ≼ pos 0))
    × (ltb (pos 0) (pos 90000) ≡ true → Falls (pos 90000) (some (pos 20000)) (pos 1000) next)
    × (ltb (pos 0) (pos 90000) ≡ false → Rises (pos 90000) (some (pos 20000)) (pos 1000) next)
ramp_toward_nought_example =
    ramp_toward_nought milli-IsOrdered (pos 90000) (some (pos 20000)) (pos 1000) refl

ramp_run : safe_battery_setpoint (pos 90000) (some (pos 20000)) (pos 1000) ≡ pos 70000
unfolding safe_battery_setpoint
ramp_run = refl
