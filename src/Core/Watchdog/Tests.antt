-- ===== src/Core/Watchdog/Tests.antt =====
-- The watchdog at concrete histories, in thousandths of a second.
use edge_ems.Prelude.{
  ◌≡◌, refl, ◌↔◌, true, false, none, some, List, [], ◌∷◌, String, is_empty, str_eq, if◌then◌else◌,
}
use edge_ems.Prelude.Int.{ℤ, pos}
use edge_ems.Prelude.Dict.{Dict, lookup}
use edge_ems.Float.Milli.{milli}
use edge_ems.Core.Adapter.{Devices, wrote, raised}
use edge_ems.Core.Watchdog.{Watchdog, notify, start, is_silent, check, trip, recorded, has_adapter}
use edge_ems.Core.Watchdog.Episodes.{
  Call, notified, started, checked, heard, IsOverdue, HasExpired, after, check-trips,
}
use edge_ems.Core.Watchdog.Trip.{trip_all}

-- every write succeeds, but the first battery raises
abbrev devices : Devices ℤ
devices aid _ =
    if str_eq aid "bess-01" then raised "timeout" else wrote (record { ok = true; errors = [] })

abbrev pub watchdog : Watchdog ℤ
watchdog = record {
  adapters = "bess-01" ∷ "bess-02" ∷ [];
  classes = ("bess-01", "battery") ∷ ("bess-02", "battery") ∷ ("pv-01", "pv") ∷ [];
  timeout_s = pos 3000;
  safe = ("battery", ("active_power_setpoint_kw", pos 0) ∷ []) ∷ [];
  last_setpoint_ts = none;
  tripped = false;
}

abbrev silence : List (Call ℤ)
silence = checked (pos 4000) ∷ notified (pos 3000) ∷ started (pos 1000) ∷ []

trips_once :
    ((check devices (after devices watchdog silence) (pos 6500)).1 ≡ true)
    × ((check devices (after devices watchdog (checked (pos 6500) ∷ silence)) (pos 7500)).1 ≡ false)
unfolding check after notify start is_silent
trips_once = (refl, refl)

-- Armed at 5 s on one clock and checked at 1700000 s on another, it trips at the first check.
two_clocks :
    (check devices (after devices watchdog (started (pos 5000) ∷ [])) (pos 1700000000)).1 ≡ true
unfolding check after start is_silent
two_clocks = refl

check-trips_example :
    let c = check devices (after devices watchdog silence) (pos 6500) in
    ((c.1 ≡ true)
      ↔ (IsOverdue (pos 3000) (heard silence) (pos 6500) × (¬ HasExpired (pos 3000) silence)))
    × (c.1 ≡ true → c.2 ≡ trip devices (after devices watchdog silence))
    × (c.1 ≡ false → c.2 ≡ [])
check-trips_example = check-trips devices watchdog silence (pos 6500) (refl, refl)

trip_all_example :
    ((asset_class : String) (setpoints : Dict ℤ)
      → lookup "bess-02" watchdog.classes ≡ some asset_class
      → lookup asset_class watchdog.safe ≡ some setpoints
      → is_empty setpoints ≡ false
      → has_adapter watchdog.adapters "bess-02" ≡ true
      → lookup "bess-02" (trip devices watchdog) ≡ some (recorded (devices "bess-02" setpoints)))
    × (lookup "bess-02" watchdog.classes ≡ none → lookup "bess-02" (trip devices watchdog) ≡ none)
    × ((asset_class : String)
        → lookup "bess-02" watchdog.classes ≡ some asset_class
        → lookup asset_class watchdog.safe ≡ none
        → lookup "bess-02" (trip devices watchdog) ≡ none)
    × (has_adapter watchdog.adapters "bess-02" ≡ false
        → lookup "bess-02" (trip devices watchdog) ≡ none)
trip_all_example = trip_all devices watchdog "bess-02" (refl, (refl, (refl, tt)))
