-- ===== src/Hil/ClosedLoop/Tests.antt =====
-- Two rounds over the default site, the second with stale inputs, in thousandths.
use edge_ems.Prelude.{◌≡◌, refl, true, false, some, List, [], ◌∷◌}
use edge_ems.Prelude.Int.{ℤ, pos}
use edge_ems.Float.Milli.{milli, milli-IsOrdered}
use edge_ems.Controller.Loop.{ControlLoop}
use edge_ems.Controller.Loop.Tests.{loop}
use edge_ems.Hil.Site.{SiteModel}
use edge_ems.Hil.Site.History.{Use, irradiance, IsPhysical}
use edge_ems.Hil.Site.Tests.{math, site}
use edge_ems.Hil.ClosedLoop.{Faults, Plant, rounds}
use edge_ems.Hil.ClosedLoop.Steady.{rounds-IsPhysical}

abbrev plant : Plant ℤ
plant = record { site = site; update_period = pos 1000; last_ts = pos 0 }

abbrev stale_after : List (ℤ × Faults × ℤ)
stale_after =
    (
      pos 1000,
      record { stale_inputs = false; battery_comm_fail = false; dropped_classes = [] },
      pos 10,
    )
    ∷ (
      pos 2000,
      record { stale_inputs = true; battery_comm_fail = false; dropped_classes = "pv" ∷ [] },
      pos 10,
    )
    ∷ []

abbrev sun : ℤ → SiteModel ℤ → List (Use ℤ)
sun t s = irradiance (pos 800) ∷ []

rounds-IsPhysical_example :
    (p : Plant ℤ) × (l : ControlLoop ℤ) × (rounds math sun (pos 0) stale_after plant loop
      ≡ some (p, l))
    × IsPhysical math p.site
    × (l.droop ≡ loop.droop)
rounds-IsPhysical_example =
    rounds-IsPhysical milli-IsOrdered math sun (pos 0) stale_after plant loop
      (
        (refl, refl, refl, refl, refl, refl, refl),
        (refl, refl, refl, refl, refl, refl, refl, refl, refl),
        (refl, refl, refl, refl, refl, refl, refl),
        (refl, refl, refl),
      )
      tt
