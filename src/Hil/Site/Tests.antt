-- ===== src/Hil/Site/Tests.antt =====
-- The default site, in thousandths, over a battery command and two steps of the clock.
use edge_ems.Prelude.{◌≡◌, refl, some, List, [], ◌∷◌}
use edge_ems.Prelude.Int.{ℤ, pos, negsuc}
use edge_ems.Float.{◌≼◌}
use edge_ems.Float.Milli.{milli, milli-IsOrdered}
use edge_ems.Hil.Plant.{Math}
use edge_ems.Hil.Site.{SiteModel, step}
use edge_ems.Hil.Site.History.{Use, setpoint, irradiance, advance, after, IsPhysical, site-after}

-- `exp` is 0 everywhere, so the converter follows at once.
abbrev pub math : Math ℤ
math = record {
  exp = λ x. pos 0;
  tan = λ x. x;
  sqrt = λ x. x;
  hypot = λ x y. x;
  acos = λ x. some x;
}

abbrev pub site : SiteModel ℤ
site = record {
  grid = record {
    nominal_voltage_v = pos 230000;
    nominal_frequency_hz = pos 50000;
    line_voltage_v = pos 400000;
    frequency_hz = pos 50000;
    voltage_v = pos 230000;
  };
  battery = record {
    max_charge_kw = pos 1000000;
    max_discharge_kw = pos 1000000;
    capacity_kwh = pos 2000000;
    min_soc_pct = pos 5000;
    max_soc_pct = pos 95000;
    soc_pct = pos 50000;
    tau_s = pos 200;
    p_kw = pos 0;
    q_kvar = pos 0;
    p_setpoint = pos 0;
    q_setpoint = pos 0;
  };
  pv = record {
    peak_kw = pos 500000;
    max_kva = pos 600000;
    min_derate = pos 0;
    irradiance = pos 0;
    curtail_factor = pos 1000;
    pf = pos 1000;
    p_kw = pos 0;
    q_kvar = pos 0;
  };
  load = record {
    max_kw = pos 700000;
    min_derate = pos 200;
    base_fraction = pos 0;
    derate_factor = pos 1000;
    pf = pos 1000;
    p_kw = pos 0;
    q_kvar = pos 0;
  };
  fixed_load = record { base_kw = pos 0; pf = pos 1000; p_kw = pos 0; q_kvar = pos 0 };
}

abbrev uses : List (Use ℤ)
uses =
    setpoint "battery" "active_power_setpoint_kw" (negsuc 299999)
    ∷ setpoint "pv" "derate_factor_setpoint" (pos 500)
    ∷ irradiance (pos 800)
    ∷ advance (pos 1000)
    ∷ []

site-after_example :
    (s : SiteModel ℤ) × (after math uses site ≡ some s)
    × IsPhysical math s
    × ((t : SiteModel ℤ) × (step math (pos 1000) s ≡ some t)
        × (s.battery.max_soc_pct ≼ s.battery.soc_pct → t.battery.p_kw ≼ pos 0)
        × (s.battery.soc_pct ≼ s.battery.min_soc_pct → pos 0 ≼ t.battery.p_kw))
site-after_example = site-after milli-IsOrdered math uses site (pos 1000) (
  (refl, refl, refl, refl, refl, refl, refl),
  (refl, refl, refl, refl, refl, refl, refl, refl, refl),
  (refl, refl, refl, refl, refl, refl, refl),
  (refl, refl, refl),
)
