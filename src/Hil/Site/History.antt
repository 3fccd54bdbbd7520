-- ===== src/Hil/Site/History.antt =====
-- What holds of a site after any use of it.
use edge_ems.Prelude.{
  ◌≡◌, refl, inl, inr, Bool-cases, Option, some, List, [], ◌∷◌, String, str_eq, ◌>>=◌,
}
use edge_ems.Float.{Float, IsOrdered, ◌≼◌, ◌/◌, max}
use edge_ems.Float.Order.{max_lem}
use edge_ems.Hil.Plant.{
  Math, BatteryModel, PvModel, FlexibleLoadModel, set_setpoint, set_curtail, set_derate,
  set_irradiance, set_base, set_base_kw, set_fixed_kw, set_frequency, set_voltage, set_voltage_pu,
}
use edge_ems.Hil.Plant.Bounds.{
  IsBattery, IsPv, IsLoad, IsFixed, lower_of, upper_of, factor_of_lem, step_battery_lem,
  step_pv_lem, step_load_lem, step_fixed_lem, power_window_gates,
}
use edge_ems.Hil.Site.{SiteModel, step, apply_battery, apply_setpoint}

-- one use of a site
pub data Use (F : Type 0) : Type 0 where
  setpoint : String → String → F → Use F
  irradiance : F → Use F
  base : F → Use F
  base_kw : F → Use F
  fixed_kw : F → Use F
  frequency : F → Use F
  voltage : F → Use F
  voltage_pu : F → Use F
  advance : F → Use F

module _ {F : Type 0} ⦃d : Float F⦄ (m : Math F) where
  abbrev pub use_once : Use F → SiteModel F → Option (SiteModel F)
  use_once (setpoint c p v) s = some (apply_setpoint c p v s)
  use_once (irradiance i) s = some (record s { pv = set_irradiance i s.pv })
  use_once (base fraction) s = some (record s { load = set_base fraction s.load })
  use_once (base_kw kw) s = do load ← set_base_kw kw s.load; some (record s { load = load })
  use_once (fixed_kw kw) s = some (record s { fixed_load = set_fixed_kw kw s.fixed_load })
  use_once (frequency hz) s = some (record s { grid = set_frequency hz s.grid })
  use_once (voltage v) s = some (record s { grid = set_voltage v s.grid })
  use_once (voltage_pu pu) s = some (record s { grid = set_voltage_pu pu s.grid })
  use_once (advance dt) s = step m dt s

  abbrev pub after : List (Use F) → SiteModel F → Option (SiteModel F)
  after [] s = some s
  after (u ∷ us) s = do s' ← use_once u s; after us s'

  abbrev pub IsPhysical : SiteModel F → Type 0
  IsPhysical s = IsBattery s.battery × IsPv m s.pv × IsLoad m s.load × IsFixed m s.fixed_load

module _ {F : Type 0} ⦃d : Float F⦄ (laws : IsOrdered F) where
  open laws use {le_trans}

  set_curtail-IsPv : (m : Math F) (x : F) (pv : PvModel F) → IsPv m pv → IsPv m (set_curtail x pv)
  unfolding set_curtail
  set_curtail-IsPv m x pv (peak, kva, low, one, cosine, sun, above, below, p) =
      let (least, most) = factor_of_lem laws pv.min_derate x one in
      (peak, kva, low, one, cosine, sun, least, most, p)

  set_derate-IsLoad :
      (m : Math F) (x : F) (load : FlexibleLoadModel F)
      → IsLoad m load
      → IsLoad m (set_derate x load)
  unfolding set_derate
  set_derate-IsLoad m x load (one, sized, cosine, based, above, below, p) =
      let (least, most) = factor_of_lem laws load.min_derate x one in
      (one, sized, cosine, based, least, most, p)

  apply_battery-IsBattery :
      (point : String) (v : F) (b : BatteryModel F)
      → IsBattery b
      → IsBattery (apply_battery point v b)
  unfolding set_setpoint
  apply_battery-IsBattery point v b h =
      elim (Bool-cases (str_eq point "active_power_setpoint_kw")) [
        | inl active ↦ rw active h
        | inr other ↦ elim (Bool-cases (str_eq point "reactive_power_setpoint_kvar")) [
          | inl reactive ↦ rw (other, reactive) h
          | inr neither ↦ rw (other, neither) h
        ]
      ]

  pub apply_setpoint-IsPhysical :
      (m : Math F) (c p : String) (v : F) (s : SiteModel F)
      → IsPhysical m s
      → IsPhysical m (apply_setpoint c p v s)
  unfolding apply_setpoint
  apply_setpoint-IsPhysical m c p v s (b, pv, load, fixed) =
      elim (Bool-cases (str_eq c "battery")) [
        | inl battery ↦ rw battery (apply_battery-IsBattery p v s.battery b, pv, load, fixed)
        | inr x ↦ elim (Bool-cases (str_eq c "pv")) [
          | inl sun ↦ elim (Bool-cases (str_eq p "derate_factor_setpoint")) [
            | inl named ↦ rw (x, sun, named) (b, set_curtail-IsPv m v s.pv pv, load, fixed)
            | inr unnamed ↦ rw (x, sun, unnamed) (b, pv, load, fixed)
          ]
          | inr y ↦ elim (Bool-cases (str_eq c "flexible_load")) [
            | inl flexible ↦ elim (Bool-cases (str_eq p "derate_factor_setpoint")) [
              | inl named ↦
                  rw (x, y, flexible, named) (b, pv, set_derate-IsLoad m v s.load load, fixed)
              | inr unnamed ↦ rw (x, y, flexible, unnamed) (b, pv, load, fixed)
            ]
            | inr z ↦ rw (x, y, z) (b, pv, load, fixed)
          ]
        ]
      ]

  -- A step of a physical site returns; the new battery power lies in the old window.
  pub step-IsPhysical :
      (m : Math F) (dt : F) (s : SiteModel F)
      → IsPhysical m s
      → (s' : SiteModel F) × (step m dt s ≡ some s')
        × IsPhysical m s'
        × (lower_of s.battery ≼ s'.battery.p_kw)
        × (s'.battery.p_kw ≼ upper_of s.battery)
  unfolding step
  step-IsPhysical m dt s (b, pv, load, fixed) =
      let (b', eb, hb, from, to) = step_battery_lem laws m dt s.battery b in
      let (pv', ep, hp) = step_pv_lem laws m dt s.pv pv in
      let (load', el, hl) = step_load_lem laws m dt s.load load in
      let (fixed', ef, hf) = step_fixed_lem laws m dt s.fixed_load fixed in
      (
        record s { battery = b'; pv = pv'; load = load'; fixed_load = fixed' },
        rw (eb, ep, el, ef) refl,
        (hb, hp, hl, hf),
        from,
        to,
      )

  -- Whatever a use of a physical site is, it returns a physical site.
  pub use_once-IsPhysical :
      (m : Math F) (u : Use F) (s : SiteModel F)
      → IsPhysical m s
      → (s' : SiteModel F) × (use_once m u s ≡ some s') × IsPhysical m s'
  unfolding set_irradiance set_base set_base_kw set_fixed_kw
  use_once-IsPhysical m (setpoint c p v) s h =
      (apply_setpoint c p v s, refl, apply_setpoint-IsPhysical m c p v s h)
  use_once-IsPhysical m (irradiance i) s
        (b, (peak, kva, low, one, cosine, sun, above, below, p), load, fixed) =
      (
        record s { pv = set_irradiance i s.pv },
        refl,
        (
          b,
          (peak, kva, low, one, cosine, (max_lem laws d.nought i).0, above, below, p),
          load,
          fixed,
        ),
      )
  use_once-IsPhysical m (base x) s (b, pv, (one, sized, cosine, based, above, below, p), fixed) = (
    record s { load = set_base x s.load },
    refl,
    (b, pv, (one, sized, cosine, (max_lem laws d.nought x).0, above, below, p), fixed),
  )
  use_once-IsPhysical m (base_kw kw) s
        (b, pv, (one, sized, cosine, based, above, below, p), fixed) =
      let fraction = kw / s.load.max_kw in
      (
        record s { load = record (s.load) { base_fraction = max d.nought fraction } },
        rw sized refl,
        (b, pv, (one, sized, cosine, (max_lem laws d.nought fraction).0, above, below, p), fixed),
      )
  use_once-IsPhysical m (fixed_kw kw) s (b, pv, load, (cosine, based, p)) = (
    record s { fixed_load = set_fixed_kw kw s.fixed_load },
    refl,
    (b, pv, load, (cosine, (max_lem laws d.nought kw).0, p)),
  )
  use_once-IsPhysical m (frequency hz) s h = (record s { grid = set_frequency hz s.grid }, refl, h)
  use_once-IsPhysical m (voltage v) s h = (record s { grid = set_voltage v s.grid }, refl, h)
  use_once-IsPhysical m (voltage_pu pu) s h =
      (record s { grid = set_voltage_pu pu s.grid }, refl, h)
  use_once-IsPhysical m (advance dt) s h =
      let (s', e, h', from, to) = step-IsPhysical m dt s h in (s', e, h')

  -- From a physical site (power limits that are not negative, a capacity and a maximal load other than
  -- zero, power factors with an arc cosine, factors between their floors and 1, floors of at most 1 and
  -- for PV not negative, base demands and irradiance that are not negative, a charge within 0 and 100
  -- percent, powers with the signs of their devices), any sequence of setpoints, profile inputs and
  -- steps returns, and leaves a physical site: PV never consumes, loads never generate, the charge
  -- stays between 0 and 100 percent, the battery power within its limits, the factors between their
  -- floors and 1. A step after it returns too; its battery power is not positive when the charge had
  -- reached the upper gate, and not negative when it had reached the lower one.
  pub site-after :
      (m : Math F) (uses : List (Use F)) (s : SiteModel F) (dt : F)
      → IsPhysical m s
      → (s' : SiteModel F) × (after m uses s ≡ some s')
        × IsPhysical m s'
        × ((t : SiteModel F) × (step m dt s' ≡ some t)
            × (s'.battery.max_soc_pct ≼ s'.battery.soc_pct → t.battery.p_kw ≼ d.nought)
            × (s'.battery.soc_pct ≼ s'.battery.min_soc_pct → d.nought ≼ t.battery.p_kw))
  site-after m [] s dt h =
      let (t, e, h', from, to) = step-IsPhysical m dt s h in
      let (upper, lower) = power_window_gates laws s.battery in
      (
        s,
        refl,
        h,
        (
          t,
          e,
          λ full. le_trans t.battery.p_kw (upper_of s.battery) d.nought to (upper full),
          λ empty. le_trans d.nought (lower_of s.battery) t.battery.p_kw (lower empty) from,
        ),
      )
  site-after m (u ∷ uses) s dt h =
      let (s1, e, h1) = use_once-IsPhysical m u s h in
      let (s', run, physical, next) = site-after m uses s1 dt h1 in (s', rw e run, physical, next)
