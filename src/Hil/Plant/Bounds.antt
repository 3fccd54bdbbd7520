-- ===== src/Hil/Plant/Bounds.antt =====
-- The bounds that each device keeps to in a step.
use edge_ems.Prelude.{
  ◌≡◌, refl, subst, inl, inr, Bool-cases, true, false, is_some, ◌&&◌, Option-cases, some, arith,
}
use edge_ems.Float.{Float, IsOrdered, ◌≼◌, ◌+◌, ◌*◌, ◌/◌, neg, ltb, eqb, min, max}
use edge_ems.Float.Order.{le_refl, le_of_not-lt, min_lem, max_lem, le-min}
use edge_ems.Hil.Plant.{
  Math, BatteryModel, PvModel, FlexibleLoadModel, FixedLoadModel, available_charge_power_kw,
  available_discharge_power_kw, power_window, clamp, follow, step_battery, factor_of, reactive,
  step_pv, step_load, step_fixed,
}

module _ {F : Type 0} ⦃d : Float F⦄ where
  abbrev pub lower_of : BatteryModel F → F
  lower_of b = (power_window b).0

  abbrev pub upper_of : BatteryModel F → F
  upper_of b = (power_window b).1

  -- A battery with limits that make sense, a charge between 0 and 100 and a power within the limits.
  abbrev pub IsBattery : BatteryModel F → Type 0
  IsBattery b =
      (d.nought ≼ b.max_charge_kw)
      × (d.nought ≼ b.max_discharge_kw)
      × (eqb b.capacity_kwh d.nought ≡ false)
      × (d.nought ≼ b.soc_pct)
      × (b.soc_pct ≼ d.dec 100 0)
      × (neg b.max_discharge_kw ≼ b.p_kw)
      × (b.p_kw ≼ b.max_charge_kw)

  abbrev pub IsPv : Math F → PvModel F → Type 0
  IsPv m pv =
      (d.nought ≼ pv.peak_kw)
      × (d.nought ≼ pv.max_kva)
      × (d.nought ≼ pv.min_derate)
      × (pv.min_derate ≼ d.one)
      × (is_some (m.acos pv.pf) ≡ true)
      × (d.nought ≼ pv.irradiance)
      × (pv.min_derate ≼ pv.curtail_factor)
      × (pv.curtail_factor ≼ d.one)
      × (pv.p_kw ≼ d.nought)

  abbrev pub IsLoad : Math F → FlexibleLoadModel F → Type 0
  IsLoad m load =
      (load.min_derate ≼ d.one)
      × (eqb load.max_kw d.nought ≡ false)
      × (is_some (m.acos load.pf) ≡ true)
      × (d.nought ≼ load.base_fraction)
      × (load.min_derate ≼ load.derate_factor)
      × (load.derate_factor ≼ d.one)
      × (d.nought ≼ load.p_kw)

  abbrev pub IsFixed : Math F → FixedLoadModel F → Type 0
  IsFixed m load =
      (is_some (m.acos load.pf) ≡ true) × (d.nought ≼ load.base_kw) × (d.nought ≼ load.p_kw)

module _ {F : Type 0} ⦃d : Float F⦄ (laws : IsOrdered F) where
  open laws use {le_trans, le_total, mul_nonneg, neg_anti, neg_nought, nought-le-one, dec_nonneg}

  clamp_lem :
      (lower upper x : F)
      → lower ≼ upper
      → (lower ≼ clamp (lower, upper) x) × (clamp (lower, upper) x ≼ upper)
  clamp_lem lower upper x ordered = (
    le-min laws (max x lower) upper lower (max_lem laws x lower).1 ordered,
    (min_lem laws (max x lower) upper).1,
  )

  pub factor_of_lem :
      (low x : F) → low ≼ d.one → (low ≼ factor_of low x) × (factor_of low x ≼ d.one)
  factor_of_lem low x h = (
    le-min laws d.one (max low x) low h (max_lem laws low x).0,
    (min_lem laws d.one (max low x)).0,
  )

  power_window-ordered : (b : BatteryModel F) → lower_of b ≼ upper_of b
  power_window-ordered b =
      let upper = available_charge_power_kw b in
      let lower = neg (available_discharge_power_kw b) in
      ground (arith, le_refl laws d.nought, le_of_not-lt laws upper lower)

  -- The window lies within the power limits.
  power_window_limits :
      (b : BatteryModel F)
      → d.nought ≼ b.max_charge_kw
      → d.nought ≼ b.max_discharge_kw
      → (neg b.max_discharge_kw ≼ lower_of b) × (upper_of b ≼ b.max_charge_kw)
  power_window_limits b up down =
      let negative : neg b.max_discharge_kw ≼ d.nought =
        subst (λ z. neg b.max_discharge_kw ≼ z) neg_nought
          (neg_anti d.nought b.max_discharge_kw down) in
      ground (
        arith,
        up,
        negative,
        le_refl laws b.max_charge_kw,
        le_refl laws (neg b.max_discharge_kw),
        le_refl laws d.nought,
        neg_nought,
      )

  pub step_battery_lem :
      (m : Math F) (dt : F) (b : BatteryModel F)
      → IsBattery b
      → (b' : BatteryModel F) × (step_battery m dt b ≡ some b')
        × IsBattery b'
        × (lower_of b ≼ b'.p_kw)
        × (b'.p_kw ≼ upper_of b)
  unfolding step_battery
  step_battery_lem m dt b (up, down, filled, low, high, p_low, p_high) =
      let p = clamp (power_window b) (follow m dt b) in
      let used = p * dt / d.dec 3600 0 / b.capacity_kwh in
      let soc = b.soc_pct + used * d.dec 100 0 in
      let (from, to) =
        clamp_lem (lower_of b) (upper_of b) (follow m dt b) (power_window-ordered b) in
      let (bottom, top) = power_window_limits b up down in
      (
        record b {
          p_kw = p;
          q_kvar = b.q_setpoint;
          soc_pct = min (d.dec 100 0) (max d.nought soc);
        },
        rw filled refl,
        (
          up,
          down,
          filled,
          le-min laws (d.dec 100 0) (max d.nought soc) d.nought (dec_nonneg 100 0)
              (max_lem laws d.nought soc).0,
          (min_lem laws (d.dec 100 0) (max d.nought soc)).0,
          le_trans (neg b.max_discharge_kw) (lower_of b) p bottom from,
          le_trans p (upper_of b) b.max_charge_kw to top,
        ),
        from,
        to,
      )

  -- A closed gate of the state of charge closes that side of the window.
  pub power_window_gates :
      (b : BatteryModel F)
      → (b.max_soc_pct ≼ b.soc_pct → upper_of b ≼ d.nought)
        × (b.soc_pct ≼ b.min_soc_pct → d.nought ≼ lower_of b)
  power_window_gates b = (
    λ full. ground (arith, le_refl laws d.nought),
    λ empty. ground (arith, le_refl laws d.nought, neg_nought),
  )

  reactive_total :
      (m : Math F) (pf p k : F)
      → is_some (m.acos pf) ≡ true
      → (q : F) × (reactive m pf p k ≡ some q)
  reactive_total m pf p k h = elim (Option-cases (m.acos pf)) [
    | inl e ↦ absurd (ground arith)
    | inr (angle, e) ↦ elim (Bool-cases (ltb pf d.one && ltb d.nought p)) [
      | inl yes' ↦ (k * m.tan angle, rw (yes', e) refl)
      | inr no' ↦ (d.nought, rw no' refl)
    ]
  ]

  pub step_pv_lem :
      (m : Math F) (dt : F) (pv : PvModel F)
      → IsPv m pv
      → (pv' : PvModel F) × (step_pv m dt pv ≡ some pv') × IsPv m pv'
  unfolding step_pv
  step_pv_lem m dt pv (peak, kva, low, one, cosine, sun, above, below, p) =
      let made = pv.peak_kw * pv.irradiance * pv.curtail_factor in
      let gen = min made pv.max_kva in
      let (q, e) = reactive_total m pv.pf gen (neg gen) cosine in
      let curtailed = le_trans d.nought pv.min_derate pv.curtail_factor low above in
      let positive : d.nought ≼ made =
        mul_nonneg (pv.peak_kw * pv.irradiance) pv.curtail_factor
          (mul_nonneg pv.peak_kw pv.irradiance peak sun) curtailed in
      let negative : neg gen ≼ d.nought =
        subst (λ z. neg gen ≼ z) neg_nought
          (neg_anti d.nought gen (le-min laws made pv.max_kva d.nought positive kva)) in
      (
        record pv { p_kw = neg gen; q_kvar = q },
        rw e refl,
        (peak, kva, low, one, cosine, sun, above, below, negative),
      )

  pub step_load_lem :
      (m : Math F) (dt : F) (load : FlexibleLoadModel F)
      → IsLoad m load
      → (load' : FlexibleLoadModel F) × (step_load m dt load ≡ some load') × IsLoad m load'
  unfolding step_load
  step_load_lem m dt load (one, sized, cosine, base, above, below, p) =
      let asked = load.max_kw * min d.one load.base_fraction * load.derate_factor in
      let power = max d.nought asked in
      let (q, e) = reactive_total m load.pf power power cosine in
      (
        record load { p_kw = power; q_kvar = q },
        rw e refl,
        (one, sized, cosine, base, above, below, (max_lem laws d.nought asked).0),
      )

  pub step_fixed_lem :
      (m : Math F) (dt : F) (load : FixedLoadModel F)
      → IsFixed m load
      → (load' : FixedLoadModel F) × (step_fixed m dt load ≡ some load') × IsFixed m load'
  unfolding step_fixed
  step_fixed_lem m dt load (cosine, base, p) =
      let power = max d.nought load.base_kw in
      let (q, e) = reactive_total m load.pf power power cosine in
      (
        record load { p_kw = power; q_kvar = q },
        rw e refl,
        (cosine, base, (max_lem laws d.nought load.base_kw).0),
      )
