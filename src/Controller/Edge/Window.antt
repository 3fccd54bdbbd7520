-- ===== src/Controller/Edge/Window.antt =====
-- The battery setpoint: limits, SoC gates and the slew limiter.
use edge_ems.Prelude.{◌≡◌, none, some, arith}
use edge_ems.Float.{Float, IsOrdered, ◌≼◌, ◌+◌, ◌-◌, ◌*◌, neg, min, max}
use edge_ems.Float.Order.{le_refl, min_lem, max_lem, le-min, max-le}
use edge_ems.Controller.Edge.{
  ControlParams, BatteryLimits, DerateLimits, ControlInputs, ControlState, clamp, window, slew,
  compute,
}

-- Magnitudes, as the configuration and the BMS give them, are not negative.
pub record IsMagnitude {F : Type 0} ⦃d : Float F⦄ (i : ControlInputs F) (b : BatteryLimits F)
    : Type 0 where
  pub charge : d.nought ≼ b.max_charge_kw
  pub discharge : d.nought ≼ b.max_discharge_kw
  pub avail_charge : d.nought ≼ i.avail_charge_kw
  pub avail_discharge : d.nought ≼ i.avail_discharge_kw

module _ {F : Type 0} ⦃d : Float F⦄ where
  -- What every setpoint inside the window respects.
  abbrev pub Respects : ControlInputs F → BatteryLimits F → F → Type 0
  Respects i b sp =
      (sp ≼ b.max_charge_kw)
      × (sp ≼ i.avail_charge_kw)
      × (neg b.max_discharge_kw ≼ sp)
      × (neg i.avail_discharge_kw ≼ sp)
      × (i.soc_pct ≼ b.min_soc_pct → d.nought ≼ sp)
      × (b.max_soc_pct ≼ i.soc_pct → sp ≼ d.nought)

module _ {F : Type 0} ⦃d : Float F⦄ (laws : IsOrdered F) where
  open laws use {le_trans, le_total, sub-le, le-add, neg_anti, neg_nought}

  pub clamp_bounds : (x lo hi : F) → lo ≼ hi → (lo ≼ clamp x lo hi) × (clamp x lo hi ≼ hi)
  unfolding clamp
  clamp_bounds x lo hi h =
      ground (arith, le_total x lo, le_total hi x, le_refl laws lo, le_refl laws hi)

  -- A value inside the window is left alone; so the result lies between the value and any bound.
  pub clamp_hull :
      (x lo hi a : F)
      → lo ≼ a
      → a ≼ hi
      → (x ≼ a → (x ≼ clamp x lo hi) × (clamp x lo hi ≼ a))
        × (a ≼ x → (a ≼ clamp x lo hi) × (clamp x lo hi ≼ x))
  unfolding clamp
  clamp_hull x lo hi a p q =
      ground (arith, le_total x lo, le_total hi x, le_refl laws x, le_trans lo a x, le_trans x a hi)

  -- Zero always lies in the window.
  pub window_nought :
      (i : ControlInputs F) (b : BatteryLimits F)
      → IsMagnitude i b
      → ((window i b).0 ≼ d.nought) × (d.nought ≼ (window i b).1)
  unfolding window
  window_nought i b v =
      let up = min b.max_charge_kw i.avail_charge_kw in
      let down = min b.max_discharge_kw i.avail_discharge_kw in
      ground (
        arith,
        v.charge,
        v.discharge,
        v.avail_charge,
        v.avail_discharge,
        neg_nought,
        neg_anti d.nought down,
        le-min laws b.max_charge_kw i.avail_charge_kw d.nought,
        le-min laws b.max_discharge_kw i.avail_discharge_kw d.nought,
        le_refl laws d.nought,
        le_total d.nought d.nought,
        le-min laws up d.nought d.nought,
        max-le laws (neg down) d.nought d.nought,
      )

  window_ordered : (i : ControlInputs F) (b : BatteryLimits F) → (window i b).0 ≼ (window i b).1
  unfolding window
  window_ordered i b = ground (arith, le_refl laws d.nought)

  window_upper :
      (i : ControlInputs F) (b : BatteryLimits F)
      → IsMagnitude i b
      → let upper = (window i b).1 in
        (upper ≼ b.max_charge_kw)
        × (upper ≼ i.avail_charge_kw)
        × (b.max_soc_pct ≼ i.soc_pct → upper ≼ d.nought)
  unfolding window
  window_upper i b v =
      let up = min b.max_charge_kw i.avail_charge_kw in
      ground (
        arith,
        v.charge,
        v.avail_charge,
        min_lem laws b.max_charge_kw i.avail_charge_kw,
        min_lem laws up d.nought,
        le_refl laws d.nought,
        le_trans (min up d.nought) up b.max_charge_kw,
        le_trans (min up d.nought) up i.avail_charge_kw,
      )

  window_lower :
      (i : ControlInputs F) (b : BatteryLimits F)
      → IsMagnitude i b
      → let lower = (window i b).0 in
        (neg b.max_discharge_kw ≼ lower)
        × (neg i.avail_discharge_kw ≼ lower)
        × (i.soc_pct ≼ b.min_soc_pct → d.nought ≼ lower)
  unfolding window
  window_lower i b v =
      let down = min b.max_discharge_kw i.avail_discharge_kw in
      let both = min_lem laws b.max_discharge_kw i.avail_discharge_kw in
      ground (
        arith,
        v.discharge,
        v.avail_discharge,
        neg_nought,
        neg_anti d.nought b.max_discharge_kw v.discharge,
        neg_anti d.nought i.avail_discharge_kw v.avail_discharge,
        neg_anti down b.max_discharge_kw both.0,
        neg_anti down i.avail_discharge_kw both.1,
        max_lem laws (neg down) d.nought,
        le_refl laws d.nought,
        le_trans (neg b.max_discharge_kw) (neg down) (max (neg down) d.nought),
        le_trans (neg i.avail_discharge_kw) (neg down) (max (neg down) d.nought),
      )

  window-Respects :
      (i : ControlInputs F) (b : BatteryLimits F) (sp : F)
      → IsMagnitude i b
      → (window i b).0 ≼ sp
      → sp ≼ (window i b).1
      → Respects i b sp
  window-Respects i b sp v lo hi =
      let (u1, u2, u3) = window_upper i b v in
      let (l1, l2, l3) = window_lower i b v in
      (
        le_trans sp _ _ hi u1,
        le_trans sp _ _ hi u2,
        le_trans _ _ sp l1 lo,
        le_trans _ _ sp l2 lo,
        λ g. le_trans _ _ sp (l3 g) lo,
        λ g. le_trans sp _ _ hi (u3 g),
      )

  -- the slew limiter's result, between the command of the cycle before and the clamped one
  slew_hull :
      (limit dt prev c : F)
      → d.nought ≼ limit * dt
      → let sp = slew (some limit) dt prev c in
        (c ≼ prev → (c ≼ sp) × (sp ≼ prev)) × (prev ≼ c → (prev ≼ sp) × (sp ≼ c))
  unfolding slew
  slew_hull limit dt prev c h =
      clamp_hull c _ _ prev (sub-le prev (limit * dt) h) (le-add prev (limit * dt) h)

  slew_step :
      (limit dt prev c : F)
      → d.nought ≼ limit * dt
      → let sp = slew (some limit) dt prev c in (prev - limit * dt ≼ sp) × (sp ≼ prev + limit * dt)
  unfolding slew
  slew_step limit dt prev c h =
      let s = limit * dt in
      clamp_bounds c _ _ (le_trans _ prev _ (sub-le prev s h) (le-add prev s h))

  slew_keeps :
      (limit dt prev c lo hi : F)
      → d.nought ≼ limit * dt
      → (lo ≼ prev) × (prev ≼ hi)
      → (lo ≼ c) × (c ≼ hi)
      → (lo ≼ slew (some limit) dt prev c) × (slew (some limit) dt prev c ≼ hi)
  slew_keeps limit dt prev c lo hi h p q =
      let sp = slew (some limit) dt prev c in
      ground (
        arith,
        slew_hull limit dt prev c h,
        le_total c prev,
        le_trans lo c sp,
        le_trans sp c hi,
        le_trans lo prev sp,
        le_trans sp prev hi,
      )

  module _ (i : ControlInputs F) (p : ControlParams F) (b : BatteryLimits F) (dl : DerateLimits F)
      (s : ControlState F) where
    pub compute_step :
        (limit : F)
        → p.slew_limit_kw_s ≡ some limit
        → d.nought ≼ limit * p.update_period
        → let sp = (compute i p b dl s).battery_setpoint_kw in
          let last = s.last_battery_setpoint_kw in
          let step = limit * p.update_period in (last - step ≼ sp) × (sp ≼ last + step)
    unfolding compute
    compute_step limit e h = rw e (slew_step limit p.update_period s.last_battery_setpoint_kw _ h)

    -- Without a slew limit, and with magnitudes that are not negative, every setpoint stays inside
    -- the configured and the available charge and discharge power; at or below the minimum state
    -- of charge it never discharges, and at or above the maximum it never charges.
    pub compute_window :
        p.slew_limit_kw_s ≡ none
        → IsMagnitude i b
        → Respects i b (compute i p b dl s).battery_setpoint_kw
    unfolding compute slew
    compute_window e v = rw e (
        window-Respects i b _ v (clamp_bounds _ _ _ (window_ordered i b)).0
          (clamp_bounds _ _ _ (window_ordered i b)).1)

    -- With a slew limit the setpoint moves by at most one step from the last one; and if the last
    -- setpoint lies in the window of this cycle, so does the new one, which then respects every
    -- limit and SoC gate.
    pub compute_slew :
        (limit : F)
        → p.slew_limit_kw_s ≡ some limit
        → d.nought ≼ limit * p.update_period
        → IsMagnitude i b
        → let sp = (compute i p b dl s).battery_setpoint_kw in
          let last = s.last_battery_setpoint_kw in
          let step = limit * p.update_period in
          (last - step ≼ sp)
          × (sp ≼ last + step)
          × ((window i b).0 ≼ last → last ≼ (window i b).1 → Respects i b sp)
    unfolding compute
    compute_slew limit e h v = rw e (
      (slew_step limit p.update_period s.last_battery_setpoint_kw _ h).0,
      (slew_step limit p.update_period s.last_battery_setpoint_kw _ h).1,
      λ lo hi.
          let q =
            slew_keeps limit p.update_period s.last_battery_setpoint_kw _ _ _ h (lo, hi)
              (clamp_bounds _ _ _ (window_ordered i b)) in
          window-Respects i b _ v q.0 q.1,
    )
