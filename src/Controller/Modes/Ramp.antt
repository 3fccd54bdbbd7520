-- ===== src/Controller/Modes/Ramp.antt =====
-- The battery setpoint in SAFE.
use edge_ems.Prelude.{◌≡◌, refl, ◌⊎◌, inl, inr, Bool-cases, true, false, Option, none, some, arith}
use edge_ems.Float.{Float, IsOrdered, ◌≼◌, ◌+◌, ◌-◌, ◌*◌, ltb, max, min}
use edge_ems.Float.Order.{le_refl}
use edge_ems.Controller.Modes.{safe_battery_setpoint}

-- The largest step of one cycle, where a slew limit is configured.
abbrev pub IsSlew : {F : Type 0} ⦃d : Float F⦄ → Option F → F → Type 0
IsSlew none period = Unit
IsSlew ⦃d⦄ (some slew) period = d.nought ≼ slew * period

module _ {F : Type 0} ⦃d : Float F⦄ where
  -- Down by the whole step, or to zero where the step is no shorter than the way there.
  abbrev pub Falls : F → Option F → F → F → Type 0
  Falls last none period next = next ≡ d.nought
  Falls last (some slew) period next =
      ((next ≡ d.nought) × (ltb d.nought (last - slew * period) ≡ false))
      ⊎ (next ≡ last - slew * period)

  -- Up by the whole step, or to zero.
  abbrev pub Rises : F → Option F → F → F → Type 0
  Rises last none period next = next ≡ d.nought
  Rises last (some slew) period next =
      ((next ≡ d.nought) × (ltb (last + slew * period) d.nought ≡ false))
      ⊎ (next ≡ last + slew * period)

module _ {F : Type 0} ⦃d : Float F⦄ (laws : IsOrdered F) where
  open laws use {le_trans, le_total, sub-le, le-add}

  max_cases :
      (x : F) → ((max d.nought x ≡ d.nought) × (ltb d.nought x ≡ false)) ⊎ (max d.nought x ≡ x)
  max_cases x = elim (Bool-cases (ltb d.nought x)) [
    | inl more ↦ inr (rw more refl)
    | inr less ↦ inl (rw less refl, less)
  ]

  min_cases :
      (x : F) → ((min d.nought x ≡ d.nought) × (ltb x d.nought ≡ false)) ⊎ (min d.nought x ≡ x)
  min_cases x = elim (Bool-cases (ltb x d.nought)) [
    | inl less ↦ inr (rw less refl)
    | inr more ↦ inl (rw more refl, more)
  ]

  ramp_between :
      (last slew period : F)
      → d.nought ≼ slew * period
      → let next = safe_battery_setpoint last (some slew) period in
        (d.nought ≼ last → (d.nought ≼ next) × (next ≼ last))
        × (last ≼ d.nought → (last ≼ next) × (next ≼ d.nought))
  unfolding safe_battery_setpoint
  ramp_between last slew period h =
      let step = slew * period in
      ground (
        arith,
        le_refl laws d.nought,
        le_total d.nought last,
        sub-le last step h,
        le-add last step h,
        le_total d.nought (last - step),
        le_total d.nought (last + step),
        le_trans d.nought last (last + step),
        le_trans (last - step) last d.nought,
      )

  landed :
      (last : F) (slew : Option F) (period : F)
      → let next = safe_battery_setpoint last slew period in
        (ltb d.nought last ≡ true → Falls last slew period next)
        × (ltb d.nought last ≡ false → Rises last slew period next)
  unfolding safe_battery_setpoint
  landed last none period = (λ p. refl, λ p. refl)
  landed last (some slew) period =
      let step = slew * period in
      elim (Bool-cases (ltb d.nought last)) [
        | inl up ↦ (
          λ p. rw (up, safe_battery_setpoint) (max_cases (last - step)),
          λ p. absurd (ground arith),
        )
        | inr down ↦ (
          λ p. absurd (ground arith),
          λ p. rw (down, safe_battery_setpoint) (min_cases (last + step)),
        )
      ]

  -- The SAFE setpoint moves towards zero and never past it: from a setpoint that is not negative it
  -- stays between zero and that setpoint, and from one that is not positive between that setpoint and
  -- zero, provided that the configured step, if there is one, is not negative. Without a
  -- step it is zero at once; with one it moves by the whole step, down from a positive setpoint and up
  -- from any other, and is zero as soon as the step reaches so far.
  pub ramp_toward_nought :
      (last : F) (slew : Option F) (period : F)
      → IsSlew slew period
      → let next = safe_battery_setpoint last slew period in
        (d.nought ≼ last → (d.nought ≼ next) × (next ≼ last))
        × (last ≼ d.nought → (last ≼ next) × (next ≼ d.nought))
        × (ltb d.nought last ≡ true → Falls last slew period next)
        × (ltb d.nought last ≡ false → Rises last slew period next)
  unfolding safe_battery_setpoint
  ramp_toward_nought last none period h =
      (λ p. (le_refl laws _, p), λ p. (p, le_refl laws _), λ p. refl, λ p. refl)
  ramp_toward_nought last (some slew) period h =
      let (above, below) = ramp_between last slew period h in
      let (down, up) = landed last (some slew) period in (above, below, down, up)

  -- the ramp's setpoint is within one step of the last one
  pub ramp_step :
      (last limit period : F)
      → d.nought ≼ limit * period
      → let next = safe_battery_setpoint last (some limit) period in
        (last - limit * period ≼ next) × (next ≼ last + limit * period)
  unfolding safe_battery_setpoint
  ramp_step last limit period h =
      let step = limit * period in
      let down = sub-le last step h in
      let up = le-add last step h in
      ground (
        arith,
        le_refl laws (last - step),
        le_refl laws (last + step),
        le_total d.nought last,
        le_total d.nought (last - step),
        le_total d.nought (last + step),
        le_trans (last - step) last (last + step) down up,
        le_trans d.nought last (last + step),
        le_trans (last - step) last d.nought down,
      )
