-- ===== src/ExtEms/Gateway/Forwarding.antt =====
-- What reaches the controller.
use edge_ems.Prelude.{
  ◌≡◌, refl, ◌↔◌, inl, inr, Bool, Bool-cases, true, false, Option, none, some, arith, if◌then◌else◌,
}
use edge_ems.Float.{Float, IsOrdered, eqb}
use edge_ems.Float.Order.{le_refl}
use edge_ems.ExtEms.Gateway.{Gateway, tick, must_forward, gateway_tick}

module _ {F : Type 0} ⦃d : Float F⦄ where
  -- The target of a controller that takes what is forwarded whenever `forward` succeeds.
  abbrev pub receive : (F → Bool) → Option F → Option F → Option F
  receive forward target none = target
  receive forward target (some sp) = if forward sp then some sp else target

  -- The target is there and compares equal to the setpoint.
  abbrev pub IsAt : Option F → F → Type 0
  IsAt none sp = ⊥
  IsAt (some x) sp = eqb sp x ≡ true

module _ {F : Type 0} ⦃d : Float F⦄ (laws : IsOrdered F) where
  must_forward_iff : (last : Option F) (sp : F) → (must_forward last sp ≡ false) ↔ IsAt last sp
  must_forward_iff none sp = (λ e. ground arith, λ h. absurd h)
  must_forward_iff (some x) sp = (λ e. ground arith, λ h. ground arith)

  IsAt-self : (sp : F) → IsAt (some sp) sp
  IsAt-self sp = ground (arith, le_refl laws sp)

  -- A tick forwards nothing exactly when the value last forwarded compares equal to the effective
  -- setpoint, whether or not the state changes, and otherwise the effective setpoint. What the
  -- gateway remembers is the target of the controller. If `forward` succeeds on the effective
  -- setpoint, that target compares equal to it after the tick; if `forward` fails, the target stays
  -- as it was.
  pub gateway_tick-forwards :
      (forward : F → Bool) (g : Gateway F) (now : F)
      → let (g', did) = gateway_tick forward g now in
        let sp = did.result.effective_setpoint_kw in
        ((did.forwarded ≡ none) ↔ IsAt g.last_forwarded sp)
        × ((did.forwarded ≡ some sp) ↔ (¬ IsAt g.last_forwarded sp))
        × (g'.last_forwarded ≡ receive forward g.last_forwarded did.forwarded)
        × (forward sp ≡ true → IsAt g'.last_forwarded sp)
        × (forward sp ≡ false → g'.last_forwarded ≡ g.last_forwarded)
  unfolding gateway_tick
  gateway_tick-forwards forward g now =
      let sp = (tick g.wd now).1.effective_setpoint_kw in
      let same = must_forward_iff g.last_forwarded sp in
      elim (Bool-cases (must_forward g.last_forwarded sp)) [
        | inl calls ↦ rw calls (
          (λ e. cc, λ at. ground (arith, same.1 at)),
          (λ e at. ground (arith, same.1 at), λ x. refl),
          refl,
          λ ok. rw ok (IsAt-self sp),
          λ failed. rw failed refl,
        )
        | inr skips ↦ rw skips (
          (λ e. same.0 skips, λ at. refl),
          (λ e. cc, λ n. absurd (n (same.0 skips))),
          refl,
          λ ok. same.0 skips,
          λ failed. refl,
        )
      ]
