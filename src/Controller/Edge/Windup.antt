-- ===== src/Controller/Edge/Windup.antt =====
-- Conditional integration.
use edge_ems.Prelude.{◌≡◌, true, arith}
use edge_ems.Float.{Float, IsOrdered, ◌≼◌, ◌+◌, ◌-◌, ◌*◌, ltb}
use edge_ems.Float.Order.{le_refl}
use edge_ems.Controller.Edge.{
  ControlParams, BatteryLimits, DerateLimits, ControlInputs, ControlState, sat_eps, window, frozen,
  compute,
}

module _ {F : Type 0} ⦃d : Float F⦄ (laws : IsOrdered F) where
  open laws use {le_trans, le_total, le-add, add-le, mul_nonneg, nonpos_mul}

  -- While the reported PI output lies above the battery window by more than the tolerance of 1e-9 the
  -- integral never grows, and while it lies that far below the window the integral never falls.
  pub compute_windup :
      (i : ControlInputs F) (p : ControlParams F) (b : BatteryLimits F) (dl : DerateLimits F)
      (s : ControlState F)
      → d.nought ≼ p.update_period
      → let out = compute i p b dl s in
        (ltb ((window i b).1 + sat_eps) out.pi_output_kw ≡ true → out.state.integral ≼ s.integral)
        × (ltb out.pi_output_kw ((window i b).0 - sat_eps) ≡ true → s.integral ≼ out.state.integral)
  unfolding compute frozen
  compute_windup i p b dl s h =
      let e = i.pcc_setpoint_kw - i.pcc_meas_kw in
      let dt = p.update_period in
      ground (
        arith,
        le_refl laws s.integral,
        le_total e d.nought,
        le_total d.nought e,
        nonpos_mul e dt,
        mul_nonneg e dt,
        add-le s.integral (e * dt),
        le-add s.integral (e * dt),
      )
