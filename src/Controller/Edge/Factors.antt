-- ===== src/Controller/Edge/Factors.antt =====
-- The mitigation factors: low-SoC derate of the load, high-SoC curtailment of the PV.
use edge_ems.Prelude.{◌≡◌, refl, true, Option, none, some, arith, if◌then◌else◌}
use edge_ems.Float.{Float, IsOrdered, ◌≼◌, ◌-◌, ◌*◌, ◌/◌, neg, ltb, abs}
use edge_ems.Float.Order.{le_refl, le_of_lt}
use edge_ems.Controller.Edge.{
  ControlParams, BatteryLimits, DerateLimits, ControlInputs, ControlState, clamp, deadband,
  derate_target, curtail_gain, curtail_step, curtail, compute,
}
use edge_ems.Controller.Edge.Window.{clamp_bounds, clamp_hull}

-- Both factors between their floor and 1.
pub record IsFactors {F : Type 0} ⦃d : Float F⦄ (dl : DerateLimits F) (s : ControlState F)
    : Type 0 where
  pub derate_floor : dl.load_min_derate ≼ s.derate_factor
  pub derate_top : s.derate_factor ≼ d.one
  pub curtail_floor : dl.pv_min_derate ≼ s.curtail_factor
  pub curtail_top : s.curtail_factor ≼ d.one

pub record IsFloors {F : Type 0} ⦃d : Float F⦄ (dl : DerateLimits F) : Type 0 where
  pub load_le : dl.load_min_derate ≼ d.one
  pub pv_le : dl.pv_min_derate ≼ d.one

module _ {F : Type 0} ⦃d : Float F⦄ (laws : IsOrdered F) where
  open laws use {
    le_trans, le_total, sub-le, le-sub, sub_mono, div_mono, mul_nonneg, div_nonneg, mul_nonpos,
    nonpos_mul, div_nonpos, sub_nonneg, sub_nonpos, dec_nonneg,
  }

  deadband_bounds :
      (new last lo hi : F)
      → (lo ≼ new) × (new ≼ hi)
      → (lo ≼ last) × (last ≼ hi)
      → (lo ≼ deadband new last) × (deadband new last ≼ hi)
  unfolding deadband
  deadband_bounds new last lo hi p q = ground arith

  derate_target_bounds :
      (i : ControlInputs F) (b : BatteryLimits F) (dl : DerateLimits F)
      → IsFloors dl
      → (dl.load_min_derate ≼ derate_target i b dl) × (derate_target i b dl ≼ d.one)
  unfolding derate_target
  derate_target_bounds i b dl v = ground (
    arith,
    v.load_le,
    le_refl laws d.one,
    clamp_bounds laws ((i.soc_pct - b.min_soc_pct) / (b.min_warning_soc_pct - b.min_soc_pct))
        dl.load_min_derate d.one,
    clamp_bounds laws d.nought dl.load_min_derate d.one,
  )

  curtail_bounds :
      (i : ControlInputs F) (feed : Option F) (b : BatteryLimits F) (dl : DerateLimits F) (f : F)
      → IsFloors dl
      → (dl.pv_min_derate ≼ curtail i feed b dl f) × (curtail i feed b dl f ≼ d.one)
  unfolding curtail curtail_step
  curtail_bounds i none b dl f v = (v.pv_le, le_refl laws d.one)
  curtail_bounds i (some m) b dl f v =
      let prev = if ltb d.nought f then f else d.one in
      let err = neg i.pcc_meas_kw - m in
      ground (
        arith,
        v.pv_le,
        le_refl laws d.one,
        clamp_bounds laws prev dl.pv_min_derate d.one,
        clamp_bounds laws (prev - curtail_gain * err * prev / abs i.pv_active_power_kw)
            dl.pv_min_derate d.one,
      )

  pub compute_state :
      (i : ControlInputs F) (p : ControlParams F) (b : BatteryLimits F) (dl : DerateLimits F)
      (s : ControlState F)
      → let out = compute i p b dl s in
        (out.state.last_battery_setpoint_kw ≡ out.battery_setpoint_kw)
        × (out.state.derate_factor ≡ out.derate_factor)
        × (out.state.curtail_factor ≡ out.curtail_factor)
  unfolding compute
  compute_state i p b dl s = (refl, refl, refl)

  -- Both factors stay between their floors and 1 on every branch of a cycle.
  pub compute-IsFactors :
      (i : ControlInputs F) (p : ControlParams F) (b : BatteryLimits F) (dl : DerateLimits F)
      (s : ControlState F)
      → IsFloors dl
      → IsFactors dl s
      → IsFactors dl (compute i p b dl s).state
  unfolding compute
  compute-IsFactors i p b dl s v h =
      let der =
        deadband_bounds _ s.derate_factor _ _ (derate_target_bounds i b dl v)
          (h.derate_floor, h.derate_top) in
      let cur = curtail_bounds i i.max_feed_kw b dl s.curtail_factor v in
      record {
        derate_floor = der.0;
        derate_top = der.1;
        curtail_floor = cur.0;
        curtail_top = cur.1;
      }

  clamp_mono : (x y lo hi : F) → lo ≼ hi → x ≼ y → clamp x lo hi ≼ clamp y lo hi
  unfolding clamp
  clamp_mono x y lo hi h p = ground (
    arith,
    le_total x lo,
    le_total hi x,
    le_total y lo,
    le_total hi y,
    le_refl laws lo,
    le_refl laws hi,
    le_trans lo x y,
    le_trans x y hi,
    le_trans hi x y,
    le_trans x y lo,
  )

  -- The lower the state of charge, the more load is shed: before the deadband, the factor never
  -- falls as the state of charge rises (the floor being at most 1, other inputs equal).
  derate_target_mono :
      (i j : ControlInputs F) (b : BatteryLimits F) (dl : DerateLimits F)
      → IsFloors dl
      → i.soc_pct ≼ j.soc_pct
      → derate_target i b dl ≼ derate_target j b dl
  unfolding derate_target
  derate_target_mono i j b dl v h =
      let span = b.min_warning_soc_pct - b.min_soc_pct in
      let ri = (i.soc_pct - b.min_soc_pct) / span in
      let rj = (j.soc_pct - b.min_soc_pct) / span in
      ground (
        arith,
        v.load_le,
        le_refl laws d.one,
        le_trans b.min_warning_soc_pct i.soc_pct j.soc_pct,
        sub_mono i.soc_pct j.soc_pct b.min_soc_pct,
        div_mono (i.soc_pct - b.min_soc_pct) (j.soc_pct - b.min_soc_pct) span,
        clamp_mono ri rj dl.load_min_derate d.one,
        clamp_mono d.nought d.nought dl.load_min_derate d.one,
        le_refl laws d.nought,
        clamp_bounds laws ri dl.load_min_derate d.one,
        clamp_bounds laws d.nought dl.load_min_derate d.one,
      )

  regulate :
      (err prev gen : F)
      → d.nought ≼ prev
      → d.nought ≼ gen
      → let move = curtail_gain * err * prev / gen in
        (d.nought ≼ err → prev - move ≼ prev) × (err ≼ d.nought → prev ≼ prev - move)
  regulate err prev gen p g =
      let gain = dec_nonneg 5 1 in
      (
        λ over.
            sub-le prev _ (div_nonneg _ gen (mul_nonneg _ prev (mul_nonneg _ err gain over) p) g),
        λ under.
            le-sub prev _ (div_nonpos _ gen (nonpos_mul _ prev (mul_nonpos _ err gain under) p) g),
      )

  abs_nonneg : (x : F) → d.nought ≼ abs x
  abs_nonneg x =
      ground
        (arith, le_total d.nought x, le_total x d.nought, laws.neg_anti x d.nought, laws.neg_nought)

  -- While PV produces and the carried factor is positive and within its bounds, the regulator never
  -- releases PV while the export exceeds the feed limit, and never cuts it further while the export
  -- is below the limit.
  pub curtail_step_direction :
      (i : ControlInputs F) (max_feed : F) (dl : DerateLimits F) (factor : F)
      → ltb d.nought factor ≡ true
      → dl.pv_min_derate ≼ factor
      → factor ≼ d.one
      → let next = curtail_step i max_feed dl factor in
        let feed_error = neg i.pcc_meas_kw - max_feed in
        (d.nought ≼ feed_error → next ≼ factor) × (feed_error ≼ d.nought → factor ≼ next)
  unfolding curtail_step
  curtail_step_direction i m dl factor h lo hi =
      let gen = abs i.pv_active_power_kw in
      let err = neg i.pcc_meas_kw - m in
      let moved = factor - curtail_gain * err * factor / gen in
      ground (
        arith,
        h,
        regulate err factor gen (le_of_lt laws _ _ h) (abs_nonneg i.pv_active_power_kw),
        clamp_hull laws moved dl.pv_min_derate d.one factor lo hi,
        clamp_hull laws factor dl.pv_min_derate d.one factor lo hi,
        le_refl laws factor,
      )
