-- ===== src/Controller/Build/Ready.antt =====
-- A droop configuration that passed the validators satisfies the droop controller.
use edge_ems.Prelude.{
  ◌≡◌, refl, inl, inr, Bool-cases, true, false, Option, none, some, List, [], ◌∷◌, arith, length,
  is_some,
}
use edge_ems.Float as Float
use edge_ems.Float.{Float, IsOrdered, ◌≼◌}
use edge_ems.Common.Config.Ems.{has_pair, check_values, check_knots, droop_is_valid}
use edge_ems.Controller.Droop as Droop
use edge_ems.Controller.Droop.{
  DroopConfig, DroopController, strictly_increasing, nondecreasing, require_monotonic, is_enabled,
  correction,
}
use edge_ems.Controller.Droop.Interp.{IsChecked, correction_total}
use edge_ems.Controller.Loop.{droop_correction}

module _ {F : Type 0} ⦃d : Float F⦄ where
  nondecreasing-check :
      (xs : List F) → has_pair (λ a b. Float.ltb b a) xs ≡ false → nondecreasing xs ≡ true
  unfolding nondecreasing
  nondecreasing-check [] h = refl
  nondecreasing-check (a ∷ []) h = refl
  nondecreasing-check (a ∷ b ∷ xs) h = ground (arith, nondecreasing-check (b ∷ xs))

  strictly_increasing-check :
      (xs : List F) → has_pair (λ a b. Float.leb b a) xs ≡ false → strictly_increasing xs ≡ true
  unfolding strictly_increasing
  strictly_increasing-check [] h = refl
  strictly_increasing-check (a ∷ []) h = refl
  strictly_increasing-check (a ∷ b ∷ xs) h = ground (arith, strictly_increasing-check (b ∷ xs))

  -- Values that the validator takes are four and never fall.
  check_values_lem :
      (ys : List F) → is_some (check_values ys) ≡ true → (length ys ≡ 4) × (nondecreasing ys ≡ true)
  unfolding check_values
  check_values_lem ys h = (ground arith, nondecreasing-check ys (ground arith))

  -- Knots that the validator takes are four and rise.
  check_knots_lem :
      (xs : List F)
      → is_some (check_knots xs) ≡ true
      → (length xs ≡ 4) × (strictly_increasing xs ≡ true)
  unfolding check_knots
  check_knots_lem xs h = (ground arith, strictly_increasing-check xs (ground arith))

  monotonic :
      (xs ys : List F)
      → strictly_increasing xs ≡ true
      → nondecreasing ys ≡ true
      → require_monotonic xs ys ≡ some tt
  unfolding require_monotonic
  monotonic xs ys rise grow = rw (rise, grow) refl

  pub droop_new :
      (cfg : DroopConfig F) (base : F)
      → droop_is_valid cfg ≡ true
      → Float.leb base d.nought ≡ false
      → (Droop.new cfg base ≡ some (record { cfg = cfg; base = base })) × IsChecked cfg
  unfolding Droop.new
  droop_new cfg base h positive =
      let pf = cfg.p_f_droop in
      let qv = cfg.q_v_droop in
      let (n1, dp_f) = check_values_lem pf.dp_f (ground arith) in
      let (n2, dq_f) = check_values_lem pf.dq_f (ground arith) in
      let (n3, f) = check_knots_lem pf.f (ground arith) in
      let (n4, dp_v) = check_values_lem qv.dp_v (ground arith) in
      let (n5, dq_v) = check_values_lem qv.dq_v (ground arith) in
      let (n6, v) = check_knots_lem qv.v (ground arith) in
      (
        rw
            (
              positive,
              monotonic pf.f pf.dp_f f dp_f,
              monotonic pf.f pf.dq_f f dq_f,
              monotonic qv.v qv.dp_v v dp_v,
              monotonic qv.v qv.dq_v v dq_v,
            )
            refl,
        record { f = n3; dp_f = n1; dq_f = n2; v = n6; dp_v = n4; dq_v = n5 },
      )

  -- The droop of a loop, if it has one, has four knots and values in every curve.
  abbrev pub HasCurves : Option (DroopController F) → Type 0
  HasCurves none = Unit
  HasCurves (some c) = IsChecked c.cfg

  pub droop_correction_total :
      (droop : Option (DroopController F)) (freq volt : F)
      → HasCurves droop
      → (r : F × F) × (droop_correction droop freq volt ≡ some r)
  droop_correction_total none freq volt h = ((d.nought, d.nought), refl)
  droop_correction_total (some c) freq volt h =
      let (r, e, off) = correction_total c freq volt h in
      elim (Bool-cases (is_enabled c)) [
        | inl on ↦ ((r.dp_kw, r.dq_kvar), rw (on, e) refl)
        | inr out ↦ ((d.nought, d.nought), rw out refl)
      ]
