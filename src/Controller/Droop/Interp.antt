-- ===== src/Controller/Droop/Interp.antt =====
-- What the interpolation returns, and that a constructed controller never raises.
use edge_ems.Prelude.{
  ◌≡◌, refl, ◌⊎◌, inl, inr, Bool, true, false, Bool-cases, Option-cases, ◌≢◌, ◌&&◌, none, some,
  List, [], ◌∷◌, arith, length,
}
use edge_ems.Float.{Float, IsOrdered, ◌≼◌, ◌+◌, ◌-◌, ◌*◌, ◌/◌, leb}
use edge_ems.Controller.Droop.{
  last, segments, interp_clamped, nondecreasing, DroopConfig, DroopController, DroopCorrection,
  add_curves, correction, is_enabled,
}

module _ {F : Type 0} ⦃d : Float F⦄ where
  -- Some two neighbouring knots enclose `x`, and `r` lies between their values; the upper one is
  -- reached as `y0 + (y1 - y0)`, which is `y1` up to rounding.
  abbrev pub Between : F → F → F → List F → List F → F → Type 0
  Between x x0 y0 (x1 ∷ xs) (y1 ∷ ys) r =
      ((x0 ≼ x) × (x ≼ x1) × (y0 ≼ r) × (r ≼ y0 + (y1 - y0))) ⊎ Between x x1 y1 xs ys r
  Between x x0 y0 _ _ r = ⊥

module _ {F : Type 0} ⦃d : Float F⦄ (laws : IsOrdered F) where
  open laws use {
    le_trans, le_total, le-add, add_mono, sub_mono, sub_nonneg, mul_nonneg, mul-le, div_nonneg,
    div-le-one,
  }

  one_segment :
      (x x0 y0 x1 y1 : F)
      → x0 ≼ x
      → x ≼ x1
      → y0 ≼ y1
      → let r = y0 + (x - x0) / (x1 - x0) * (y1 - y0) in (y0 ≼ r) × (r ≼ y0 + (y1 - y0))
  one_segment x x0 y0 x1 y1 p q h =
      let part = sub_nonneg x x0 p in
      let whole = sub_mono x x1 x0 q in
      let rise = sub_nonneg y1 y0 h in
      let t = (x - x0) / (x1 - x0) in
      (
        le-add y0 _ (mul_nonneg t _ (div_nonneg _ _ part (le_trans _ _ _ part whole)) rise),
        add_mono y0 _ _ (mul-le t _ (div-le-one _ _ part whole) rise),
      )

  nondecreasing-cons :
      (y0 y1 : F) (ys : List F)
      → nondecreasing (y0 ∷ y1 ∷ ys) ≡ true
      → (y0 ≼ y1) × (nondecreasing (y1 ∷ ys) ≡ true)
  unfolding nondecreasing
  nondecreasing-cons y0 y1 ys m = ground arith

  segments-Between :
      (x x0 y0 : F) (xs ys : List F)
      → nondecreasing (y0 ∷ ys) ≡ true
      → length xs ≡ length ys
      → x0 ≼ x
      → leb (last x0 xs) x ≡ false
      → Between x x0 y0 xs ys (segments x x0 y0 xs ys)
  unfolding segments
  segments-Between x x0 y0 [] ys m l p q = ground arith
  segments-Between x x0 y0 (x1 ∷ xs) [] m l p q = ground arith
  segments-Between x x0 y0 (x1 ∷ xs) (y1 ∷ ys) m l p q =
      let (rises, rest) = nondecreasing-cons y0 y1 ys m in
      elim (Bool-cases (leb x x1)) [
        | inl inside ↦
            let (low, high) = one_segment x x0 y0 x1 y1 p inside rises in
            rw inside (inl (p, refl, low, high))
        | inr beyond ↦ rw beyond (
            inr
              (segments-Between x x1 y1 xs ys rest (omega arith) (ground (arith, le_total x x1)) q))
      ]

  -- On a curve with at least two knots, as many values as knots, and values that never fall, the
  -- interpolation succeeds: at or before the first knot with the first value, at or past the last
  -- knot with the last value, and otherwise with a value between those of two neighbouring knots
  -- that enclose the input.
  pub interp_clamped-Between :
      (x x0 x1 y0 : F) (xs ys : List F)
      → nondecreasing (y0 ∷ ys) ≡ true
      → length (x1 ∷ xs) ≡ length ys
      → (r : F) × (interp_clamped x (x0 ∷ x1 ∷ xs) (y0 ∷ ys) ≡ some r)
        × ((x ≼ x0) × (r ≡ y0)
            ⊎ (last x1 xs ≼ x) × (r ≡ last y0 ys)
            ⊎ Between x x0 y0 (x1 ∷ xs) ys r)
  unfolding interp_clamped
  interp_clamped-Between x x0 x1 y0 xs ys m l = elim (Bool-cases (leb x x0)) [
    | inl before ↦ (y0, ground arith, inl (before, refl))
    | inr after ↦ elim (Bool-cases (leb (last x1 xs) x)) [
      | inl past ↦ (last y0 ys, ground arith, inr (inl (past, refl)))
      | inr inside ↦ (
        segments x x0 y0 (x1 ∷ xs) ys,
        ground arith,
        inr (
            inr (segments-Between x x0 y0 (x1 ∷ xs) ys m l (ground (arith, le_total x x0)) inside)),
      )
    ]
  ]

-- Four knots and values, as the configuration model demands of each array.
abbrev IsFour : {F : Type 0} → List F → Type 0
IsFour xs = length xs ≡ 4

pub record IsChecked {F : Type 0} (cfg : DroopConfig F) : Type 0 where
  pub f : IsFour cfg.p_f_droop.f
  pub dp_f : IsFour cfg.p_f_droop.dp_f
  pub dq_f : IsFour cfg.p_f_droop.dq_f
  pub v : IsFour cfg.q_v_droop.v
  pub dp_v : IsFour cfg.q_v_droop.dp_v
  pub dq_v : IsFour cfg.q_v_droop.dq_v

module _ {F : Type 0} ⦃d : Float F⦄ where
  not_raised : (x : F) (xs ys : List F) → IsFour xs → IsFour ys → interp_clamped x xs ys ≢ none
  unfolding interp_clamped
  not_raised x (a ∷ b ∷ xs) (y ∷ ys) h k = ground arith
  not_raised x _ _ h k = ground arith

  interp_clamped-IsFour :
      (x : F) (xs ys : List F) → IsFour xs → IsFour ys → (r : F) × (interp_clamped x xs ys ≡ some r)
  interp_clamped-IsFour x xs ys h k = elim (Option-cases (interp_clamped x xs ys)) [
    | inl raised ↦ absurd (not_raised x xs ys h k raised)
    | inr found ↦ found
  ]

  add_curves-IsFour :
      (on : Bool) (x : F) (xs ps qs : List F) (sums : F × F)
      → IsFour xs
      → IsFour ps
      → IsFour qs
      → (r : F × F) × (add_curves on x xs ps qs sums ≡ some r)
  unfolding add_curves
  add_curves-IsFour false x xs ps qs sums h hp hq = (sums, refl)
  add_curves-IsFour true x xs ps qs (dp, dq) h hp hq =
      let (p, ep) = interp_clamped-IsFour x xs ps h hp in
      let (q, eq) = interp_clamped-IsFour x xs qs h hq in ((dp + p, dq + q), rw (ep, eq) refl)

  correction_off :
      (c : DroopController F) (frequency voltage : F) (r : DroopCorrection F)
      → correction c frequency voltage ≡ some r
      → is_enabled c ≡ false
      → (r.dp_kw ≡ d.nought * c.base) × (r.dq_kvar ≡ d.nought * c.base)
  unfolding correction is_enabled add_curves
  correction_off c frequency voltage r e off = ground arith

  -- With four knots and values in every curve the correction never raises; and a controller whose
  -- droop is switched off corrects by zero per unit of the base.
  pub correction_total :
      (c : DroopController F) (frequency voltage : F)
      → IsChecked c.cfg
      → (r : DroopCorrection F) × (correction c frequency voltage ≡ some r)
        × (is_enabled c ≡ false → (r.dp_kw ≡ d.nought * c.base) × (r.dq_kvar ≡ d.nought * c.base))
  unfolding correction
  correction_total c frequency voltage v =
      let pf = c.cfg.p_f_droop in
      let qv = c.cfg.q_v_droop in
      let (a, ea) =
        add_curves-IsFour (c.cfg.enabled && pf.enabled) frequency pf.f pf.dp_f pf.dq_f
          (d.nought, d.nought) v.f v.dp_f v.dq_f in
      let (b, eb) =
        add_curves-IsFour (c.cfg.enabled && qv.enabled) voltage qv.v qv.dp_v qv.dq_v a v.v v.dp_v
          v.dq_v in
      let r : DroopCorrection F = record { dp_kw = b.0 * c.base; dq_kvar = b.1 * c.base } in
      let done : correction c frequency voltage ≡ some r = rw (ea, eb) refl in
      (r, done, correction_off c frequency voltage r done)
