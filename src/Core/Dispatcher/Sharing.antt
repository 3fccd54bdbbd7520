-- ===== src/Core/Dispatcher/Sharing.antt =====
-- The battery setpoint is split over all units, in its own direction.
use edge_ems.Prelude.{
  ◌≡◌, refl, ap, ◌∙◌, inl, inr, Bool, Bool-cases, true, false, [], ◌∷◌, All, arith, if◌then◌else◌,
}
use edge_ems.Prelude.Dict.{Dict, keys, values}
use edge_ems.Float.{Float, IsOrdered, ◌≼◌, ◌-◌, ◌*◌, ◌/◌, neg, leb, abs}
use edge_ems.Float.Order.{max_lem, le_refl}
use edge_ems.Core.Dispatcher.{
  UnitLimits, capacities, sum_from, map_values, split_over, share_battery_power,
}

module _ {F : Type 0} ⦃d : Float F⦄ where
  keys-map_values : {V : Type 0} (f : V → F) (vs : Dict V) → keys (map_values f vs) ≡ keys vs
  keys-map_values f [] = refl
  keys-map_values f ((k, v) ∷ vs) = ap (λ ks. k ∷ ks) (keys-map_values f vs)

  keys-capacities :
      (charging : Bool) (ls : Dict (UnitLimits F)) → keys (capacities charging ls) ≡ keys ls
  keys-capacities charging [] = refl
  keys-capacities charging ((k, v) ∷ ls) = ap (λ ks. k ∷ ks) (keys-capacities charging ls)

  All-map_values :
      {V : Type 0} (P : V → Type 0) (Q : F → Type 0) (f : V → F) (vs : Dict V)
      → ((v : V) → P v → Q (f v))
      → All P (values vs)
      → All Q (values (map_values f vs))
  All-map_values P Q f [] step h = tt
  All-map_values P Q f ((k, v) ∷ vs) step (p, h) = (step v p, All-map_values P Q f vs step h)

  All-constant :
      {V : Type 0} (Q : F → Type 0) (x : F) (vs : Dict V)
      → Q x
      → All Q (values (map_values (λ _. x) vs))
  All-constant Q x [] q = tt
  All-constant Q x ((k, v) ∷ vs) q = (q, All-constant Q x vs q)

  -- every share and the rest lie on the side of zero that `P` names
  abbrev pub IsSplit : (F → Type 0) → Dict F × F → Type 0
  IsSplit P (shares, leftover) = All P (values shares) × P leftover

module _ {F : Type 0} ⦃d : Float F⦄ (laws : IsOrdered F) where
  capacities_nonneg :
      (charging : Bool) (ls : Dict (UnitLimits F))
      → All (λ x. d.nought ≼ x) (values (capacities charging ls))
  capacities_nonneg charging [] = tt
  capacities_nonneg charging ((k, lim) ∷ ls) = (
    (max_lem laws d.nought (if charging then lim.charge_kw else lim.discharge_kw)).0,
    capacities_nonneg charging ls,
  )

  abs_nonneg : (x : F) → d.nought ≼ abs x
  abs_nonneg x = ground (arith, laws.le_total x d.nought, laws.neg_anti x d.nought, laws.neg_nought)

  le_of_not-le : (x : F) → leb d.nought x ≡ false → x ≼ d.nought
  le_of_not-le x h = ground (arith, laws.le_total d.nought x)

  le_of_not-lt_nought : (x : F) → leb x d.nought ≡ false → d.nought ≼ x
  le_of_not-lt_nought x h = ground (arith, laws.le_total d.nought x)

  neg-one_nonpos : neg d.one ≼ d.nought
  neg-one_nonpos = ground (arith, laws.neg_anti d.nought d.one, laws.neg_nought, laws.nought-le-one)

  keys-split_over :
      (limits : Dict (UnitLimits F)) (caps : Dict F) (cap_total sign magnitude total_kw : F)
      → keys caps ≡ keys limits
      → keys (split_over limits caps cap_total sign magnitude total_kw).0 ≡ keys limits
  unfolding split_over
  keys-split_over limits caps cap_total sign magnitude total_kw e =
      elim (Bool-cases (leb cap_total d.nought)) [
        | inl empty ↦ rw empty (keys-map_values (λ _. d.nought) limits)
        | inr some_cap ↦ rw some_cap (elim (Bool-cases (leb cap_total magnitude)) [
          | inl full ↦ rw full (keys-map_values (λ cap. sign * cap) caps ∙ e)
          | inr part ↦
              rw part (keys-map_values (λ cap. sign * magnitude * cap / cap_total) caps ∙ e)
        ])
      ]

  -- What holds of zero, of `sign` times a capacity, of a part of it and of the setpoint holds of the
  -- whole split.
  split_over-IsSplit :
      (P : F → Type 0) (limits : Dict (UnitLimits F)) (caps : Dict F)
      (cap_total sign magnitude total_kw : F)
      → All (λ x. d.nought ≼ x) (values caps)
      → P d.nought
      → P total_kw
      → ((x : F) → d.nought ≼ x → P (sign * x))
      → ((x : F) → d.nought ≼ x → d.nought ≼ cap_total → P (sign * magnitude * x / cap_total))
      → IsSplit P (split_over limits caps cap_total sign magnitude total_kw)
  unfolding split_over
  split_over-IsSplit P limits caps cap_total sign magnitude total_kw nonneg zero given whole part =
      elim (Bool-cases (leb cap_total d.nought)) [
        | inl empty ↦ rw empty (All-constant P d.nought limits zero, given)
        | inr some_cap ↦ rw some_cap (elim (Bool-cases (leb cap_total magnitude)) [
          | inl full ↦ rw full (
            All-map_values (λ x. d.nought ≼ x) P (λ cap. sign * cap) caps whole nonneg,
            whole (magnitude - cap_total) (laws.sub_nonneg magnitude cap_total full),
          )
          | inr less ↦ rw less (
            All-map_values (λ x. d.nought ≼ x) P (λ cap. sign * magnitude * cap / cap_total) caps
                (λ x h. part x h (le_of_not-lt_nought cap_total some_cap)) nonneg,
            zero,
          )
        ])
      ]

  -- Every unit gets a share, and no other. A setpoint that charges gives only shares that charge and
  -- leaves none that discharges; one that discharges gives only shares that discharge and leaves
  -- none that charges: whether the fleet saturates, has no headroom or has no unit.
  pub share_battery_power-IsSplit :
      (total_kw : F) (limits : Dict (UnitLimits F))
      → let split = share_battery_power total_kw limits in
        (keys split.0 ≡ keys limits)
        × (leb d.nought total_kw ≡ true → IsSplit (λ x. d.nought ≼ x) split)
        × (leb d.nought total_kw ≡ false → IsSplit (λ x. x ≼ d.nought) split)
  unfolding share_battery_power
  share_battery_power-IsSplit total_kw [] = (refl, λ e. (tt, e), λ e. (tt, le_of_not-le total_kw e))
  share_battery_power-IsSplit total_kw (l ∷ ls) =
      let limits = l ∷ ls in
      let caps = capacities (leb d.nought total_kw) limits in
      let nonneg = capacities_nonneg (leb d.nought total_kw) limits in
      let sum = sum_from d.nought caps in
      let sign = if leb d.nought total_kw then d.one else neg d.one in
      (
        keys-split_over limits caps sum sign (abs total_kw) total_kw
            (keys-capacities (leb d.nought total_kw) limits),
        λ e.
            let up : d.nought ≼ sign = rw e laws.nought-le-one in
            split_over-IsSplit (λ x. d.nought ≼ x) limits caps sum sign (abs total_kw) total_kw
              nonneg (le_refl laws d.nought) e (λ x h. laws.mul_nonneg sign x up h)
              (λ x h t.
                laws.div_nonneg (sign * abs total_kw * x) sum
                  (laws.mul_nonneg (sign * abs total_kw) x
                    (laws.mul_nonneg sign (abs total_kw) up (abs_nonneg total_kw)) h)
                  t),
        λ e.
            let down : sign ≼ d.nought = rw e neg-one_nonpos in
            split_over-IsSplit (λ x. x ≼ d.nought) limits caps sum sign (abs total_kw) total_kw
              nonneg (le_refl laws d.nought) (le_of_not-le total_kw e)
              (λ x h. laws.nonpos_mul sign x down h)
              (λ x h t.
                laws.div_nonpos (sign * abs total_kw * x) sum
                  (laws.nonpos_mul (sign * abs total_kw) x
                    (laws.nonpos_mul sign (abs total_kw) down (abs_nonneg total_kw)) h)
                  t),
      )
