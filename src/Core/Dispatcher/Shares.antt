-- ===== src/Core/Dispatcher/Shares.antt =====
-- packages/core/src/core/dispatcher.py: `share_battery_power`, from a setpoint of the aggregate to the
-- units. `sum` adds from left to right.
use edge_ems.Prelude.{Bool, [], ◌∷◌, is_empty, if◌then◌else◌}
use edge_ems.Prelude.Dict.{Dict}
use edge_ems.Float.{Float, ◌+◌, ◌-◌, ◌*◌, ◌/◌, neg, leb, max, abs}

pub record UnitLimits (F : Type 0) : Type 0 where
  pub charge_kw : F
  pub discharge_kw : F

module _ {F : Type 0} ⦃d : Float F⦄ where
  abbrev pub capacities : Bool → Dict (UnitLimits F) → Dict F
  capacities charging [] = []
  capacities charging ((uid, lim) ∷ ls) =
      (uid, max d.nought (if charging then lim.charge_kw else lim.discharge_kw))
      ∷ capacities charging ls

  abbrev pub sum_from : F → Dict F → F
  sum_from acc [] = acc
  sum_from acc ((_, x) ∷ xs) = sum_from (acc + x) xs

  abbrev pub map_values : {V : Type 0} → (V → F) → Dict V → Dict F
  map_values f [] = []
  map_values f ((k, v) ∷ vs) = (k, f v) ∷ map_values f vs

  -- the three ways to split over units with the capacities `caps`, which add up to `cap_total`
  unfoldable pub split_over : Dict (UnitLimits F) → Dict F → F → F → F → F → Dict F × F
  split_over limits caps cap_total sign magnitude total_kw =
      if leb cap_total d.nought
      then (map_values (λ _. d.nought) limits, total_kw)
      else if leb cap_total magnitude
      then (map_values (λ cap. sign * cap) caps, sign * (magnitude - cap_total))
      else (map_values (λ cap. sign * magnitude * cap / cap_total) caps, d.nought)

  unfoldable pub share_battery_power : F → Dict (UnitLimits F) → Dict F × F
  share_battery_power total_kw limits =
      if is_empty limits
      then ([], total_kw)
      else let charging = leb d.nought total_kw in
        let caps = capacities charging limits in
        split_over limits caps (sum_from d.nought caps) (if charging then d.one else neg d.one)
          (abs total_kw) total_kw
