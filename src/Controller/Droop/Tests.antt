-- ===== src/Controller/Droop/Tests.antt =====
-- The droop curves of the example configuration, in thousandths.
use edge_ems.Prelude.{◌≡◌, refl, ◌⊎◌, true, false, some, List, [], ◌∷◌}
use edge_ems.Float.{◌≼◌, ◌*◌}
use edge_ems.Prelude.Int.{ℤ, pos, negsuc}
use edge_ems.Float.Milli.{milli, milli-IsOrdered}
use edge_ems.Controller.Droop.{
  DroopConfig, DroopController, DroopCorrection, last, segments, interp_clamped, nondecreasing, new,
  correction, is_enabled, strictly_increasing, require_monotonic,
}
use edge_ems.Controller.Droop.Interp.{Between, interp_clamped-Between, correction_total}

abbrev knots : List ℤ
knots = pos 49800 ∷ pos 50200 ∷ pos 50500 ∷ []

abbrev values : List ℤ
values = pos 0 ∷ pos 0 ∷ pos 200 ∷ []

-- 50.1 Hz lies halfway between 49.8 Hz and 50.4 Hz; the correction there is half of 200.
halfway : interp_clamped (pos 50350) (pos 49500 ∷ knots) (negsuc 199 ∷ values) ≡ some (pos 100)
unfolding interp_clamped segments
halfway = refl

interp_clamped-Between_example :
    (r : ℤ) × (interp_clamped (pos 50350) (pos 49500 ∷ knots) (negsuc 199 ∷ values) ≡ some r)
    × ((pos 50350 ≼ pos 49500) × (r ≡ negsuc 199)
        ⊎ (last (pos 49800) (pos 50200 ∷ pos 50500 ∷ []) ≼ pos 50350)
          × (r ≡ last (negsuc 199) values)
        ⊎ Between (pos 50350) (pos 49500) (negsuc 199) knots values r)
unfolding nondecreasing
interp_clamped-Between_example =
    interp_clamped-Between milli-IsOrdered (pos 50350) (pos 49500) (pos 49800) (negsuc 199)
      (pos 50200 ∷ pos 50500 ∷ []) values refl refl

abbrev pub config : DroopConfig ℤ
config = record {
  enabled = true;
  p_f_droop = record {
    enabled = true;
    dp_f = negsuc 199 ∷ values;
    dq_f = pos 0 ∷ pos 0 ∷ pos 0 ∷ pos 0 ∷ [];
    f = pos 49500 ∷ knots;
  };
  q_v_droop = record {
    enabled = false;
    dp_v = pos 0 ∷ pos 0 ∷ pos 0 ∷ pos 0 ∷ [];
    dq_v = pos 0 ∷ pos 0 ∷ pos 0 ∷ pos 0 ∷ [];
    v = pos 207000 ∷ pos 225000 ∷ pos 235000 ∷ pos 253000 ∷ [];
  };
}

abbrev controller : DroopController ℤ
controller = record { cfg = config; base = pos 2000000 }

accepted : new config (pos 2000000) ≡ some controller
unfolding new require_monotonic strictly_increasing nondecreasing
accepted = refl

correction_total_example :
    (r : DroopCorrection ℤ) × (correction controller (pos 50350) (pos 230000) ≡ some r)
    × (is_enabled controller ≡ false
        → (r.dp_kw ≡ pos 0 * pos 2000000) × (r.dq_kvar ≡ pos 0 * pos 2000000))
correction_total_example =
    correction_total controller (pos 50350) (pos 230000)
      (record { f = refl; dp_f = refl; dq_f = refl; v = refl; dp_v = refl; dq_v = refl })
