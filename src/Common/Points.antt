-- ===== src/Common/Points.antt =====
-- packages/common/src/common/points.py
use edge_ems.Prelude.{◌≡◌, Bool, true, false, Option, none, some}

-- GOOD, STALE, COMM_FAIL
pub data Quality : Type 0 where
  good stale comm_fail : Quality

abbrev pub quality_eq : Quality → Quality → Bool
quality_eq good good = true
quality_eq stale stale = true
quality_eq comm_fail comm_fail = true
quality_eq _ _ = false

pub record PointValue (F : Type 0) : Type 0 where
  pub value : Option F
  pub ts : F
  pub quality : Quality

-- A point that is there, with the value `v`, and GOOD.
abbrev pub IsGood : {F : Type 0} → Option (PointValue F) → F → Type 0
IsGood none v = ⊥
IsGood (some p) v = (p.value ≡ some v) × (p.quality ≡ good)
