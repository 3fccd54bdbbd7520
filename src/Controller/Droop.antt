-- ===== src/Controller/Droop.antt =====
-- packages/controller/src/controller/droop.py, with the droop records of
-- packages/common/src/common/config_models.py. `none` is the ValueError.
pub mod Interp
pub mod Tests
use edge_ems.Prelude.{
  Bool, true, false, not, ◌&&◌, ◌||◌, Option, none, some, List, [], ◌∷◌, if◌then◌else◌, ◌>>=◌,
  length, ◌==◌,
}
use edge_ems.Float.{Float, ◌+◌, ◌-◌, ◌*◌, ◌/◌, leb, ltb}

pub record PfDroop (F : Type 0) : Type 0 where
  pub enabled : Bool
  pub dp_f : List F
  pub dq_f : List F
  pub f : List F

pub record QvDroop (F : Type 0) : Type 0 where
  pub enabled : Bool
  pub dp_v : List F
  pub dq_v : List F
  pub v : List F

pub record DroopConfig (F : Type 0) : Type 0 where
  pub enabled : Bool
  pub p_f_droop : PfDroop F
  pub q_v_droop : QvDroop F

pub record DroopCorrection (F : Type 0) : Type 0 where
  pub dp_kw : F
  pub dq_kvar : F

pub record DroopController (F : Type 0) : Type 0 where
  pub cfg : DroopConfig F
  pub base : F

-- `ys[-1]` of a list with the first item `y`
abbrev pub last : {F : Type 0} → F → List F → F
last y [] = y
last _ (y ∷ ys) = last y ys

module _ {F : Type 0} ⦃d : Float F⦄ where
  -- the loop, from the knot (x0, y0) on; past the last knot it returns `ys[-1]`
  unfoldable pub segments : F → F → F → List F → List F → F
  segments x x0 y0 (x1 ∷ xs) (y1 ∷ ys) =
      let rest = segments x x1 y1 xs ys in
      if leb x x1 then y0 + (x - x0) / (x1 - x0) * (y1 - y0) else rest
  segments x x0 y0 [] ys = last y0 ys
  segments x x0 y0 (_ ∷ _) [] = y0

  unfoldable pub interp_clamped : F → List F → List F → Option F
  interp_clamped x (x0 ∷ x1 ∷ xs) (y0 ∷ ys) =
      if not (length (x1 ∷ xs) == length ys)
      then none
      else if leb x x0
      then some y0
      else if leb (last x1 xs) x
      then some (last y0 ys)
      else some (segments x x0 y0 (x1 ∷ xs) ys)
  interp_clamped x _ _ = none

  -- `all(a < b)` and `all(a <= b)` over the adjacent pairs
  unfoldable pub strictly_increasing : List F → Bool
  strictly_increasing (a ∷ b ∷ xs) = not (leb b a) && strictly_increasing (b ∷ xs)
  strictly_increasing _ = true

  unfoldable pub nondecreasing : List F → Bool
  nondecreasing (a ∷ b ∷ xs) = not (ltb b a) && nondecreasing (b ∷ xs)
  nondecreasing _ = true

  unfoldable pub require_monotonic : List F → List F → Option (Unit {0})
  require_monotonic xs ys =
      if not (strictly_increasing xs) then none else if nondecreasing ys then some tt else none

  unfoldable pub new : DroopConfig F → F → Option (DroopController F)
  new cfg base = if leb base d.nought then none else do
    _ ← require_monotonic cfg.p_f_droop.f cfg.p_f_droop.dp_f
    _ ← require_monotonic cfg.p_f_droop.f cfg.p_f_droop.dq_f
    _ ← require_monotonic cfg.q_v_droop.v cfg.q_v_droop.dp_v
    _ ← require_monotonic cfg.q_v_droop.v cfg.q_v_droop.dq_v
    some (record { cfg = cfg; base = base })

  unfoldable pub is_enabled : DroopController F → Bool
  is_enabled c = c.cfg.enabled && (c.cfg.p_f_droop.enabled || c.cfg.q_v_droop.enabled)

  -- one `if` of `correction`, on the sums so far
  unfoldable pub add_curves : Bool → F → List F → List F → List F → F × F → Option (F × F)
  add_curves false x xs ps qs sums = some sums
  add_curves true x xs ps qs (dp, dq) = do
    p ← interp_clamped x xs ps
    q ← interp_clamped x xs qs
    some (dp + p, dq + q)

  unfoldable pub correction : DroopController F → F → F → Option (DroopCorrection F)
  correction c frequency voltage =
      let pf = c.cfg.p_f_droop in
      let qv = c.cfg.q_v_droop in
      do
        sums ←
            add_curves (c.cfg.enabled && pf.enabled) frequency pf.f pf.dp_f pf.dq_f
              (d.nought, d.nought)
        total ← add_curves (c.cfg.enabled && qv.enabled) voltage qv.v qv.dp_v qv.dq_v sums
        some (record { dp_kw = total.0 * c.base; dq_kvar = total.1 * c.base })
