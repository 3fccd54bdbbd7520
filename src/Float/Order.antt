-- ===== src/Float/Order.antt =====
-- Consequences of the order laws: reflexivity, clamping into a window.
use edge_ems.Prelude.{◌≡◌, true, false, arith}
use edge_ems.Float.{Float, IsOrdered, ◌≼◌, ltb, min, max}

module _ {F : Type 0} ⦃d : Float F⦄ (laws : IsOrdered F) where
  open laws use {le_trans, le_total}

  pub le_refl : (a : F) → a ≼ a
  le_refl a = ground (arith, le_total a a)

  pub le_of_lt : (a b : F) → ltb a b ≡ true → a ≼ b
  le_of_lt a b h = ground (arith, le_total a b)

  pub le_of_not-lt : (a b : F) → ltb a b ≡ false → b ≼ a
  le_of_not-lt a b h = ground arith

  pub min_lem : (a b : F) → (min a b ≼ a) × (min a b ≼ b)
  min_lem a b = ground (arith, le_total a b, le_refl a, le_refl b)

  pub max_lem : (a b : F) → (a ≼ max a b) × (b ≼ max a b)
  max_lem a b = ground (arith, le_total a b, le_refl a, le_refl b)

  pub le-min : (a b c : F) → c ≼ a → c ≼ b → c ≼ min a b
  le-min a b c p q = ground arith

  pub max-le : (a b c : F) → a ≼ c → b ≼ c → max a b ≼ c
  max-le a b c p q = ground arith
