-- ===== src/Float.antt =====
-- What the code does with Python floats, as an interface: constants, the comparison `<=` and the
-- arithmetic. `IsOrdered` states the rules of IEEE arithmetic on finite values that the theorems
-- rely on. All of them survive rounding: rounding is monotone, so a sum with a value that is not
-- negative never falls below the other operand, and a quotient of `0 <= a <= b` lies in [0, 1].
-- NaN, infinities and overflow are outside the model. `Float/Milli` is an instance.
pub mod Order
pub mod Milli
use Prim.Native.Nat.{ℕ}
use edge_ems.Prelude.Int.{ℤ}
use edge_ems.Prelude.{◌≡◌, ◌⊎◌, Bool, true, not, ◌&&◌, if◌then◌else◌}

pub record Float (F : Type 0) : Type 0 where
  pub nought : F
  pub one : F
  -- `dec n k` is the literal n * 10 ** -k
  pub dec : ℕ → ℕ → F
  -- `float(n)`
  pub of_int : ℤ → F
  pub le : F → F → Bool
  pub add : F → F → F
  pub sub : F → F → F
  pub mul : F → F → F
  pub div : F → F → F
  pub neg : F → F

module _ {F : Type 0} ⦃d : Float F⦄ where
  infixl 65 ◌+◌ ◌-◌
  infixl 70 ◌*◌ ◌/◌
  infix 50 ◌≼◌
  abbrev pub ◌+◌ : F → F → F
  a + b = d.add a b

  abbrev pub ◌-◌ : F → F → F
  a - b = d.sub a b

  abbrev pub ◌*◌ : F → F → F
  a * b = d.mul a b

  abbrev pub ◌/◌ : F → F → F
  a / b = d.div a b

  abbrev pub neg : F → F
  neg a = d.neg a

  abbrev pub leb : F → F → Bool
  leb a b = d.le a b

  abbrev pub ltb : F → F → Bool
  ltb a b = not (d.le b a)

  abbrev pub eqb : F → F → Bool
  eqb a b = d.le a b && d.le b a

  -- Python's `min` and `max` keep the first argument on a tie.
  abbrev pub min : F → F → F
  min a b = if ltb b a then b else a

  abbrev pub max : F → F → F
  max a b = if ltb a b then b else a

  abbrev pub abs : F → F
  abs a = if ltb a d.nought then neg a else a

  abbrev pub ◌≼◌ : F → F → Type 0
  a ≼ b = leb a b ≡ true

pub record IsOrdered (F : Type 0) ⦃d : Float F⦄ : Type 0 where
  pub le_trans : (a b c : F) → a ≼ b → b ≼ c → a ≼ c
  pub le_total : (a b : F) → (a ≼ b) ⊎ (b ≼ a)
  pub nought-le-one : d.nought ≼ d.one
  pub dec_nonneg : (n k : ℕ) → d.nought ≼ d.dec n k
  pub le-add : (a b : F) → d.nought ≼ b → a ≼ a + b
  pub sub-le : (a b : F) → d.nought ≼ b → a - b ≼ a
  pub sub_nonneg : (a b : F) → b ≼ a → d.nought ≼ a - b
  pub sub_nonpos : (a b : F) → a ≼ b → a - b ≼ d.nought
  pub add_mono : (a b c : F) → b ≼ c → a + b ≼ a + c
  pub neg_anti : (a b : F) → a ≼ b → neg b ≼ neg a
  pub neg_nought : neg d.nought ≡ d.nought
  pub neg-neg : (a : F) → neg (neg a) ≡ a
  pub mul_nonneg : (a b : F) → d.nought ≼ a → d.nought ≼ b → d.nought ≼ a * b
  pub mul-le : (t a : F) → t ≼ d.one → d.nought ≼ a → t * a ≼ a
  pub div_nonneg : (a b : F) → d.nought ≼ a → d.nought ≼ b → d.nought ≼ a / b
  pub div-le-one : (a b : F) → d.nought ≼ a → a ≼ b → a / b ≼ d.one
  pub add-le : (a b : F) → b ≼ d.nought → a + b ≼ a
  pub le-sub : (a b : F) → b ≼ d.nought → a ≼ a - b
  pub sub_mono : (a b c : F) → a ≼ b → a - c ≼ b - c
  pub mul_nonpos : (a b : F) → d.nought ≼ a → b ≼ d.nought → a * b ≼ d.nought
  pub nonpos_mul : (a b : F) → a ≼ d.nought → d.nought ≼ b → a * b ≼ d.nought
  pub div_nonpos : (a b : F) → a ≼ d.nought → d.nought ≼ b → a / b ≼ d.nought
  pub div_mono : (a b c : F) → ltb d.nought c ≡ true → a ≼ b → a / c ≼ b / c
