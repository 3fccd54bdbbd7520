-- ===== src/Float/Milli.antt =====
-- An instance of `Float`: fixed-point numbers in thousandths, products and quotients rounded
-- towards zero. It shows that the laws can be met, and the tests run on it.
use Prim.Native.Nat.{◌+◌, ◌*◌, ◌/◌, ◌^◌, ◌≤◌}
use edge_ems.Prelude.{ℕ, suc, ◌≡◌, refl, arith, leb, Bool, true, not}
use edge_ems.Prelude.Int.{ℤ, pos, negsuc, pos_part, neg_part, sub_ℕ}
use edge_ems.Float.{Float, IsOrdered}

abbrev pub scale : ℕ
scale = 1000

abbrev pub le_milli : ℤ → ℤ → Bool
le_milli a b = leb (pos_part a + neg_part b) (pos_part b + neg_part a)

abbrev pub mul_milli : ℤ → ℤ → ℤ
mul_milli a b =
    sub_ℕ ((pos_part a * pos_part b + neg_part a * neg_part b) / scale)
      ((pos_part a * neg_part b + neg_part a * pos_part b) / scale)

-- `x / 0` is 0 on ℕ, so of the two quotients in a sum one is 0.
abbrev pub div_milli : ℤ → ℤ → ℤ
div_milli a b =
    sub_ℕ (pos_part a * scale / pos_part b + neg_part a * scale / neg_part b)
      (pos_part a * scale / neg_part b + neg_part a * scale / pos_part b)

instance abbrev pub milli : Float ℤ
milli = record {
  nought = pos 0;
  one = pos scale;
  dec = λ n k. pos (n * scale / 10 ^ k);
  of_int = λ a. sub_ℕ (pos_part a * scale) (neg_part a * scale);
  le = le_milli;
  add = λ a b. sub_ℕ (pos_part a + pos_part b) (neg_part a + neg_part b);
  sub = λ a b. sub_ℕ (pos_part a + neg_part b) (neg_part a + pos_part b);
  mul = mul_milli;
  div = div_milli;
  neg = λ a. sub_ℕ (neg_part a) (pos_part a);
}

mul_nonneg :
    (a b : ℤ)
    → le_milli (pos 0) a ≡ true
    → le_milli (pos 0) b ≡ true
    → le_milli (pos 0) (mul_milli a b) ≡ true
mul_nonneg (pos m) (pos n) p q = ground arith
mul_nonneg (pos m) (negsuc n) p q = ground arith
mul_nonneg (negsuc m) b p q = ground arith

scaled : (m n : ℕ) → m ≤ scale → m * n ≤ scale * n
scaled m n h = grind arith

mul-le :
    (t a : ℤ)
    → le_milli t (pos scale) ≡ true
    → le_milli (pos 0) a ≡ true
    → le_milli (mul_milli t a) a ≡ true
mul-le (pos m) (pos n) p q = ground (arith, scaled m n)
mul-le (negsuc m) (pos n) p q = ground arith
mul-le t (negsuc n) p q = ground arith

div_nonneg :
    (a b : ℤ)
    → le_milli (pos 0) a ≡ true
    → le_milli (pos 0) b ≡ true
    → le_milli (pos 0) (div_milli a b) ≡ true
div_nonneg (pos m) (pos n) p q = ground arith
div_nonneg (pos m) (negsuc n) p q = ground arith
div_nonneg (negsuc m) b p q = ground arith

div-le-one :
    (a b : ℤ)
    → le_milli (pos 0) a ≡ true
    → le_milli a b ≡ true
    → le_milli (div_milli a b) (pos scale) ≡ true
div-le-one (pos m) (pos n) p q = grind arith
div-le-one (pos m) (negsuc n) p q = ground arith
div-le-one (negsuc m) b p q = ground arith

zero_of_le : (n : ℕ) → le_milli (pos n) (pos 0) ≡ true → n ≡ 0
zero_of_le n h = ground arith

mul_nonpos :
    (a b : ℤ)
    → le_milli (pos 0) a ≡ true
    → le_milli b (pos 0) ≡ true
    → le_milli (mul_milli a b) (pos 0) ≡ true
mul_nonpos (pos m) (pos n) p q = rw (zero_of_le n q) (ground arith)
mul_nonpos (pos m) (negsuc n) p q = ground arith
mul_nonpos (negsuc m) b p q = ground arith

nonpos_mul :
    (a b : ℤ)
    → le_milli a (pos 0) ≡ true
    → le_milli (pos 0) b ≡ true
    → le_milli (mul_milli a b) (pos 0) ≡ true
nonpos_mul (pos m) (pos n) p q = rw (zero_of_le m p) (ground arith)
nonpos_mul (negsuc m) (pos n) p q = ground arith
nonpos_mul a (negsuc n) p q = ground arith

div_nonpos :
    (a b : ℤ)
    → le_milli a (pos 0) ≡ true
    → le_milli (pos 0) b ≡ true
    → le_milli (div_milli a b) (pos 0) ≡ true
div_nonpos (pos m) (pos n) p q = rw (zero_of_le m p) (ground arith)
div_nonpos (negsuc m) (pos n) p q = ground arith
div_nonpos a (negsuc n) p q = ground arith

quot_mono : (a b k : ℕ) → a ≤ b → a / k ≤ b / k
quot_mono a b k h = grind arith

div_mono :
    (a b c : ℤ)
    → not (le_milli c (pos 0)) ≡ true
    → le_milli a b ≡ true
    → le_milli (div_milli a c) (div_milli b c) ≡ true
div_mono (pos m) (pos n) (pos k) h p = ground (arith, quot_mono (m * scale) (n * scale) k)
div_mono (pos m) (negsuc n) (pos k) h p = ground arith
div_mono (negsuc m) (pos n) (pos k) h p = ground arith
div_mono (negsuc m) (negsuc n) (pos k) h p =
    ground (arith, quot_mono (suc n * scale) (suc m * scale) k)
div_mono a b (negsuc k) h p = ground arith

pub milli-IsOrdered : IsOrdered ℤ
milli-IsOrdered = record {
  le_trans = λ a b c p q. ground arith;
  le_total = λ a b. ground arith;
  nought-le-one = refl;
  dec_nonneg = λ n k. ground arith;
  le-add = λ a b p. ground arith;
  sub-le = λ a b p. ground arith;
  sub_nonneg = λ a b p. ground arith;
  sub_nonpos = λ a b p. ground arith;
  add_mono = λ a b c p. ground arith;
  neg_anti = λ a b p. ground arith;
  neg_nought = refl;
  neg-neg = λ a. ground arith;
  mul_nonneg = mul_nonneg;
  mul-le = mul-le;
  div_nonneg = div_nonneg;
  div-le-one = div-le-one;
  add-le = λ a b p. ground arith;
  le-sub = λ a b p. ground arith;
  sub_mono = λ a b c p. ground arith;
  mul_nonpos = mul_nonpos;
  nonpos_mul = nonpos_mul;
  div_nonpos = div_nonpos;
  div_mono = div_mono;
}
