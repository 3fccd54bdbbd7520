-- ===== src/Common/ModbusCodec/Words.antt =====
-- Splitting a number into words and back.
use Prim.Native.Nat.{◌+◌, ◌*◌, ◌/◌, ◌%◌, ◌^◌, ◌<◌}
use native.Mathlib.Nat.{
  one-le-pow, pow-succ', mod-lt, mod-eq_of_lt, div-add-mod', add-mul-mod_self_right,
}
use edge_ems.Prelude.{◌≡◌, refl, ◌∙◌, sym, ap, arith, ℕ, zero, suc, length}
use edge_ems.Common.ModbusCodec.{words_to_raw, raw_words}

regroup : (a b m p r : ℕ) → (a * m + b) * p + r ≡ b * p + r + a * (m * p)
regroup a b m p r = grind arith

shift_in : (raw b g p r : ℕ) → (raw * b + g) * p + r ≡ raw * (b * p) + (g * p + r)
shift_in raw b g p r = grind arith

-- A remainder by p times m: the next digit in base m above the remainder by p.
mod-mul : (x p m : ℕ) → 0 < p → 0 < m → x % (m * p) ≡ (x / p % m) * p + x % p
mod-mul x p m hp hm =
    let q = x / p in
    let digits = q % m * p + x % p in
    let small : digits < m * p = grind (arith, mod-lt q hm, mod-lt x hp) in
    let whole : x ≡ digits + q / m * (m * p) =
      sym (div-add-mod' x p)
      ∙ (ap (λ y. y * p + x % p) (sym (div-add-mod' q m)) ∙ regroup (q / m) (q % m) m p (x % p)) in
    ap (λ y. y % (m * p)) whole
    ∙ (add-mul-mod_self_right digits (q / m) (m * p) ∙ mod-eq_of_lt small)

pub length-raw_words : (n x : ℕ) → length (raw_words n x) ≡ n
unfolding raw_words
length-raw_words zero x = refl
length-raw_words (suc n) x = ap suc (length-raw_words n x)

power_pos : (n : ℕ) → 0 < (2 ^ 16) ^ n
power_pos n = one-le-pow n (2 ^ 16) (omega arith)

-- Reading back the words of a number gives its remainder, below what was read before.
pub words_to_raw-raw_words :
    (n x raw : ℕ) → words_to_raw raw (raw_words n x) ≡ raw * (2 ^ 16) ^ n + x % (2 ^ 16) ^ n
unfolding words_to_raw raw_words
words_to_raw-raw_words zero x raw = omega arith
words_to_raw-raw_words (suc n) x raw =
    let p = (2 ^ 16) ^ n in
    let digit = x / p % 2 ^ 16 in
    let whole = mod-mul x p (2 ^ 16) (power_pos n) (omega arith) in
    let keep : digit % 2 ^ 16 ≡ digit = omega arith in
    ap (λ w. words_to_raw (raw * 2 ^ 16 + w) (raw_words n x)) keep
    ∙ (words_to_raw-raw_words n x (raw * 2 ^ 16 + digit)
        ∙ (shift_in raw (2 ^ 16) digit p (x % p)
            ∙ (ap (λ y. raw * (2 ^ 16 * p) + y) (sym whole)
                ∙ ap (λ y. raw * y + x % y) (sym (pow-succ' (2 ^ 16) n)))))
