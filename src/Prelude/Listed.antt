-- ===== src/Prelude/Listed.antt =====
-- Membership of a text in a list, and lists in another order.
use mathlib.Core.Bool.{true, Bool-set, ◌||◌}
use mathlib.Core.Logic.{inl, inr}
use mathlib.Core.Logic.Or
use mathlib.Core.List.{List, [], ◌∷◌, ◌++◌, Perm}
use mathlib.Core.List.Perm
use mathlib.Core.List.{Mem, mem-cons_self, mem-cons_of_mem, eq-or-mem_of_mem-cons, not-mem-nil}
use mathlib.Core.Path.{◌≡◌, refl, sym, ◌∙◌, subst}
use Prim.Native.String.{String}
use native.Mathlib.Omega.{arith}
use text.Mathlib.Text.{◌==◌}
use text.Mathlib.TextEquality.{eq_iff}
use edge_ems.Prelude.Tests.{Bool-cases}
use edge_ems.Prelude.Texts.{listed}

Mem-listed : (n : String) (xs : List String) → listed n xs ≡ true → Mem n xs
Mem-listed n [] e = absurd (ground arith)
Mem-listed n (x ∷ xs) e = elim (Bool-cases (x == n)) [
  | inl same ↦ subst (λ m. Mem n (m ∷ xs)) (sym ((eq_iff x n).0 same)) mem-cons_self
  | inr other ↦ mem-cons_of_mem x (Mem-listed n xs (ground arith))
]

listed-Mem : (n : String) (xs : List String) → Mem n xs → listed n xs ≡ true
listed-Mem n [] m = absurd (not-mem-nil m)
listed-Mem n (x ∷ xs) m =
    Or.elim (Bool-set (listed n (x ∷ xs)) true) (eq-or-mem_of_mem-cons m)
      (λ e. ground (arith, eq_iff x n, e)) (λ later. ground (arith, listed-Mem n xs later))

pub listed-perm : (n : String) (xs ys : List String) → Perm xs ys → listed n xs ≡ listed n ys
listed-perm n xs ys p = elim (Bool-cases (listed n xs)) [
  | inl e ↦ e ∙ sym (listed-Mem n ys ((Perm.mem_iff p).0 (Mem-listed n xs e)))
  | inr e ↦ elim (Bool-cases (listed n ys)) [
    | inl f ↦ let back = listed-Mem n xs ((Perm.mem_iff p).1 (Mem-listed n ys f)) in ground arith
    | inr f ↦ e ∙ sym f
  ]
]

pub listed-append :
    (n : String) (xs ys : List String) → listed n (xs ++ ys) ≡ (listed n xs || listed n ys)
listed-append n [] ys = refl
listed-append n (x ∷ xs) ys = ground (arith, listed-append n xs ys)
