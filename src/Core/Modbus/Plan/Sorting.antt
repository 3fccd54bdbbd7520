-- ===== src/Core/Modbus/Plan/Sorting.antt =====
-- The requested points in the order of their offsets.
use Prim.Native.Nat.{◌≤◌}
use mathlib.Core.List.{Perm}
use mathlib.Core.List.Perm
use edge_ems.Prelude.{inl, inr, Bool-cases, List, [], ◌∷◌, arith, leb, All, All-mono}
use edge_ems.Core.Modbus.Plan.{Item, insert_item, sort_items}

module _ {F : Type 0} where
  abbrev pub IsSorted : List (Item F) → Type 0
  IsSorted [] = Unit
  IsSorted (x ∷ xs) = All (λ y. x.off ≤ y.off) xs × IsSorted xs

  All-insert_item :
      (P : Item F → Type 0) (x : Item F) (ys : List (Item F))
      → P x
      → All P ys
      → All P (insert_item x ys)
  All-insert_item P x [] p ps = (p, tt)
  All-insert_item P x (y ∷ ys) p (q, qs) = elim (Bool-cases (leb x.off y.off)) [
    | inl low ↦ rw low (p, (q, qs))
    | inr high ↦ rw high (q, All-insert_item P x ys p qs)
  ]

  pub All-sort_items : (P : Item F → Type 0) (xs : List (Item F)) → All P xs → All P (sort_items xs)
  unfolding sort_items
  All-sort_items P [] ps = tt
  All-sort_items P (x ∷ xs) (p, ps) = All-insert_item P x (sort_items xs) p (All-sort_items P xs ps)

  insert_item-IsSorted :
      (x : Item F) (ys : List (Item F)) → IsSorted ys → IsSorted (insert_item x ys)
  insert_item-IsSorted x [] s = (tt, tt)
  insert_item-IsSorted x (y ∷ ys) (above, s) = elim (Bool-cases (leb x.off y.off)) [
    | inl low ↦ rw low (
      (
        ground arith,
        All-mono (λ z. y.off ≤ z.off) (λ z. x.off ≤ z.off) ys (λ z h. ground arith) above,
      ),
      (above, s),
    )
    | inr high ↦ rw high (
      All-insert_item (λ z. y.off ≤ z.off) x ys (ground arith) above,
      insert_item-IsSorted x ys s,
    )
  ]

  pub sort_items-IsSorted : (xs : List (Item F)) → IsSorted (sort_items xs)
  unfolding sort_items
  sort_items-IsSorted [] = tt
  sort_items-IsSorted (x ∷ xs) = insert_item-IsSorted x (sort_items xs) (sort_items-IsSorted xs)

  insert_item-perm : (x : Item F) (ys : List (Item F)) → Perm (insert_item x ys) (x ∷ ys)
  insert_item-perm x [] = Perm.rfl
  insert_item-perm x (y ∷ ys) = elim (Bool-cases (leb x.off y.off)) [
    | inl low ↦ rw low Perm.rfl
    | inr high ↦ rw high (Perm.trans (Perm.cons y (insert_item-perm x ys)) (Perm.swap x y ys))
  ]

  pub sort_items-perm : (xs : List (Item F)) → Perm (sort_items xs) xs
  unfolding sort_items
  sort_items-perm [] = Perm.rfl
  sort_items-perm (x ∷ xs) =
      Perm.trans (insert_item-perm x (sort_items xs)) (Perm.cons x (sort_items-perm xs))
