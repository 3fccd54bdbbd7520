-- ===== src/Core/ConfigApi/Pairs.antt =====
-- The comparison of two sets of assets, by what they name.
use edge_ems.Prelude.{
  ◌≡◌, sym, ◌⊎◌, ◌↔◌, inl, inr, Bool-cases, Bool, true, ◌&&◌, List, [], ◌∷◌, str_eq, every, arith,
  eq_iff, subst,
}
use edge_ems.Core.ConfigApi.{Pair, member, same_set}

-- The pair is one of the list.
abbrev pub Names : Pair → List Pair → Type 0
Names p [] = ⊥
Names p (q ∷ qs) = ((p.0 ≡ q.0) × (p.1 ≡ q.1)) ⊎ Names p qs

member_iff : (p : Pair) (qs : List Pair) → (member p qs ≡ true) ↔ Names p qs
member_iff p [] = (λ e. absurd (ground arith), λ h. absurd h)
member_iff (i, c) ((j, k) ∷ qs) =
    let ih = member_iff (i, c) qs in
    let ids = eq_iff i j in
    let kinds = eq_iff c k in
    elim (Bool-cases (str_eq i j && str_eq c k)) [
      | inl same ↦ (λ e. inl (ids.0 (ground arith), kinds.0 (ground arith)), λ h. ground arith)
      | inr other ↦ (
        λ e. inr (ih.0 (ground arith)),
        λ h. elim h [
          | inl (x, y) ↦ absurd (ground (arith, ids.1 x, kinds.1 y))
          | inr more ↦ ground (arith, ih.1 more)
        ],
      )
    ]

both_true : (a b : Bool) → (a && b) ≡ true → (a ≡ true) × (b ≡ true)
both_true a b e = (ground arith, ground arith)

every-Names :
    (xs ys : List Pair) → every (λ x. member x ys) xs ≡ true → (p : Pair) → Names p xs → Names p ys
every-Names [] ys e p h = absurd h
every-Names (x ∷ xs) ys e p h =
    let (here, rest) = both_true (member x ys) (every (λ y. member y ys) xs) e in
    elim h [
      | inl (i, c) ↦
          subst (λ a. Names (a, p.1) ys) (sym i)
            (subst (λ a. Names (x.0, a) ys) (sym c) ((member_iff x ys).0 here))
      | inr more ↦ every-Names xs ys rest p more
    ]

pub same_set-Names :
    (xs ys : List Pair) → same_set xs ys ≡ true → (p : Pair) → Names p xs ↔ Names p ys
same_set-Names xs ys e p =
    let (into, back) = both_true (every (λ x. member x ys) xs) (every (λ y. member y xs) ys) e in
    (every-Names xs ys into p, every-Names ys xs back p)
