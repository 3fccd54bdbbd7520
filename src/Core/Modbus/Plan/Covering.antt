-- ===== src/Core/Modbus/Plan/Covering.antt =====
-- The blocks of a plan hold every requested point, whole.
use Prim.Native.Nat.{◌+◌, ◌-◌, ◌≤◌, ◌<◌}
use mathlib.Core.List.{Perm}
use mathlib.Core.List.Perm
use edge_ems.Prelude.{
  ◌≡◌, refl, sym, ap, ◌∙◌, subst, inl, inr, Bool-cases, Option-cases, some, List, [], ◌∷◌, ◌++◌, ℕ,
  String, map, arith, ltb, All, All-mono, All-both, All-append,
}
use edge_ems.Prelude.Dict.{Dict}
use edge_ems.Common.RegisterMap.{RegisterDef}
use edge_ems.Common.RegisterMap.Disjoint.{Apart}
use edge_ems.Core.Modbus.Plan.{Item, ReadBlock, items, sort_items, plan_from, plan_reads}
use edge_ems.Core.Modbus.Plan.Items.{IsItem, HasWords, ends_in_order, items-IsItem}
use edge_ems.Core.Modbus.Plan.Sorting.{
  IsSorted, All-sort_items, sort_items-IsSorted, sort_items-perm,
}

module _ {F : Type 0} where
  abbrev pub points_of : List (ReadBlock F) → List (Item F)
  points_of [] = []
  points_of (b ∷ bs) = b.points ++ points_of bs

  -- Every point of the block lies within its registers.
  abbrev pub Holds : ReadBlock F → Type 0
  Holds b = All (λ x. (b.start ≤ x.off) × (x.off + x.wide ≤ b.start + b.count)) b.points

  -- Every block starts more than the gap after the one before, the first one after `end`.
  abbrev pub IsSpaced : ℕ → ℕ → List (ReadBlock F) → Type 0
  IsSpaced gap end [] = Unit
  IsSpaced gap end (b ∷ bs) = (end + gap < b.start) × IsSpaced gap (b.start + b.count) bs

  abbrev pub IsSpread : ℕ → List (ReadBlock F) → Type 0
  IsSpread gap [] = Unit
  IsSpread gap (b ∷ bs) = IsSpaced gap (b.start + b.count) bs

  -- ends are in the order of the offsets
  abbrev EndsUp : List (Item F) → Type 0
  EndsUp [] = Unit
  EndsUp (x ∷ xs) = All (λ y. (x.off ≤ y.off) × (x.off + x.wide ≤ y.off + y.wide)) xs × EndsUp xs

  abbrev Inside : ℕ → ℕ → Item F → Type 0
  Inside start end x = (start ≤ x.off) × (x.off + x.wide ≤ end)

  abbrev Ahead : ℕ → ℕ → Item F → Type 0
  Ahead start end x = (start ≤ x.off) × (end ≤ x.off + x.wide)

  append_assoc : (xs ys zs : List (Item F)) → (xs ++ ys) ++ zs ≡ xs ++ (ys ++ zs)
  append_assoc [] ys zs = refl
  append_assoc (x ∷ xs) ys zs = ap (λ l. x ∷ l) (append_assoc xs ys zs)

  append-nil : (xs : List (Item F)) → xs ++ [] ≡ xs
  append-nil [] = refl
  append-nil (x ∷ xs) = ap (λ l. x ∷ l) (append-nil xs)

  points_of-plan_from :
      (gap start end : ℕ) (current xs : List (Item F))
      → points_of (plan_from gap start end current xs) ≡ current ++ xs
  unfolding plan_from
  points_of-plan_from gap start end [] [] = refl
  points_of-plan_from gap start end (c ∷ cs) [] = refl
  points_of-plan_from gap start end [] (x ∷ xs) =
      points_of-plan_from gap x.off (x.off + x.wide) (x ∷ []) xs
  points_of-plan_from gap start end (c ∷ cs) (x ∷ xs) = elim (Bool-cases (ltb (end + gap) x.off)) [
    | inl far ↦
        rw far
          (ap (λ l. (c ∷ cs) ++ l) (points_of-plan_from gap x.off (x.off + x.wide) (x ∷ []) xs))
    | inr near ↦ rw near (
        points_of-plan_from gap start (x.off + x.wide) ((c ∷ cs) ++ (x ∷ [])) xs
        ∙ append_assoc (c ∷ cs) (x ∷ []) xs)
  ]

  plan_from-Holds :
      (gap start end : ℕ) (current xs : List (Item F))
      → All (Inside start end) current
      → All (Ahead start end) xs
      → EndsUp xs
      → All Holds (plan_from gap start end current xs)
  unfolding plan_from
  plan_from-Holds gap start end [] [] inside ahead up = tt
  plan_from-Holds gap start end (c ∷ cs) [] inside ahead up = (
    All-mono (Inside start end) (λ x. (start ≤ x.off) × (x.off + x.wide ≤ start + (end - start)))
        (c ∷ cs) (λ x h. (h.0, omega arith)) inside,
    tt,
  )
  plan_from-Holds gap start end [] (x ∷ xs) inside ((s, e), ahead) (after, up) =
      plan_from-Holds gap x.off (x.off + x.wide) (x ∷ []) xs ((omega arith, omega arith), tt) after
        up
  plan_from-Holds gap start end (c ∷ cs) (x ∷ xs) inside ((s, e), ahead) (after, up) =
      elim (Bool-cases (ltb (end + gap) x.off)) [
        | inl far ↦ rw far (
          All-mono (Inside start end)
              (λ x. (start ≤ x.off) × (x.off + x.wide ≤ start + (end - start))) (c ∷ cs)
              (λ x h. (h.0, omega arith)) inside,
          plan_from-Holds gap x.off (x.off + x.wide) (x ∷ []) xs ((omega arith, omega arith), tt)
              after up,
        )
        | inr near ↦ rw near (
            plan_from-Holds gap start (x.off + x.wide) ((c ∷ cs) ++ (x ∷ [])) xs
              (All-append (Inside start (x.off + x.wide)) (c ∷ cs) (x ∷ [])
                (All-mono (Inside start end) (Inside start (x.off + x.wide)) (c ∷ cs)
                  (λ y h. (h.0, omega arith)) inside)
                ((s, omega arith), tt))
              (All-mono (λ y. (x.off ≤ y.off) × (x.off + x.wide ≤ y.off + y.wide))
                (Ahead start (x.off + x.wide)) xs (λ y h. (omega arith, h.1)) after)
              up)
      ]

  -- the first block starts at `start`, and the others keep the gap
  abbrev Opens : ℕ → ℕ → List (ReadBlock F) → Type 0
  Opens gap start [] = ⊥
  Opens gap start (b ∷ bs) = (b.start ≡ start) × IsSpaced gap (b.start + b.count) bs

  IsSpaced-Opens :
      (gap end start : ℕ) (bs : List (ReadBlock F))
      → Opens gap start bs
      → end + gap < start
      → IsSpaced gap end bs
  IsSpaced-Opens gap end start [] h far = absurd h
  IsSpaced-Opens gap end start (b ∷ bs) (e, h) far = (omega (arith, e), h)

  plan_from-Opens :
      (gap start end : ℕ) (c : Item F) (cs xs : List (Item F))
      → start ≤ end
      → All (λ x. end ≤ x.off + x.wide) xs
      → EndsUp xs
      → Opens gap start (plan_from gap start end (c ∷ cs) xs)
  unfolding plan_from
  plan_from-Opens gap start end c cs [] order ahead up = (refl, tt)
  plan_from-Opens gap start end c cs (x ∷ xs) order (e, ahead) (after, up) =
      let later =
        All-mono (λ y. (x.off ≤ y.off) × (x.off + x.wide ≤ y.off + y.wide))
          (λ y. x.off + x.wide ≤ y.off + y.wide) xs (λ y h. h.1) after in
      elim (Bool-cases (ltb (end + gap) x.off)) [
        | inl far ↦ rw far (
          refl,
          IsSpaced-Opens gap (start + (end - start)) x.off
              (plan_from gap x.off (x.off + x.wide) (x ∷ []) xs)
              (plan_from-Opens gap x.off (x.off + x.wide) x [] xs (omega arith) later up)
              (ground arith),
        )
        | inr near ↦ rw near (
            plan_from-Opens gap start (x.off + x.wide) c (cs ++ (x ∷ [])) xs (omega arith) later up)
      ]

  Opens-IsSpread : (gap start : ℕ) (bs : List (ReadBlock F)) → Opens gap start bs → IsSpread gap bs
  Opens-IsSpread gap start [] h = tt
  Opens-IsSpread gap start (b ∷ bs) h = h.1

  plan_from-IsSpread :
      (gap : ℕ) (xs : List (Item F)) → EndsUp xs → IsSpread gap (plan_from gap 0 0 [] xs)
  unfolding plan_from
  plan_from-IsSpread gap [] up = tt
  plan_from-IsSpread gap (x ∷ xs) (after, up) =
      Opens-IsSpread gap x.off (plan_from gap x.off (x.off + x.wide) (x ∷ []) xs) (
        plan_from-Opens gap x.off (x.off + x.wide) x [] xs (omega arith)
          (All-mono (λ y. (x.off ≤ y.off) × (x.off + x.wide ≤ y.off + y.wide))
            (λ y. x.off + x.wide ≤ y.off + y.wide) xs (λ y h. h.1) after)
          up)

  Ahead-of_nought : (xs : List (Item F)) → All (Ahead 0 0) xs
  Ahead-of_nought [] = tt
  Ahead-of_nought (x ∷ xs) = ((omega arith, omega arith), Ahead-of_nought xs)

  IsItem-EndsUp :
      (points : Dict (RegisterDef F)) (xs : List (Item F))
      → Apart points
      → HasWords points
      → All (IsItem points) xs
      → IsSorted xs
      → EndsUp xs
  IsItem-EndsUp points [] apart words is s = tt
  IsItem-EndsUp points (x ∷ xs) apart words (i, is) (above, s) = (
    All-both (IsItem points) (λ y. x.off ≤ y.off)
        (λ y. (x.off ≤ y.off) × (x.off + x.wide ≤ y.off + y.wide)) xs
        (λ y j le. (le, ends_in_order points x y apart words i j le)) is above,
    IsItem-EndsUp points xs apart words is s,
  )

  -- For a map whose registers do not overlap and have a word at least: the points of the plan's
  -- blocks are the requested names in some order, each as often as it was requested, each with its
  -- own register, offset and width; every block holds its points whole; and each block starts more
  -- than the gap after the end of the block before.
  pub plan_reads-Covers :
      (points : Dict (RegisterDef F)) (names : List String) (gap : ℕ) (blocks : List (ReadBlock F))
      → Apart points
      → HasWords points
      → plan_reads points names gap ≡ some blocks
      → Perm (map (λ x. x.name) (points_of blocks)) names
        × All (IsItem points) (points_of blocks)
        × All Holds blocks
        × IsSpread gap blocks
  unfolding plan_reads
  plan_reads-Covers points names gap blocks apart words e =
      elim (Option-cases (items points names)) [
        | inl a ↦ absurd (ground arith)
        | inr (xs, a) ↦
            let sorted = sort_items xs in
            let whole : plan_from gap 0 0 [] sorted ≡ blocks = ground arith in
            let (named, is) = items-IsItem points names xs a in
            let js = All-sort_items (IsItem points) xs is in
            let up = IsItem-EndsUp points sorted apart words js (sort_items-IsSorted xs) in
            let flat = points_of-plan_from gap 0 0 [] sorted in
            subst
              (λ bs.
                Perm (map (λ x. x.name) (points_of bs)) names
                × All (IsItem points) (points_of bs)
                × All Holds bs
                × IsSpread gap bs)
              whole
              (
                subst (λ l. Perm (map (λ x. x.name) l) names) (sym flat)
                    (subst (λ l. Perm (map (λ x. x.name) sorted) l) named
                      (Perm.map (λ x. x.name) (sort_items-perm xs))),
                subst (All (IsItem points)) (sym flat) js,
                plan_from-Holds gap 0 0 [] sorted tt (Ahead-of_nought sorted) up,
                plan_from-IsSpread gap sorted up,
              )
      ]
