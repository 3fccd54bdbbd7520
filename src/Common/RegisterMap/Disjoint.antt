-- ===== src/Common/RegisterMap/Disjoint.antt =====
-- What a register map that loads guarantees.
use Prim.Native.Nat.{◌+◌, ◌≤◌, ◌<◌}
use edge_ems.Prelude.{
  ◌≡◌, refl, ap, sym, ◌∙◌, inl, inr, true, false, Option-cases, none, some, List, [], ◌∷◌, ◌++◌, ℕ,
  zero, suc, String, str_eq, arith, list_cases, subst, All, All-mono, is_some,
}
use native.Mathlib.Decide.{dec_lt}
use edge_ems.Prelude.Dict.{Dict, lookup, values}
use edge_ems.Common.DataModel.{DataModel, AssetClassDef, PointDef}
use edge_ems.Common.RegisterMap.{
  RegisterDef, RegisterMap, width, owner, claim, access_errors, is_read_only, is_write_only,
  points_errors, loaded, load_register_map,
}

-- After a claim its addresses are taken, and the others are as they were.
owner-claim :
    (pname : String) (addr n a : ℕ) (occupied : List (ℕ × String))
    → (a < addr → owner a (claim pname addr n occupied).1 ≡ owner a occupied)
      × (addr + n ≤ a → owner a (claim pname addr n occupied).1 ≡ owner a occupied)
      × (addr ≤ a → a < addr + n → owner a (claim pname addr n occupied).1 ≡ some pname)
owner-claim pname addr zero a occupied = (λ h. refl, λ h. refl, λ h k. absurd (omega arith))
owner-claim pname addr (suc n) a occupied =
    let (below, above, within) = owner-claim pname (suc addr) n a ((addr, pname) ∷ occupied) in
    (
      λ h. ground (arith, below),
      λ h. ground (arith, above),
      λ h k. elim (dec_lt addr a) [
        | yes more ↦ within (omega arith) (omega arith)
        | no same ↦ ground (arith, below)
      ],
    )

claim-free :
    (pname : String) (addr n a : ℕ) (occupied : List (ℕ × String))
    → (claim pname addr n occupied).0 ≡ []
    → addr ≤ a
    → a < addr + n
    → owner a occupied ≡ none
claim-free pname addr zero a occupied e h k = absurd (omega arith)
claim-free pname addr (suc n) a occupied e h k = elim (dec_lt addr a) [
  | yes more ↦
      let ih = claim-free pname (suc addr) n a ((addr, pname) ∷ occupied) in
      elim (Option-cases (owner addr occupied)) [
        | inl free ↦ ground (arith, ih)
        | inr (other, taken) ↦ absurd (ground arith)
      ]
  | no same ↦ elim (Option-cases (owner addr occupied)) [
    | inl free ↦ ground arith
    | inr (other, taken) ↦ absurd (ground arith)
  ]
]

free-before :
    (pname : String) (addr n a : ℕ) (occupied : List (ℕ × String))
    → owner a (claim pname addr n occupied).1 ≡ none
    → owner a occupied ≡ none
free-before pname addr n a occupied h =
    let (below, above, within) = owner-claim pname addr n a occupied in
    elim (dec_lt a addr) [
      | yes lo ↦ sym (below lo) ∙ h
      | no hi ↦ elim (dec_lt a (addr + n)) [
        | yes inside ↦ absurd (ground (arith, within (omega arith) inside))
        | no out ↦ sym (above (omega arith)) ∙ h
      ]
    ]

append_nil : {A : Type 0} (xs ys : List A) → xs ++ ys ≡ [] → (xs ≡ []) × (ys ≡ [])
append_nil [] ys e = (refl, e)
append_nil (x ∷ xs) ys e = absurd (ground arith)

module _ {F : Type 0} where
  -- The register of this address belongs to the point.
  abbrev pub Covers : RegisterDef F → ℕ → Type 0
  Covers reg a = (n : ℕ) × (width reg ≡ some n) × (reg.address ≤ a) × (a < reg.address + n)

  -- No address belongs to two points.
  abbrev pub Apart : Dict (RegisterDef F) → Type 0
  Apart [] = Unit
  Apart ((_, reg) ∷ regs) =
      All (λ other. (a : ℕ) → Covers reg a → Covers other a → ⊥) (values regs) × Apart regs

  -- A point of the data model can be read or written as its direction needs; any other has a role.
  abbrev pub IsPermitted : Dict PointDef → String → RegisterDef F → Type 0
  IsPermitted points n reg =
      (lookup n points ≡ none → is_some reg.role ≡ true)
      × ((p : PointDef)
          → lookup n points ≡ some p
          → (str_eq p.direction "output" ≡ true → is_read_only reg.rw ≡ false)
            × (str_eq p.direction "input" ≡ true → is_write_only reg.rw ≡ false))

  abbrev pub AllPermitted : Dict PointDef → Dict (RegisterDef F) → Type 0
  AllPermitted points [] = Unit
  AllPermitted points ((n, reg) ∷ regs) = IsPermitted points n reg × AllPermitted points regs

  access_errors-IsPermitted :
      (points : Dict PointDef) (n : String) (reg : RegisterDef F)
      → access_errors n (lookup n points) reg.role reg.rw ≡ []
      → IsPermitted points n reg
  access_errors-IsPermitted points n reg e = elim (Option-cases (lookup n points)) [
    | inl absent ↦ elim (Option-cases reg.role) [
      | inl none_given ↦ absurd (ground arith)
      | inr (role, given) ↦ (λ h. ground arith, λ p h. absurd (ground arith))
    ]
    | inr (q, there) ↦ (λ h. absurd (ground arith), λ p h. (λ o. ground arith, λ i. ground arith))
  ]

  -- none of the point's addresses is taken
  abbrev IsFree : List (ℕ × String) → RegisterDef F → Type 0
  IsFree occupied reg = (a : ℕ) → Covers reg a → owner a occupied ≡ none

  points_errors-Apart :
      (points : Dict PointDef) (regs : Dict (RegisterDef F)) (occupied : List (ℕ × String))
      → points_errors points regs occupied ≡ some []
      → All (IsFree occupied) (values regs) × Apart regs × AllPermitted points regs
  points_errors-Apart points [] occupied e = (tt, tt, tt)
  points_errors-Apart points ((pname, reg) ∷ regs) occupied e = elim (Option-cases (width reg)) [
    | inl none_given ↦ absurd (ground arith)
    | inr (n, size) ↦
        let (overlaps, occupied') = claim pname reg.address n occupied in
        elim (Option-cases (points_errors points regs occupied')) [
          | inl bad ↦ absurd (ground arith)
          | inr (rest, more) ↦
              let access = access_errors pname (lookup pname points) reg.role reg.rw in
              let all = append_nil access (overlaps ++ rest) (ground arith) in
              let two = append_nil overlaps rest all.1 in
              let (free, apart, permitted) =
                points_errors-Apart points regs occupied' (more ∙ ap some two.1) in
              (
                (
                  λ a (m, same, lo, hi).
                      claim-free pname reg.address n a occupied two.0 lo (ground arith),
                  All-mono (IsFree occupied') (IsFree occupied) (values regs)
                      (λ other h a c. free-before pname reg.address n a occupied (h a c)) free,
                ),
                (
                  All-mono (IsFree occupied') (λ other. (a : ℕ) → Covers reg a → Covers other a → ⊥)
                      (values regs)
                      (λ other h a (m, same, lo, hi) c.
                        let taken = (owner-claim pname reg.address n a occupied).2 lo in
                        ground (arith, h a c, taken))
                      free,
                  apart,
                ),
                (access_errors-IsPermitted points pname reg all.0, permitted),
              )
        ]
  ]

  -- A map that loads has the points it was parsed with; no register address belongs
  -- to two of them; an output point can be written and an input point can be read; and a point that
  -- the data model does not name has a role.
  pub load_register_map-Apart :
      (dm : DataModel) (rmap m : RegisterMap F)
      → load_register_map dm rmap ≡ loaded m
      → (m ≡ rmap)
        × Apart m.points
        × ((cls : AssetClassDef) × (lookup m.asset_class dm.asset_classes ≡ some cls)
            × AllPermitted cls.points m.points)
  unfolding load_register_map
  load_register_map-Apart dm rmap m e =
      elim (Option-cases (lookup rmap.asset_class dm.asset_classes)) [
        | inl absent ↦ absurd (ground arith)
        | inr (cls, there) ↦ elim (Option-cases (points_errors cls.points rmap.points [])) [
          | inl no_width ↦ absurd (ground arith)
          | inr (errors, found) ↦ elim (list_cases errors) [
            | inr (x, xs, some_error) ↦ absurd (ground arith)
            | inl clean ↦
                let same : rmap ≡ m = ground arith in
                let (free, apart, permitted) =
                  points_errors-Apart cls.points rmap.points [] (found ∙ ap some clean) in
                subst
                  (λ x.
                    (x ≡ rmap)
                    × Apart x.points
                    × ((c : AssetClassDef) × (lookup x.asset_class dm.asset_classes ≡ some c)
                        × AllPermitted c.points x.points))
                  same (refl, apart, (cls, there, permitted))
          ]
        ]
      ]
