-- ===== src/Core/Modbus/Plan/Items.antt =====
-- What the plan knows of a requested point, and how the points of a map lie.
use Prim.Native.Nat.{◌+◌, ◌≤◌, ◌<◌}
use native.Mathlib.Decide.{dec_le}
use edge_ems.Prelude.{
  ◌≡◌, ◌≢◌, refl, sym, ap, ◌∙◌, subst, inl, inr, Bool-cases, false, Option-cases, some, List, [],
  ◌∷◌, ℕ, zero, suc, String, map, arith, All, eq_iff, str_eq,
}
use edge_ems.Prelude.Dict.{Dict, lookup, values}
use edge_ems.Common.RegisterMap.{RegisterDef, width}
use edge_ems.Common.RegisterMap.Disjoint.{Covers, Apart}
use edge_ems.Common.ModbusCodec.{holding_offset, holding_base}
use edge_ems.Core.Modbus.Plan.{Item, item, items}

pub positive : (n : ℕ) → (n ≡ 0 → ⊥) → 0 < n
positive zero h = absurd (h refl)
positive (suc n) h = omega arith

pub offset-address :
    (address off : ℕ) → holding_offset address ≡ some off → address ≡ off + holding_base
offset-address address off e = ground arith

module _ {F : Type 0} where
  -- The item carries its point's register, offset and width.
  abbrev pub IsItem : Dict (RegisterDef F) → Item F → Type 0
  IsItem points x =
      (lookup x.name points ≡ some x.reg)
      × (holding_offset x.reg.address ≡ some x.off)
      × (width x.reg ≡ some x.wide)

  item-IsItem :
      (points : Dict (RegisterDef F)) (name : String) (x : Item F)
      → item points name ≡ some x
      → (x.name ≡ name) × IsItem points x
  item-IsItem points name x e = elim (Option-cases (lookup name points)) [
    | inl a ↦ absurd (ground arith)
    | inr (reg, a) ↦ elim (Option-cases (holding_offset reg.address)) [
      | inl b ↦ absurd (ground arith)
      | inr (off, b) ↦ elim (Option-cases (width reg)) [
        | inl c ↦ absurd (ground arith)
        | inr (wide, c) ↦
            let whole : record { name = name; reg = reg; off = off; wide = wide } ≡ x =
              ground arith in
            subst (λ y. (y.name ≡ name) × IsItem points y) whole (refl, (a, b, c))
      ]
    ]
  ]

  -- Every register has a word at least.
  abbrev pub HasWords : Dict (RegisterDef F) → Type 0
  HasWords points = All (λ reg. width reg ≢ some 0) (values points)

  pub found-All :
      (P : RegisterDef F → Type 0) (points : Dict (RegisterDef F)) (n : String)
      (reg : RegisterDef F)
      → lookup n points ≡ some reg
      → All P (values points)
      → P reg
  found-All P [] n reg e ps = absurd (ground arith)
  found-All P ((k, q) ∷ points) n reg e (p, ps) = elim (Bool-cases (str_eq k n)) [
    | inl same ↦ subst P (ground arith) p
    | inr other ↦ found-All P points n reg (ground arith) ps
  ]

  pub Apart-lookup :
      (points : Dict (RegisterDef F)) (m n : String) (x y : RegisterDef F) (a : ℕ)
      → Apart points
      → str_eq m n ≡ false
      → lookup m points ≡ some x
      → lookup n points ≡ some y
      → Covers x a
      → Covers y a
      → ⊥
  Apart-lookup [] m n x y a h other e f c g = absurd (ground arith)
  Apart-lookup ((k, reg) ∷ points) m n x y a (clear, h) other e f c g =
      let Clear = λ (q : RegisterDef F). (b : ℕ) → Covers reg b → Covers q b → ⊥ in
      elim (Bool-cases (str_eq k m)) [
        | inl same ↦
            let mine : reg ≡ x = ground arith in
            let yours : lookup n points ≡ some y =
              ground (arith, eq_iff k m, eq_iff k n, eq_iff m n) in
            found-All Clear points n y yours clear a (subst (λ q. Covers q a) (sym mine) c) g
        | inr distinct ↦ elim (Bool-cases (str_eq k n)) [
          | inl same ↦
              let mine : reg ≡ y = ground arith in
              found-All Clear points m x (ground arith) clear a
                (subst (λ q. Covers q a) (sym mine) g) c
          | inr apart ↦ Apart-lookup points m n x y a h other (ground arith) (ground arith) c g
        ]
      ]

  -- Of two requested points, the one that starts first ends first.
  pub ends_in_order :
      (points : Dict (RegisterDef F)) (x y : Item F)
      → Apart points
      → HasWords points
      → IsItem points x
      → IsItem points y
      → x.off ≤ y.off
      → x.off + x.wide ≤ y.off + y.wide
  ends_in_order points x y apart words (ex, ox, wx) (ey, oy, wy) le =
      let ax = offset-address x.reg.address x.off ox in
      let ay = offset-address y.reg.address y.off oy in
      elim (Bool-cases (str_eq x.name y.name)) [
        | inl same ↦
            let e : x.reg ≡ y.reg = ground (arith, (eq_iff x.name y.name).0 same) in
            let w : x.wide ≡ y.wide = ground (arith, ap (λ q. width q) e) in omega arith
        | inr other ↦ elim (dec_le (x.off + x.wide) y.off) [
          | yes before ↦ omega arith
          | no within ↦
              let filled : 0 < y.wide = positive y.wide (λ z.
                found-All (λ reg. width reg ≢ some 0) points y.name y.reg ey words
                  (wy ∙ ap some z)) in
              absurd (
                Apart-lookup points x.name y.name x.reg y.reg y.reg.address apart other ex ey
                  (x.wide, wx, omega arith, omega arith) (y.wide, wy, omega arith, omega arith))
        ]
      ]

  pub items-IsItem :
      (points : Dict (RegisterDef F)) (names : List String) (xs : List (Item F))
      → items points names ≡ some xs
      → (map (λ x. x.name) xs ≡ names) × All (IsItem points) xs
  items-IsItem points [] xs e =
      let none_left : [] ≡ xs = ground arith in
      subst (λ l. (map (λ x. x.name) l ≡ []) × All (IsItem points) l) none_left (refl, tt)
  items-IsItem points (name ∷ names) xs e = elim (Option-cases (item points name)) [
    | inl a ↦ absurd (ground arith)
    | inr (x, a) ↦ elim (Option-cases (items points names)) [
      | inl b ↦ absurd (ground arith)
      | inr (rest, b) ↦
          let one = item-IsItem points name x a in
          let more = items-IsItem points names rest b in
          let whole : x ∷ rest ≡ xs = ground arith in
          subst (λ l. (map (λ x. x.name) l ≡ name ∷ names) × All (IsItem points) l) whole
            (
              ap (λ n. n ∷ map (λ x. x.name) rest) one.0 ∙ ap (λ l. name ∷ l) more.0,
              (one.1, more.1),
            )
    ]
  ]
