-- ===== src/Core/Modbus/Transfer/Blocks.antt =====
-- What the blocks of a plan leave in the answer, when the client serves an image or fails.
use Prim.Native.Nat.{◌+◌, ◌≤◌}
use edge_ems.Prelude.{
  ◌≡◌, refl, subst, ◌⊎◌, inl, inr, Bool-cases, true, ◌||◌, Option-cases, some, List, [], ◌∷◌, ℕ,
  String, map, arith, All, is_some, listed, str_eq, eq_iff,
}
use edge_ems.Prelude.Int.{ℤ}
use edge_ems.Prelude.Dict.{Dict, lookup, insert, lookup-insert}
use edge_ems.Float.{Float}
use edge_ems.Common.Points.{PointValue}
use edge_ems.Common.RegisterMap.{RegisterDef}
use edge_ems.Common.ModbusCodec.{Wire}
use edge_ems.Core.Modbus.Plan.{Item, ReadBlock, item}
use edge_ems.Core.Modbus.Plan.Items.{IsItem}
use edge_ems.Core.Modbus.Transfer.{
  Client, answered, erred, good_point, failed_point, fail_points, decode_points,
}
use edge_ems.Core.Modbus.Transfer.Image.{image, image-slice, decode_one, read_one}

-- Every request is answered from the image or fails.
abbrev pub Serves : (ℕ → ℕ) → Client → Type 0
Serves mem client =
    (start count : ℕ)
    → (client.read_registers start count ≡ answered (image mem start count))
      ⊎ ((e : String) × (client.read_registers start count ≡ erred e))

module _ {F : Type 0} ⦃d : Float F⦄ (wire : Wire F) (mem : ℕ → ℕ) (cache : List (ℕ × ℤ)) (ts : F)
    (points : Dict (RegisterDef F)) (client : Client) (plan : List (ReadBlock F)) where
  -- The request of one of the blocks that hold the point fails.
  abbrev pub IsBroken : List (ReadBlock F) → String → Type 0
  IsBroken [] n = ⊥
  IsBroken (b ∷ bs) n =
      ((listed n (map (λ x. x.name) b.points) ≡ true)
        × ((e : String) × (client.read_registers b.start b.count ≡ erred e)))
      ⊎ IsBroken bs n

  -- the point's own value, or a failed point if the request of its block in the plan fails
  abbrev pub Shows : String → PointValue F → Type 0
  Shows n p =
      (read_one wire mem cache ts points n ≡ some p)
      ⊎ ((p ≡ failed_point wire ts) × IsBroken plan n)

  abbrev pub IsSound : Dict (PointValue F) → Type 0
  IsSound out = (n : String) (p : PointValue F) → lookup n out ≡ some p → Shows n p

  abbrev pub Adds : List String → Dict (PointValue F) → Dict (PointValue F) → Type 0
  Adds ns out out' =
      (n : String) → is_some (lookup n out') ≡ (listed n ns || is_some (lookup n out))

  abbrev pub IsReadable : Item F → Type 0
  IsReadable x = is_some (decode_one wire mem cache x) ≡ true

  abbrev Within : ℕ → ℕ → Item F → Type 0
  Within start count x = (start ≤ x.off) × (x.off + x.wide ≤ start + count)

  insert-IsSound :
      (k : String) (p : PointValue F) (out : Dict (PointValue F))
      → Shows k p
      → IsSound out
      → IsSound (insert k p out)
  insert-IsSound k p out shown sound n q e = elim (Bool-cases (str_eq k n)) [
    | inl same ↦
        subst (λ m. Shows m q) ((eq_iff k n).0 same)
          (subst (λ r. Shows k r) (ground (arith, lookup-insert k n p out)) shown)
    | inr other ↦ sound n q (ground (arith, lookup-insert k n p out))
  ]

  insert-Adds :
      (k : String) (p : PointValue F) (ns : List String) (out out' : Dict (PointValue F))
      → Adds ns (insert k p out) out'
      → Adds (k ∷ ns) out out'
  insert-Adds k p ns out out' adds n = ground (arith, adds n, lookup-insert k n p out)

  pub fail_points-Adds :
      (xs : List (Item F)) (out : Dict (PointValue F))
      → Adds (map (λ x. x.name) xs) out (fail_points wire ts xs out)
  fail_points-Adds [] out = λ n. refl
  fail_points-Adds (x ∷ xs) out =
      insert-Adds x.name (failed_point wire ts) (map (λ y. y.name) xs) out
        (fail_points wire ts xs (insert x.name (failed_point wire ts) out))
        (fail_points-Adds xs (insert x.name (failed_point wire ts) out))

  pub fail_points-IsSound :
      (xs : List (Item F)) (out : Dict (PointValue F))
      → All (λ x. IsBroken plan x.name) xs
      → IsSound out
      → IsSound (fail_points wire ts xs out)
  fail_points-IsSound [] out tt sound = sound
  fail_points-IsSound (x ∷ xs) out (here, broken) sound =
      fail_points-IsSound xs (insert x.name (failed_point wire ts) out) broken
        (insert-IsSound x.name (failed_point wire ts) out (inr (refl, here)) sound)

  pub item_of_IsItem : (x : Item F) → IsItem points x → item points x.name ≡ some x
  item_of_IsItem x (found, off, wide) = rw (found, off, wide) refl

  Shows-own :
      (x : Item F) (v : F)
      → IsItem points x
      → decode_one wire mem cache x ≡ some v
      → Shows x.name (good_point wire ts v)
  Shows-own x v is e = inl (rw (item_of_IsItem x is, e) refl)

  pub decode_points-image :
      (start count : ℕ) (xs : List (Item F)) (out : Dict (PointValue F))
      → All (IsItem points) xs
      → All (Within start count) xs
      → All IsReadable xs
      → IsSound out
      → (out' : Dict (PointValue F)) × (decode_points wire ts cache start
            (image mem start count)
            xs
            out
          ≡ some out')
        × IsSound out'
        × Adds (map (λ x. x.name) xs) out out'
  decode_points-image start count [] out is within readable sound = (out, refl, sound, λ n. refl)
  decode_points-image start count (x ∷ xs) out (i, is) ((low, high), within) (r, readable) sound =
      elim (Option-cases (decode_one wire mem cache x)) [
        | inl e ↦ absurd (ground arith)
        | inr (v, e) ↦
            let good = good_point wire ts v in
            let (out', run, sound', adds) =
              decode_points-image start count xs (insert x.name good out) is within readable
                (insert-IsSound x.name good out (Shows-own x v i e) sound) in
            (
              out',
              rw (image-slice mem start count x.off x.wide low high, e) run,
              sound',
              insert-Adds x.name good (map (λ y. y.name) xs) out out' adds,
            )
      ]
