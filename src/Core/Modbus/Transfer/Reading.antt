-- ===== src/Core/Modbus/Transfer/Reading.antt =====
-- A read of many points agrees with a read of each point alone.
use edge_ems.Prelude.{
  ◌≡◌, refl, sym, ap, ◌∙◌, subst, inl, inr, Bool-cases, true, Option-cases, some, List, [], ◌∷◌,
  ◌++◌, ℕ, String, map, arith, All, All-both, is_some, listed, listed-append, listed-perm, str_eq,
  eq_iff,
}
use edge_ems.Prelude.Int.{ℤ}
use edge_ems.Prelude.Dict.{Dict, lookup}
use edge_ems.Float.{Float}
use edge_ems.Common.Points.{PointValue}
use edge_ems.Common.RegisterMap.{RegisterDef}
use edge_ems.Common.RegisterMap.Disjoint.{Apart}
use edge_ems.Common.ModbusCodec.{Wire}
use edge_ems.Core.Modbus.Link.{Link, record_ok, record_failure}
use edge_ems.Core.Modbus.Plan.{Item, ReadBlock, item, items, sort_items, plan_from, plan_reads}
use edge_ems.Core.Modbus.Plan.Items.{IsItem, HasWords}
use edge_ems.Core.Modbus.Plan.Covering.{points_of, Holds, plan_reads-Covers}
use edge_ems.Core.Modbus.Transfer.{Client, answered, decode_points, fail_points, read_blocks}
use edge_ems.Core.Modbus.Transfer.Image.{image, decode_one, read_one}
use edge_ems.Core.Modbus.Transfer.Blocks.{
  Serves, IsBroken, IsSound, Adds, IsReadable, fail_points-Adds, fail_points-IsSound,
  decode_points-image, item_of_IsItem,
}

map-append : {A B : Type 0} (f : A → B) (xs ys : List A) → map f (xs ++ ys) ≡ map f xs ++ map f ys
map-append f [] ys = refl
map-append f (x ∷ xs) ys = ap (λ l. f x ∷ l) (map-append f xs ys)

All-left : {A : Type 0} (P : A → Type 0) (xs ys : List A) → All P (xs ++ ys) → All P xs × All P ys
All-left P [] ys h = (tt, h)
All-left P (x ∷ xs) ys (p, h) = let (ps, qs) = All-left P xs ys h in ((p, ps), qs)

listed-All :
    (P : String → Type 0) (ns : List String) → All P ns → (n : String) → listed n ns ≡ true → P n
listed-All P [] h n e = absurd (ground arith)
listed-All P (m ∷ ns) (p, ps) n e = elim (Bool-cases (str_eq m n)) [
  | inl same ↦ subst P ((eq_iff m n).0 same) p
  | inr other ↦ listed-All P ns ps n (ground arith)
]

All-listed :
    {F : Type 0} (P : Item F → Type 0) (xs : List (Item F))
    → ((x : Item F) → listed x.name (map (λ y. y.name) xs) ≡ true → P x)
    → All P xs
All-listed P [] h = tt
All-listed P (x ∷ xs) h =
    (h x (ground (arith, eq_iff x.name x.name)), All-listed P xs (λ y e. h y (ground arith)))

module _ {F : Type 0} ⦃d : Float F⦄ (wire : Wire F) (mem : ℕ → ℕ) (cache : List (ℕ × ℤ)) (ts : F)
    (points : Dict (RegisterDef F)) (client : Client) (plan : List (ReadBlock F)) where
  Adds-append :
      (xs ys : List (Item F)) (a b c : Dict (PointValue F))
      → Adds wire mem cache ts points client plan (map (λ x. x.name) xs) a b
      → Adds wire mem cache ts points client plan (map (λ x. x.name) ys) b c
      → Adds wire mem cache ts points client plan (map (λ x. x.name) (xs ++ ys)) a c
  Adds-append xs ys a b c ab bc n =
      let split = listed-append n (map (λ x. x.name) xs) (map (λ x. x.name) ys) in
      rw (map-append (λ x. x.name) xs ys) (ground (arith, ab n, bc n, split))

  read_blocks-answered :
      (l : Link F) (out out' : Dict (PointValue F)) (b : ReadBlock F) (bs : List (ReadBlock F))
      (words : List ℕ)
      → client.read_registers b.start b.count ≡ answered words
      → decode_points wire ts cache b.start words b.points out ≡ some out'
      → read_blocks wire client ts cache l out (b ∷ bs)
        ≡ read_blocks wire client ts cache (record_ok l ts) out' bs
  unfolding read_blocks
  read_blocks-answered l out out' b bs words e f = rw (e, f, read_blocks) refl

  read_blocks-image :
      (l : Link F) (out : Dict (PointValue F)) (bs : List (ReadBlock F))
      → Serves mem client
      → ((n : String)
          → IsBroken wire mem cache ts points client plan bs n
          → IsBroken wire mem cache ts points client plan plan n)
      → All Holds bs
      → All (IsItem points) (points_of bs)
      → All (IsReadable wire mem cache ts points client plan) (points_of bs)
      → IsSound wire mem cache ts points client plan out
      → (l' : Link F) × (out' : Dict (PointValue F)) × (read_blocks wire client ts cache l out bs
          ≡ (l', some out'))
        × IsSound wire mem cache ts points client plan out'
        × Adds wire mem cache ts points client plan (map (λ x. x.name) (points_of bs)) out out'
  unfolding read_blocks
  read_blocks-image l out [] serves planned holds is readable sound =
      (l, out, refl, sound, λ n. refl)
  read_blocks-image l out (b ∷ bs) serves planned (h, holds) is readable sound =
      let (i, is') = All-left (IsItem points) b.points (points_of bs) is in
      let (r, readable') =
        All-left (IsReadable wire mem cache ts points client plan) b.points (points_of bs)
          readable in
      elim (serves b.start b.count) [
        | inr (e, fails) ↦
            let broken =
              All-listed (λ x. IsBroken wire mem cache ts points client plan plan x.name) b.points
                (λ x own. planned x.name (inl (own, (e, fails)))) in
            let failed = fail_points wire ts b.points out in
            let sound' =
              fail_points-IsSound wire mem cache ts points client plan b.points out broken sound in
            let adds = fail_points-Adds wire mem cache ts points client plan b.points out in
            let (l', out', run, sound'', more) =
              read_blocks-image (record_failure l e) failed bs serves (λ n h. planned n (inr h))
                holds is' readable' sound' in
            (
              l',
              out',
              rw (fails, read_blocks) run,
              sound'',
              Adds-append b.points (points_of bs) out failed out' adds more,
            )
        | inl answers ↦
            let (mid, decoded, sound', adds) =
              decode_points-image wire mem cache ts points client plan b.start b.count b.points out
                i h r sound in
            let (l', out', run, sound'', more) =
              read_blocks-image (record_ok l ts) mid bs serves (λ n h. planned n (inr h)) holds is'
                readable' sound' in
            (
              l',
              out',
              read_blocks-answered l out mid b bs (image mem b.start b.count) answers decoded ∙ run,
              sound'',
              Adds-append b.points (points_of bs) out mid out' adds more,
            )
      ]

module _ {F : Type 0} ⦃d : Float F⦄ (wire : Wire F) (mem : ℕ → ℕ) (cache : List (ℕ × ℤ)) (ts : F)
    (points : Dict (RegisterDef F)) (client : Client) where
  -- The name's own request succeeds.
  abbrev pub IsReadableName : String → Type 0
  IsReadableName n = is_some (read_one wire mem cache ts points n) ≡ true

  readable-items :
      (names : List String)
      → All IsReadableName names
      → (xs : List (Item F)) × (items points names ≡ some xs)
  readable-items [] h = ([], refl)
  readable-items (n ∷ names) (r, h) = elim (Option-cases (item points n)) [
    | inl e ↦ absurd (ground arith)
    | inr (x, e) ↦ let (xs, more) = readable-items names h in (x ∷ xs, rw (e, more) refl)
  ]

  IsReadable-item :
      (plan : List (ReadBlock F)) (x : Item F)
      → IsItem points x
      → IsReadableName x.name
      → IsReadable wire mem cache ts points client plan x
  IsReadable-item plan x is r =
      let found = item_of_IsItem wire mem cache ts points client plan x is in
      elim (Option-cases (decode_one wire mem cache x)) [
        | inl e ↦ absurd (ground arith)
        | inr (v, e) ↦ ap is_some e
      ]

  pub plan-image :
      (names : List String) (gap : ℕ) (l : Link F)
      → Serves mem client
      → Apart points
      → HasWords points
      → All IsReadableName names
      → (blocks : List (ReadBlock F)) × (l' : Link F) × (out : Dict (PointValue F)) × (plan_reads
            points names gap
          ≡ some blocks)
        × (read_blocks wire client ts cache l [] blocks ≡ (l', some out))
        × IsSound wire mem cache ts points client blocks out
        × ((n : String) → is_some (lookup n out) ≡ listed n names)
  unfolding plan_reads
  plan-image names gap l serves apart words readable =
      let (xs, found) = readable-items names readable in
      let blocks = plan_from gap 0 0 [] (sort_items xs) in
      let planned : plan_reads points names gap ≡ some blocks = rw found refl in
      let (perm, is, holds, spread) =
        plan_reads-Covers points names gap blocks apart words planned in
      let same : (n : String) → listed n (map (λ x. x.name) (points_of blocks)) ≡ listed n names =
        λ n. listed-perm n (map (λ x. x.name) (points_of blocks)) names perm in
      let decodable =
        All-both (IsItem points) (λ x. listed x.name (map (λ y. y.name) (points_of blocks)) ≡ true)
          (IsReadable wire mem cache ts points client blocks) (points_of blocks)
          (λ x i e.
            IsReadable-item blocks x i
              (listed-All IsReadableName names readable x.name (sym (same x.name) ∙ e)))
          is
          (All-listed (λ x. listed x.name (map (λ y. y.name) (points_of blocks)) ≡ true)
            (points_of blocks) (λ x e. e)) in
      let (l', out, run, sound, adds) =
        read_blocks-image wire mem cache ts points client blocks l [] blocks serves (λ n h. h) holds
          is decodable (λ n p e. absurd (ground arith)) in
      (blocks, l', out, planned, run, sound, λ n. ground (arith, adds n, same n))
