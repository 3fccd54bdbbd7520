-- ===== src/Simulator/Device/Serving.antt =====
-- A point that was set reads back, and no other point changes.
use Prim.Native.Nat.{◌+◌, ◌≤◌}
use native.Mathlib.Decide.{dec_le}
use edge_ems.Prelude.{
  ◌≡◌, ◌≢◌, refl, sym, ap, ◌∙◌, ◌⊎◌, inl, inr, true, false, Option, Option-cases, none, some, List,
  ℕ, String, str_eq, arith, length, is_some,
}
use edge_ems.Prelude.Int.{ℤ}
use edge_ems.Prelude.Dict.{Dict, lookup}
use edge_ems.Float.{Float}
use edge_ems.Common.RegisterMap.{RegisterDef, width}
use edge_ems.Common.RegisterMap.Disjoint.{Covers, Apart}
use edge_ems.Common.ModbusCodec.{Wire, bits, in_range, to_raw, from_raw, holding_offset, decode}
use edge_ems.Common.ModbusCodec.RoundTrip.{decode-encode}
use edge_ems.Core.Modbus.Plan.Items.{Apart-lookup, HasWords, found-All, offset-address, positive}
use edge_ems.Simulator.Device.{Block, sf, set_register, get_register, set_point, get_point}

-- What a data block does, given its size: values that were set within it read back, and others stay.
pub record IsBlock {S : Type 0} (io : Block S) (size : S → ℕ) : Type 0 where
  pub get-set :
      (s : S) (a : ℕ) (ws : List ℕ)
      → a + length ws ≤ size s
      → io.get_values (io.set_values s a ws) a (length ws) ≡ ws
  pub get_apart :
      (s : S) (a : ℕ) (ws : List ℕ) (b n : ℕ)
      → a + length ws ≤ size s
      → (b + n ≤ a) ⊎ (a + length ws ≤ b)
      → io.get_values (io.set_values s a ws) b n ≡ io.get_values s b n

module _ {F : Type 0} where
  -- No register of the point holds the scale factor.
  abbrev pub IsClear : RegisterDef F → Option ℕ → Type 0
  IsClear reg sf_address = (addr : ℕ) → sf_address ≡ some addr → Covers reg addr → ⊥

  -- The registers of two points lie apart.
  ranges-Apart :
      (points : Dict (RegisterDef F)) (m n : String) (x y : RegisterDef F) (off off2 wide wide2 : ℕ)
      → Apart points
      → HasWords points
      → str_eq m n ≡ false
      → lookup m points ≡ some x
      → lookup n points ≡ some y
      → holding_offset x.address ≡ some off
      → holding_offset y.address ≡ some off2
      → width x ≡ some wide
      → width y ≡ some wide2
      → (off2 + wide2 ≤ off) ⊎ (off + wide ≤ off2)
  ranges-Apart points m n x y off off2 wide wide2 apart words other ex ey ox oy wx wy =
      let ax = offset-address x.address off ox in
      let ay = offset-address y.address off2 oy in
      let px =
        positive wide
          (λ z. found-All (λ reg. width reg ≢ some 0) points m x ex words (wx ∙ ap some z)) in
      let py =
        positive wide2
          (λ z. found-All (λ reg. width reg ≢ some 0) points n y ey words (wy ∙ ap some z)) in
      let clash = λ (a : ℕ) (c : Covers x a) (g : Covers y a).
        Apart-lookup points m n x y a apart other ex ey c g in
      elim (dec_le (off + wide) off2) [
        | yes before ↦ inr before
        | no here ↦ elim (dec_le (off2 + wide2) off) [
          | yes after ↦ inl after
          | no there ↦ elim (dec_le off off2) [
            | yes first ↦ absurd (
                clash y.address (wide, wx, omega arith, omega arith)
                  (wide2, wy, omega arith, omega arith))
            | no second ↦ absurd (
                clash x.address (wide, wx, omega arith, omega arith)
                  (wide2, wy, omega arith, omega arith))
          ]
        ]
      ]

module _ {S : Type 0} {F : Type 0} ⦃d : Float F⦄ (io : Block S) (wire : Wire F) (size : S → ℕ)
    (law : IsBlock io size) where
  open law use {get-set, get_apart}

  sf-set :
      (reg : RegisterDef F) (s : S) (off : ℕ) (ws : List ℕ) (sf_address : Option ℕ)
      → holding_offset reg.address ≡ some off
      → width reg ≡ some (length ws)
      → off + length ws ≤ size s
      → IsClear reg sf_address
      → sf io wire (io.set_values s off ws) sf_address ≡ sf io wire s sf_address
  unfolding sf
  sf-set reg s off ws none o w inside clear = refl
  sf-set reg s off ws (some addr) o w inside clear = elim (Option-cases (holding_offset addr)) [
    | inl low ↦ rw low refl
    | inr (at, e) ↦
        let here = offset-address reg.address off o in
        let there = offset-address addr at e in
        let out : (at + 1 ≤ off) ⊎ (off + length ws ≤ at) = elim (dec_le (at + 1) off) [
          | yes below ↦ inl below
          | no not_below ↦ elim (dec_le (off + length ws) at) [
            | yes above ↦ inr above
            | no within ↦ absurd (clear addr refl (length ws, w, omega arith, omega arith))
          ]
        ] in
        rw (e, get_apart s off ws at 1 inside out) refl
  ]

  decode-length :
      (reg : RegisterDef F) (ws : List ℕ) (factor : Option ℤ) (v : F)
      → decode wire reg ws factor ≡ some v
      → width reg ≡ some (length ws)
  unfolding decode
  decode-length reg ws factor v e = elim (Option-cases (width reg)) [
    | inl w ↦ absurd (ground arith)
    | inr (n, w) ↦ ground arith
  ]

  get_register-kept :
      (points : Dict (RegisterDef F)) (m n : String) (reg other : RegisterDef F) (s : S) (off : ℕ)
      (ws : List ℕ)
      → Apart points
      → HasWords points
      → str_eq m n ≡ false
      → lookup m points ≡ some reg
      → lookup n points ≡ some other
      → holding_offset reg.address ≡ some off
      → width reg ≡ some (length ws)
      → off + length ws ≤ size s
      → IsClear reg other.sf_address
      → get_register io wire other (io.set_values s off ws) ≡ get_register io wire other s
  unfolding get_register
  get_register-kept points m n reg other s off ws apart words distinct em en o w inside clear =
      let kept = sf-set reg s off ws other.sf_address o w inside clear in
      elim (Option-cases (holding_offset other.address)) [
        | inl low ↦ rw low refl
        | inr (off2, o2) ↦ elim (Option-cases (width other)) [
          | inl sized ↦ rw (o2, sized) refl
          | inr (n2, w2) ↦
              let out =
                ranges-Apart points m n reg other off off2 (length ws) n2 apart words distinct em en
                  o o2 w w2 in
              rw (o2, w2, kept, get_apart s off ws off2 n2 inside out) refl
        ]
      ]

  -- On a map whose registers do not overlap and have a word at least, take a point of an integer type
  -- without a size of its own, at a holding address, that lies within
  -- the data block, whose scale factor can be read and is not among
  -- its own registers, and a value whose raw number fits the type. Setting the point succeeds; it then
  -- reads as the raw number scaled back; and every other point whose scale factor is not among the
  -- registers of this one reads as before.
  pub get_point-set_point :
      (points : Dict (RegisterDef F)) (name : String) (reg : RegisterDef F) (value : F) (s : S)
      (off wide : ℕ) (factor : Option ℤ)
      → Apart points
      → HasWords points
      → lookup name points ≡ some reg
      → is_some (bits reg.type) ≡ true
      → reg.size ≡ none
      → holding_offset reg.address ≡ some off
      → width reg ≡ some wide
      → off + wide ≤ size s
      → sf io wire s reg.sf_address ≡ some factor
      → IsClear reg reg.sf_address
      → in_range reg.type (to_raw wire reg value factor) ≡ true
      → (s' : S) × (set_point io wire points name value s ≡ some s')
        × (get_point io wire points name s'
            ≡ some (from_raw wire reg (to_raw wire reg value factor) factor))
        × ((n : String) (other : RegisterDef F)
            → str_eq name n ≡ false
            → lookup n points ≡ some other
            → IsClear reg other.sf_address
            → get_point io wire points n s' ≡ get_point io wire points n s)
  unfolding set_register get_register
  get_point-set_point points name reg value s off wide factor apart words found integer own o sized
        inside scaled clear fit =
      let (ws, enc, dec) = (decode-encode wire reg value factor integer own).0 fit in
      let w =
        decode-length reg ws factor (from_raw wire reg (to_raw wire reg value factor) factor) dec in
      let same : some wide ≡ some (length ws) = sym sized ∙ w in
      let inside' : off + length ws ≤ size s = ground arith in
      let s' = io.set_values s off ws in
      let scaled' = sf-set reg s off ws reg.sf_address o w inside' clear ∙ scaled in
      (
        s',
        rw (found, o, scaled, enc) refl,
        rw (found, o, w, scaled', get-set s off ws inside') dec,
        λ n other distinct there clear'. rw there (
            get_register-kept points name n reg other s off ws apart words distinct found there o w
              inside' clear'),
      )
