-- ===== src/Simulator/Device/Tests.antt =====
-- A data block as a function from addresses to words, and a battery served from it, in thousandths.
use Prim.Native.Nat.{◌+◌, ◌≤◌, ◌<◌}
use edge_ems.Prelude.{
  ◌≡◌, refl, ap, ◌∙◌, ◌⊎◌, inl, inr, false, none, some, List, [], ◌∷◌, ℕ, zero, suc, String, str_eq,
  arith, length, ◌==◌, if◌then◌else◌,
}
use edge_ems.Prelude.Int.{ℤ, pos}
use edge_ems.Prelude.Dict.{lookup}
use edge_ems.Float.Milli.{milli}
use edge_ems.Common.RegisterMap.{RegisterDef}
use edge_ems.Common.ModbusCodec.{from_raw, to_raw}
use edge_ems.Common.ModbusCodec.Tests.{wire}
use edge_ems.Core.Modbus.Plan.Tests.{registers, registers-Apart, registers-HasWords, soc}
use edge_ems.Core.Modbus.Transfer.Image.{image}
use edge_ems.Simulator.Device.{Block, set_point, get_point, sf}
use edge_ems.Simulator.Device.Serving.{IsBlock, IsClear, get_point-set_point}

abbrev put : ℕ → List ℕ → (ℕ → ℕ) → ℕ → ℕ
put a [] s = s
put a (w ∷ ws) s = put (a + 1) ws (λ k. if k == a then w else s k)

abbrev block : Block (ℕ → ℕ)
block = record { blank = λ n k. 0; get_values = image; set_values = λ s a ws. put a ws s }

put_apart :
    (a : ℕ) (ws : List ℕ) (s : ℕ → ℕ) (k : ℕ) → (k < a) ⊎ (a + length ws ≤ k) → put a ws s k ≡ s k
put_apart a [] s k out = refl
put_apart a (w ∷ ws) s k out =
    put_apart (a + 1) ws (λ j. if j == a then w else s j) k
      (elim out [ inl low ↦ inl (omega arith) | inr high ↦ inr (omega arith) ])
    ∙ ground arith

image-put : (a : ℕ) (ws : List ℕ) (s : ℕ → ℕ) → image (put a ws s) a (length ws) ≡ ws
image-put a [] s = refl
image-put a (w ∷ ws) s =
    let s1 = λ (k : ℕ). if k == a then w else s k in
    let first : put (a + 1) ws s1 a ≡ w =
      put_apart (a + 1) ws s1 a (inl (omega arith)) ∙ ground arith in
    rw first (ap (λ l. w ∷ l) (image-put (a + 1) ws s1))

image-put_apart :
    (s : ℕ → ℕ) (a : ℕ) (ws : List ℕ) (b n : ℕ)
    → (b + n ≤ a) ⊎ (a + length ws ≤ b)
    → image (put a ws s) b n ≡ image s b n
image-put_apart s a ws b zero out = refl
image-put_apart s a ws b (suc n) out =
    let first : put a ws s b ≡ s b =
      put_apart a ws s b
        (elim out [ inl low ↦ inl (omega arith) | inr high ↦ inr (omega arith) ]) in
    rw first (
      ap (λ l. s b ∷ l)
        (image-put_apart s a ws (b + 1) n
          (elim out [ inl low ↦ inl (omega arith) | inr high ↦ inr (omega arith) ])))

abbrev size : (ℕ → ℕ) → ℕ
size s = 64

block-IsBlock : IsBlock block size
block-IsBlock = record {
  get-set = λ s a ws inside. image-put a ws s;
  get_apart = λ s a ws b n inside out. image-put_apart s a ws b n out;
}

abbrev empty : ℕ → ℕ
empty k = 0

no_factor : sf block wire empty none ≡ some none
unfolding sf
no_factor = refl

-- 42.5 percent, in steps of 0.1
get_point-set_point_example :
    (s : ℕ → ℕ) × (set_point block wire registers "soc_pct" (pos 42500) empty ≡ some s)
    × (get_point block wire registers "soc_pct" s
        ≡ some (from_raw wire soc (to_raw wire soc (pos 42500) none) none))
    × ((n : String) (other : RegisterDef ℤ)
        → str_eq "soc_pct" n ≡ false
        → lookup n registers ≡ some other
        → IsClear soc other.sf_address
        → get_point block wire registers n s ≡ get_point block wire registers n empty)
get_point-set_point_example =
    get_point-set_point block wire size block-IsBlock registers "soc_pct" soc (pos 42500) empty 19 1
      none registers-Apart registers-HasWords refl refl refl refl refl (omega arith) no_factor
      (λ addr e c. ground arith) refl
