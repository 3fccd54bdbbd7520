-- ===== src/Common/ModbusCodec/RoundTrip.antt =====
-- Encoding and decoding the registers of integers.
use Prim.Native.Nat.{◌+◌, ◌*◌, ◌%◌, ◌^◌}
use edge_ems.Prelude.{
  ◌≡◌, refl, sym, ap, ◌∙◌, inl, inr, true, false, Option, Option-cases, or_else, is_some, none,
  some, List, ℕ, arith, length,
}
use edge_ems.Prelude.Int.{ℤ, pos, negsuc}
use edge_ems.Float.{Float}
use edge_ems.Common.RegisterMap.{
  RegisterDef, RegisterType, uint16, int16, uint32, int32, float32, enum16, bitfield32, uint64,
  sunssf, string, pad, type_width, width, width_of,
}
use edge_ems.Common.ModbusCodec.{
  Wire, bits, mask, in_range, signed_raw, words_to_raw, words_to_int, int_to_words, fits, unfit,
  encode_int, to_raw, from_raw, encode, decode, is_float,
}
use edge_ems.Common.ModbusCodec.Words.{words_to_raw-raw_words, length-raw_words}

nought-mul : (p r : ℕ) → 0 * p + r ≡ r
nought-mul p r = omega arith

words_to_raw-int_to_words :
    (z : ℤ) (n : ℕ) → words_to_raw 0 (int_to_words z n) ≡ mask z ((2 ^ 16) ^ n) % (2 ^ 16) ^ n
unfolding int_to_words
words_to_raw-int_to_words z n =
    words_to_raw-raw_words n (mask z ((2 ^ 16) ^ n)) 0
    ∙ nought-mul ((2 ^ 16) ^ n) (mask z ((2 ^ 16) ^ n) % (2 ^ 16) ^ n)

abbrev word_count : RegisterType → ℕ
word_count t = or_else (type_width t) 0

abbrev bit_count : RegisterType → ℕ
bit_count t = or_else (bits t) 0

-- The bit pattern of a number in the range of its type stands for that number.
signed_raw-mask :
    (t : RegisterType) (z : ℤ)
    → is_some (bits t) ≡ true
    → in_range t z ≡ true
    → signed_raw t (mask z ((2 ^ 16) ^ word_count t) % (2 ^ 16) ^ word_count t) (bit_count t) ≡ z
signed_raw-mask uint16 (pos k) e h = ground arith
signed_raw-mask uint16 (negsuc k) e h = ground arith
signed_raw-mask int16 (pos k) e h = ground arith
signed_raw-mask int16 (negsuc k) e h = ground arith
signed_raw-mask uint32 (pos k) e h = ground arith
signed_raw-mask uint32 (negsuc k) e h = ground arith
signed_raw-mask int32 (pos k) e h = ground arith
signed_raw-mask int32 (negsuc k) e h = ground arith
signed_raw-mask enum16 (pos k) e h = ground arith
signed_raw-mask enum16 (negsuc k) e h = ground arith
signed_raw-mask bitfield32 (pos k) e h = ground arith
signed_raw-mask bitfield32 (negsuc k) e h = ground arith
signed_raw-mask uint64 (pos k) e h = ground arith
signed_raw-mask uint64 (negsuc k) e h = ground arith
signed_raw-mask sunssf (pos k) e h = ground arith
signed_raw-mask sunssf (negsuc k) e h = ground arith
signed_raw-mask float32 z e h = absurd (ground arith)
signed_raw-mask string z e h = absurd (ground arith)
signed_raw-mask pad z e h = absurd (ground arith)

words_to_int-int_to_words :
    (t : RegisterType) (z : ℤ)
    → is_some (bits t) ≡ true
    → in_range t z ≡ true
    → words_to_int t (int_to_words z (word_count t)) ≡ some z
unfolding words_to_int
words_to_int-int_to_words t z e h = elim (Option-cases (bits t)) [
  | inl absent ↦ absurd (ground arith)
  | inr (b, there) ↦
      let pattern = signed_raw-mask t z e h in
      let count : bit_count t ≡ b = ap (λ o. or_else o 0) there in
      rw (there, words_to_int)
        (ap some (
          ap (λ raw. signed_raw t raw b) (words_to_raw-int_to_words z (word_count t))
          ∙ (ap (λ k. signed_raw t (mask z ((2 ^ 16) ^ word_count t) % (2 ^ 16) ^ word_count t) k)
                (sym count)
              ∙ pattern)))
]

integral :
    (t : RegisterType)
    → is_some (bits t) ≡ true
    → (is_float t ≡ false) × (type_width t ≡ some (word_count t))
integral uint16 e = (refl, refl)
integral int16 e = (refl, refl)
integral uint32 e = (refl, refl)
integral int32 e = (refl, refl)
integral enum16 e = (refl, refl)
integral bitfield32 e = (refl, refl)
integral uint64 e = (refl, refl)
integral sunssf e = (refl, refl)
integral float32 e = absurd (ground arith)
integral string e = absurd (ground arith)
integral pad e = absurd (ground arith)

length-int_to_words : (z : ℤ) (n : ℕ) → length (int_to_words z n) ≡ n
unfolding int_to_words
length-int_to_words z n = length-raw_words n (mask z ((2 ^ 16) ^ n))

module _ {F : Type 0} ⦃d : Float F⦄ (wire : Wire F) where
  -- A register of an integer type without a size of its own encodes every value whose rounded raw
  -- number is in the range of the type, and only those: any other is refused with that number. The
  -- words decode to the scaled raw number, with the same scale factor.
  pub decode-encode :
      (reg : RegisterDef F) (value : F) (sf : Option ℤ)
      → is_some (bits reg.type) ≡ true
      → reg.size ≡ none
      → let raw = to_raw wire reg value sf in
        (in_range reg.type raw ≡ true
          → (words : List ℕ) × (encode wire reg value sf ≡ fits words)
            × (decode wire reg words sf ≡ some (from_raw wire reg raw sf)))
        × (in_range reg.type raw ≡ false → encode wire reg value sf ≡ unfit raw)
  unfolding encode encode_int decode
  decode-encode reg value sf e own =
      let raw = to_raw wire reg value sf in
      let (whole, size) = integral reg.type e in
      let n = word_count reg.type in
      let wide : width reg ≡ some n = ap (width_of reg.type) own ∙ size in
      let long = length-int_to_words raw n in
      (
        λ h.
            let back = words_to_int-int_to_words reg.type raw e h in
            (
              int_to_words raw n,
              ground (arith, whole, wide),
              ground (arith, whole, wide, long, back),
            ),
        λ h. ground (arith, whole),
      )
