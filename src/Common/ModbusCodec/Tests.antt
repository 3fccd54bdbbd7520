-- ===== src/Common/ModbusCodec/Tests.antt =====
-- Registers of 16 and 32 bits, in thousandths.
use Prim.Native.Nat.{◌/◌}
use edge_ems.Prelude.{◌≡◌, refl, true, false, none, some, List, [], ◌∷◌, ℕ}
use edge_ems.Prelude.Int.{ℤ, pos, negsuc}
use edge_ems.Float.Milli.{milli}
use edge_ems.Common.RegisterMap.{int16, int32, rw}
use edge_ems.Common.RegisterMap.Tests.{register}
use edge_ems.Common.ModbusCodec.{
  Wire, words_to_raw, words_to_int, raw_words, int_to_words, in_range, fits, unfit, encode, decode,
  to_raw, from_raw,
}
use edge_ems.Common.ModbusCodec.RoundTrip.{decode-encode}

-- whole numbers round down, and no power of ten but 1 is used
abbrev pub wire : Wire ℤ
wire = record {
  round = λ x. elim x [ pos n ↦ pos (n / 1000) | negsuc n ↦ negsuc (n / 1000) ];
  power_of_ten = λ e. pos 1000;
  pack = λ x. (0, 0);
  unpack = λ hi lo. pos 0;
}

negative_words : int_to_words (negsuc 69999) 2 ≡ 65534 ∷ 61072 ∷ []
unfolding int_to_words raw_words
negative_words = refl

negative_back : words_to_int int32 (65534 ∷ 61072 ∷ []) ≡ some (negsuc 69999)
unfolding words_to_int words_to_raw
negative_back = refl

-- 50 kW at 0.1 kW per unit
decode-encode_example :
    let reg = register 40012 int16 rw in
    let raw = to_raw wire reg (pos 50000) none in
    (in_range int16 raw ≡ true
      → (words : List ℕ) × (encode wire reg (pos 50000) none ≡ fits words)
        × (decode wire reg words none ≡ some (from_raw wire reg raw none)))
    × (in_range int16 raw ≡ false → encode wire reg (pos 50000) none ≡ unfit raw)
decode-encode_example = decode-encode wire (register 40012 int16 rw) (pos 50000) none refl refl

raw_is_500 : to_raw wire (register 40012 int16 rw) (pos 50000) none ≡ pos 500
raw_is_500 = refl
