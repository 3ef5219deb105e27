-- ===== src/Tests/Dlms.antt =====
-- Runs of the DLMS codec.
use diep_lab.Base.{
  ℕ, ◌≡◌, ◌≢◌, refl, true, false, Bool, List, [], ◌∷◌, ◌++◌, length, nat_eqb, arith,
}
use diep_lab.Base.Int.{negsuc}
use diep_lab.Base.Result.{ok, err, ◌>>=◌, guard}
use diep_lab.Dlms.Frame.{out_of_fuel, frame, unframe}
use diep_lab.Dlms.Frame.Stream.{frame_all, body, unframe-frame_all, unframe-ne_fuel}
use diep_lab.Dlms.Scalars.{DoubleCodec, integer, encode_value, decode_value}
use diep_lab.Dlms.Scalars.RoundTrip.{received, decode-encode_value}

abbrev first : List ℕ
first = 0x62 ∷ []

abbrev second : List ℕ
second = 0x63 ∷ 7 ∷ []

abbrev written : List ℕ
written = 1 ∷ 0 ∷ 1 ∷ 0x62 ∷ 1 ∷ 0 ∷ 2 ∷ 0x63 ∷ 7 ∷ []

framed : frame_all (first ∷ second ∷ []) ≡ ok written
unfolding frame_all frame ◌>>=◌ guard
framed = refl

-- Two frames, and the header of a third one with a byte of its body.
unframe-frame_all_example :
    unframe (written ++ 1 ∷ 0 ∷ 4 ∷ 9 ∷ []) ≡ ok (first ∷ second ∷ [], length written)
unframe-frame_all_example =
    unframe-frame_all (first ∷ second ∷ []) written (1 ∷ 0 ∷ 4 ∷ 9 ∷ []) framed
      (body 0 4 (9 ∷ []) (omega arith))

unframe-ne_fuel_example : unframe (2 ∷ 0 ∷ 0 ∷ []) ≢ err out_of_fuel
unframe-ne_fuel_example = unframe-ne_fuel (2 ∷ 0 ∷ 0 ∷ [])

abbrev obis : List ℕ
obis = 1 ∷ 0 ∷ 1 ∷ 8 ∷ 0 ∷ 255 ∷ []

-- Doubles that are 0 or 1, by a byte of their own.
abbrev pack_bit : Bool → List ℕ
pack_bit true = 1 ∷ 0 ∷ 0 ∷ 0 ∷ 0 ∷ 0 ∷ 0 ∷ 0 ∷ []
pack_bit false = 0 ∷ 0 ∷ 0 ∷ 0 ∷ 0 ∷ 0 ∷ 0 ∷ 0 ∷ []

abbrev unpack_bit : List ℕ → Bool
unpack_bit [] = false
unpack_bit (b ∷ _) = nat_eqb b 1

length-pack_bit : (b : Bool) → length (pack_bit b) ≡ 8
length-pack_bit true = refl
length-pack_bit false = refl

unpack-pack_bit : (b : Bool) → unpack_bit (pack_bit b) ≡ b
unpack-pack_bit true = refl
unpack-pack_bit false = refl

abbrev bits : DoubleCodec Bool
bits = record {
  pack = pack_bit;
  unpack = unpack_bit;
  pack_length = length-pack_bit;
  unpack-pack = unpack-pack_bit;
}

decode-encode_value_example :
    (encode_value bits (integer (negsuc 0)) >>= λ b. decode_value bits (b ++ 9 ∷ []))
    ≡ received (integer (negsuc 0))
decode-encode_value_example = decode-encode_value bits (integer (negsuc 0)) (9 ∷ [])
