-- ===== src/Dlms/Scalars/RoundTrip.antt =====
-- Encoding and decoding a scalar.
use diep_lab.Base.{ℕ, ◌+◌, ◌-◌, ◌%◌, ◌≡◌, refl, subst, ◌++◌, take, take_prefix, arith}
use diep_lab.Base.Int.{ℤ, pos, negsuc}
use diep_lab.Base.Result.{Result, ok, err, ◌>>=◌}
use diep_lab.Dlms.Bytes.{u32_round}
use diep_lab.Dlms.Scalars.{
  Error, type_error, Bytes, DoubleCodec, Scalar, boolean, integer, float, mask_u32, encode_value,
  unpack_uint32, unpack_float64, decode_value,
}

-- The least number that differs from the integer by a multiple of 2^32.
unfoldable pub residue : ℤ → ℕ
residue (pos n) = n % 4294967296
residue (negsuc n) = (4294967296 - (n + 1) % 4294967296) % 4294967296

-- What arrives of a scalar: an integer as its residue modulo 2^32, a float as it is.
unfoldable pub received : {V : Type 0} → Scalar V → Result Error (Scalar V)
received (boolean b) = err type_error
received (integer n) = ok (integer (pos (residue n)))
received (float v) = ok (float v)

-- The mask of the encoder is the residue.
mask_u32-residue : (n : ℤ) → mask_u32 n ≡ residue n
unfolding mask_u32 residue
mask_u32-residue (pos n) = omega arith
mask_u32-residue (negsuc n) = omega arith

module _ {V : Type 0} (codec : DoubleCodec V) where
  eight_bytes : (v : V) (rest : Bytes) → take 8 (codec.pack v ++ rest) ≡ codec.pack v
  eight_bytes v rest =
      subst (λ n. take n (codec.pack v ++ rest) ≡ codec.pack v) (codec.pack_length v)
        (take_prefix (codec.pack v) rest)

  -- Decoding what was encoded, whatever bytes follow, gives a float as it is and an integer as its
  -- residue modulo 2^32; a bool is refused by the encoder.
  pub decode-encode_value :
      (v : Scalar V) (rest : Bytes)
      → (encode_value codec v >>= λ b. decode_value codec (b ++ rest)) ≡ received v
  unfolding encode_value decode_value unpack_uint32 unpack_float64 received ◌>>=◌
  decode-encode_value (boolean b) rest = refl
  decode-encode_value (integer n) rest = rw (u32_round (mask_u32 n), mask_u32-residue n) refl
  decode-encode_value (float v) rest =
      rw (eight_bytes v rest, codec.pack_length v, codec.unpack-pack v) refl
