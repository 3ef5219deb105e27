-- ===== src/Dlms/Scalars.antt =====
-- drivers/dlms/protocol.py: the scalar codec.
pub mod RoundTrip
use diep_lab.Base.{
  ℕ, ◌+◌, ◌*◌, ◌-◌, ◌/◌, ◌%◌, ◌^◌, ◌≡◌, Bool, Option, none, some, List, [], ◌∷◌, ◌++◌, length, take,
  leb, nat_eqb, if◌then◌else◌,
}
use diep_lab.Base.Int.{ℤ, pos, negsuc}
use diep_lab.Base.Result.{Result, ok, err, ◌>>=◌}
use diep_lab.Dlms.Bytes.{pack_u32, unpack_u32}

pub data Error : Type 0 where
  type_error value_error index_error struct_error : Error

abbrev pub Bytes : Type 0
Bytes = List ℕ

abbrev pub type_uint32 : ℕ
type_uint32 = 0x06

abbrev pub type_float64 : ℕ
type_float64 = 0x0F

-- `struct.pack(">d", v)` and `struct.unpack(">d", b)`: eight bytes, and back.
pub record DoubleCodec (V : Type 0) : Type 0 where
  pub pack : V → Bytes
  pub unpack : Bytes → V
  pub pack_length : (v : V) → length (pack v) ≡ 8
  pub unpack-pack : (v : V) → unpack (pack v) ≡ v

pub data Scalar (V : Type 0) : Type 0 where
  boolean : Bool → Scalar V
  integer : ℤ → Scalar V
  float : V → Scalar V

-- `v & 0xFFFFFFFF`
unfoldable pub mask_u32 : ℤ → ℕ
mask_u32 (pos n) = n % 4294967296
mask_u32 (negsuc n) = 4294967295 - n % 4294967296

module _ {V : Type 0} (codec : DoubleCodec V) where
  unfoldable pub encode_value : Scalar V → Result Error Bytes
  encode_value (boolean _) = err type_error
  encode_value (integer n) = ok (type_uint32 ∷ pack_u32 (mask_u32 n))
  encode_value (float v) = ok (type_float64 ∷ codec.pack v)

  -- `struct.unpack(">I", rest[:4])[0]`
  unfoldable pub unpack_uint32 : Bytes → Result Error (Scalar V)
  unpack_uint32 (a ∷ b ∷ c ∷ d ∷ rest) = ok (integer (pos (unpack_u32 a b c d)))
  unpack_uint32 _ = err struct_error

  -- `struct.unpack(">d", rest[:8])[0]`
  unfoldable pub unpack_float64 : Bytes → Result Error (Scalar V)
  unpack_float64 rest =
      let eight = take 8 rest in
      if nat_eqb (length eight) 8 then ok (float (codec.unpack eight)) else err struct_error

  unfoldable pub decode_value : Bytes → Result Error (Scalar V)
  decode_value [] = err index_error
  decode_value (t ∷ rest) =
      if nat_eqb t type_uint32
      then unpack_uint32 rest
      else if nat_eqb t type_float64
      then unpack_float64 rest
      else err value_error
