-- ===== src/Dlms/Pdu.antt =====
-- drivers/dlms/protocol.py: the association and the read PDUs. Integer arguments are not negative.
pub mod RoundTrip
use diep_lab.Base.{
  ℕ, ◌+◌, ◌*◌, ◌/◌, ◌%◌, Bool, true, false, ◌&&◌, List, [], ◌∷◌, ◌++◌, length, ltb, leb, nat_eqb,
  if◌then◌else◌,
}
use diep_lab.Base.Result.{Result, ok, err, ◌>>=◌, ◌>>◌, guard}
use diep_lab.Dlms.Bytes.{pack_u16, unpack_u16}

pub data Error : Type 0 where
  value_error : Error

abbrev pub Bytes : Type 0
Bytes = List ℕ

abbrev pub aarq : ℕ
aarq = 0x60

abbrev pub aare : ℕ
aare = 0x61

abbrev pub rlrq : ℕ
rlrq = 0x62

abbrev pub rlre : ℕ
rlre = 0x63

abbrev pub get_request_normal : ℕ
get_request_normal = 0xC0

abbrev pub get_response_normal : ℕ
get_response_normal = 0xC4

-- A number that `bytes([n])` takes.
unfoldable pub as_byte : ℕ → Result Error ℕ
as_byte n = if leb n 255 then ok n else err value_error

unfoldable pub build_aarq : ℕ → ℕ → ℕ → Result Error Bytes
build_aarq client_address server_address dlms_version = do
  version ← as_byte dlms_version
  ok (aarq ∷ client_address % 256 ∷ server_address % 256 ∷ version ∷ [])

-- (client_address, server_address, dlms_version)
unfoldable pub parse_aarq : Bytes → Result Error (ℕ × ℕ × ℕ)
parse_aarq (tag ∷ client ∷ server ∷ version ∷ rest) =
    if nat_eqb tag aarq then ok (client, server, version) else err value_error
parse_aarq _ = err value_error

unfoldable pub build_aare : ℕ → ℕ → Result Error Bytes
build_aare dlms_version result = do
  r ← as_byte result
  version ← as_byte dlms_version
  ok (aare ∷ r ∷ version ∷ [])

-- (result, dlms_version)
unfoldable pub parse_aare : Bytes → Result Error (ℕ × ℕ)
parse_aare (tag ∷ result ∷ version ∷ rest) =
    if nat_eqb tag aare then ok (result, version) else err value_error
parse_aare _ = err value_error

unfoldable pub build_release_request : Bytes
build_release_request = rlrq ∷ []

unfoldable pub build_release_response : Bytes
build_release_response = rlre ∷ []

pub record GetRequest : Type 0 where
  pub invoke_id : ℕ
  pub class_id : ℕ
  pub obis : Bytes
  pub attribute : ℕ

unfoldable pub build_get_request : ℕ → ℕ → Bytes → ℕ → ℕ → Result Error Bytes
build_get_request invoke_id class_id obis attribute access =
    if nat_eqb (length obis) 6
    then ok (
        get_request_normal
        ∷ invoke_id % 256
        ∷ (pack_u16 (class_id % 65536) ++ (obis ++ (attribute % 256 ∷ access % 256 ∷ []))))
    else err value_error

unfoldable pub parse_get_request : Bytes → Result Error GetRequest
parse_get_request (tag ∷ i ∷ hi ∷ lo ∷ a ∷ b ∷ c ∷ d ∷ e ∷ f ∷ attribute ∷ access ∷ rest) =
    if nat_eqb tag get_request_normal
    then ok (record {
      invoke_id = i;
      class_id = unpack_u16 hi lo;
      obis = a ∷ b ∷ c ∷ d ∷ e ∷ f ∷ [];
      attribute = attribute;
    })
    else err value_error
parse_get_request _ = err value_error

unfoldable pub build_get_response : ℕ → Bytes → ℕ → Result Error Bytes
build_get_response invoke_id value_bytes result = do
  r ← as_byte result
  ok (get_response_normal ∷ invoke_id % 256 ∷ r ∷ value_bytes)

-- (invoke_id, result, value_bytes)
unfoldable pub parse_get_response : Bytes → Result Error (ℕ × ℕ × Bytes)
parse_get_response (tag ∷ i ∷ result ∷ value_bytes) =
    if nat_eqb tag get_response_normal then ok (i, result, value_bytes) else err value_error
parse_get_response _ = err value_error
