-- ===== src/Dlms/Pdu/RoundTrip.antt =====
-- Building and parsing the PDUs.
use diep_lab.Base.{
  ℕ, ◌%◌, ◌≤◌, ◌≡◌, refl, true, [], ◌∷◌, ◌++◌, length, nat_eqb, if◌then◌else◌, Bool-cases, inl, inr,
  arith,
}
use diep_lab.Base.Result.{ok, err, ◌>>=◌}
use diep_lab.Dlms.Bytes.{pack_u16, u16_round}
use diep_lab.Dlms.Pdu.{
  value_error, Bytes, as_byte, build_aarq, parse_aarq, build_aare, parse_aare, get_request_normal,
  build_get_request, parse_get_request, build_get_response, parse_get_response,
}

-- Parsing an association request or response that was built, for a version and a result that are
-- bytes, gives back the fields, with the addresses cut to a byte.
pub parse-build_association :
    (client server version result : ℕ)
    → version ≤ 255
    → result ≤ 255
    → ((build_aarq client server version >>= parse_aarq) ≡ ok (client % 256, server % 256, version))
      × ((build_aare version result >>= parse_aare) ≡ ok (result, version))
unfolding build_aarq parse_aarq build_aare parse_aare as_byte ◌>>=◌
parse-build_association client server version result hv hr = (ground arith, ground arith)

parse_six :
    (i k : ℕ) (obis : Bytes) (attribute access : ℕ)
    → nat_eqb (length obis) 6 ≡ true
    → parse_get_request (
        get_request_normal
        ∷ i % 256
        ∷ (pack_u16 (k % 65536) ++ (obis ++ (attribute % 256 ∷ access % 256 ∷ []))))
      ≡ ok (record {
        invoke_id = i % 256;
        class_id = k % 65536;
        obis = obis;
        attribute = attribute % 256;
      })
unfolding parse_get_request
parse_six i k (a ∷ b ∷ c ∷ d ∷ e ∷ f ∷ []) attribute access h = rw (u16_round (k % 65536)) refl
parse_six i k [] attribute access h = ground arith
parse_six i k (a ∷ []) attribute access h = ground arith
parse_six i k (a ∷ b ∷ []) attribute access h = ground arith
parse_six i k (a ∷ b ∷ c ∷ []) attribute access h = ground arith
parse_six i k (a ∷ b ∷ c ∷ d ∷ []) attribute access h = ground arith
parse_six i k (a ∷ b ∷ c ∷ d ∷ e ∷ []) attribute access h = ground arith
parse_six i k (a ∷ b ∷ c ∷ d ∷ e ∷ f ∷ g ∷ rest) attribute access h = ground arith

-- Parsing a read request that was built for a logical name of six octets gives back the fields, each
-- cut to its width; a name of any other length is refused by the builder.
pub parse-build_get_request :
    (invoke_id class_id : ℕ) (obis : Bytes) (attribute access : ℕ)
    → (build_get_request invoke_id class_id obis attribute access >>= parse_get_request) ≡ (
        if nat_eqb (length obis) 6
        then ok (record {
          invoke_id = invoke_id % 256;
          class_id = class_id % 65536;
          obis = obis;
          attribute = attribute % 256;
        })
        else err value_error)
unfolding build_get_request ◌>>=◌
parse-build_get_request i k obis attribute access = elim (Bool-cases (nat_eqb (length obis) 6)) [
  | inl six ↦ rw (six, build_get_request) (parse_six i k obis attribute access six)
  | inr other ↦ rw (other, build_get_request) refl
]

-- Parsing a read response that was built, with any value bytes and a result that is a byte, gives
-- back the fields, with the invoke id cut to a byte.
pub parse-build_get_response :
    (invoke_id result : ℕ) (value_bytes : Bytes)
    → result ≤ 255
    → (build_get_response invoke_id value_bytes result >>= parse_get_response)
      ≡ ok (invoke_id % 256, result, value_bytes)
unfolding build_get_response parse_get_response as_byte ◌>>=◌
parse-build_get_response invoke_id result value_bytes h = ground arith
