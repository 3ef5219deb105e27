-- ===== src/Contracts/Envelope.antt =====
-- contracts/telemetry.py: `TelemetryEnvelope`, its constructor, `dedup_key`, `to_dict`, `from_dict`.
use Prim.Native.Char.{code}
use diep_lab.Base.{
  ℕ, String, ◌<>◌, Bool, false, not, Option, none, some, List, [], ◌∷◌, ◌==◌, contains, string_eq,
  nat_eq, if◌then◌else◌,
}
use diep_lab.Base.Int.{ℤ, pos, negsuc}
use diep_lab.Base.Result.{ok, err, ◌>>=◌, ◌>>◌, guard, or_raise}
use diep_lab.Base.Float.{Stamp, Parser}
use diep_lab.Contracts.Error.{
  Outcome, Scalar, integer, required, empty_time, not_iso8601, naive_time, not_utc,
  unknown_timestamp_source, bad_sequence_number, incompatible_version, no_measurements,
  duplicate_type,
}
use diep_lab.Contracts.Measurement.{Measurement, RawMeasurement, is_nonempty, is_nil}

pub record Envelope (V : Type 0) : Type 0 where
  pub tenant_id : String
  pub site_id : String
  pub device_id : String
  pub meter_id : String
  pub timestamp_utc : String
  pub measurements : List (Measurement V)
  pub timestamp_source : String
  pub source_protocol : String
  pub source_system : String
  pub sequence_number : ℕ
  pub schema_version : String
  pub ingestion_timestamp : Option String
  pub correlation_id : String

-- The payload: a field that is absent is `none`. An absent `ingestion_timestamp` and a null one
-- are both None to the constructor.
pub record RawEnvelope (V : Type 0) : Type 0 where
  pub tenant_id : Option String
  pub site_id : Option String
  pub device_id : Option String
  pub meter_id : Option String
  pub timestamp_utc : Option String
  pub measurements : List (RawMeasurement V)
  pub timestamp_source : Option String
  pub source_protocol : Option String
  pub source_system : Option String
  pub sequence_number : Option (Scalar V)
  pub schema_version : Option String
  pub ingestion_timestamp : Option String
  pub correlation_id : Option String
  pub unexpected : List String

abbrev pub schema_version : String
schema_version = "1.0"

abbrev pub valid_timestamp_sources : List String
valid_timestamp_sources = "DEVICE" ∷ "GATEWAY" ∷ "INGEST" ∷ []

-- `ts.replace("Z", "+00:00")`
unfoldable pub replace_z : String → String
replace_z String.[] = String.[]
replace_z (String.◌∷◌ c s) =
    if code c == b'Z' then "+00:00" <> replace_z s else String.◌∷◌ c (replace_z s)

-- `version.split(".", 1)[0]`
unfoldable pub major : String → String
major String.[] = String.[]
major (String.◌∷◌ c s) = if code c == b'.' then String.[] else String.◌∷◌ c (major s)

unfoldable pub is_version_compatible : String → Bool
is_version_compatible version = major version == major schema_version

abbrev is_zero : ℤ → Bool
is_zero (pos n) = n == 0
is_zero (negsuc _) = false

-- The time zone checks of `_parse_utc`.
unfoldable pub require_utc : String → Stamp → Option ℤ → Outcome Stamp
require_utc ts stamp none = err (naive_time ts)
require_utc ts stamp (some offset) = guard (is_zero offset) (not_utc ts) >> ok stamp

unfoldable pub parse_utc : Parser → String → String → Outcome Stamp
parse_utc fromisoformat ts field = do
  guard (is_nonempty ts) (empty_time field)
  stamp ← or_raise (fromisoformat (replace_z ts)) (not_iso8601 ts)
  require_utc ts stamp stamp.offset

unfoldable pub check_optional_time : Parser → Option String → Outcome (Unit {0})
check_optional_time fromisoformat none = ok tt
check_optional_time fromisoformat (some ts) =
    parse_utc fromisoformat ts "ingestion_timestamp" >>= λ _. ok tt

-- `isinstance(n, int) and not isinstance(n, bool) and n >= 0`
unfoldable pub as_sequence_number : {V : Type 0} → Scalar V → Outcome ℕ
as_sequence_number (integer (pos n)) = ok n
as_sequence_number _ = err bad_sequence_number

-- The loop over `seen`.
unfoldable pub check_unique : {V : Type 0} → List String → List (Measurement V) → Outcome (Unit {0})
check_unique seen [] = ok tt
check_unique seen (m ∷ ms) =
    let rest = check_unique (m.measurement_type ∷ seen) ms in
    if contains seen m.measurement_type then err (duplicate_type m.measurement_type) else rest

-- `TelemetryEnvelope.__post_init__`, on the fields that the constructor has just set. The sequence
-- number may be any value until it is checked, so it comes beside the other fields.
unfoldable pub envelope_post_init :
    {V : Type 0} → Parser → Scalar V → Envelope V → Outcome (Envelope V)
envelope_post_init fromisoformat number e = do
  guard (is_nonempty e.tenant_id) (required "tenant_id")
  guard (is_nonempty e.site_id) (required "site_id")
  guard (is_nonempty e.device_id) (required "device_id")
  guard (is_nonempty e.meter_id) (required "meter_id")
  _ ← parse_utc fromisoformat e.timestamp_utc "timestamp_utc"
  check_optional_time fromisoformat e.ingestion_timestamp
  guard (contains valid_timestamp_sources e.timestamp_source) unknown_timestamp_source
  sequence_number ← as_sequence_number number
  guard (is_version_compatible e.schema_version) incompatible_version
  guard (not (is_nil e.measurements)) no_measurements
  check_unique [] e.measurements
  ok (record e { sequence_number = sequence_number })
