-- ===== src/Contracts/Error.antt =====
-- contracts/telemetry.py: why a payload is refused, and the values that a payload's field may hold.
use diep_lab.Base.{String, Bool}
use diep_lab.Base.Int.{ℤ}
use diep_lab.Base.Result.{Result}

-- `type_error` is the TypeError of a constructor call with missing or unexpected arguments. The
-- others are ContractValidationError, by the check that raises it.
pub data Error : Type 0 where
  type_error : Error
  required : String → Error
  not_numeric invalid_quality : Error
  empty_time not_iso8601 naive_time not_utc : String → Error
  unknown_timestamp_source bad_sequence_number incompatible_version no_measurements : Error
  duplicate_type : String → Error

abbrev pub Outcome : Type 0 → Type 0
Outcome = Result Error

-- A value of a decoded JSON object, as far as the constructors look at its type.
pub data Scalar (V : Type 0) : Type 0 where
  integer : ℤ → Scalar V
  float : V → Scalar V
  boolean : Bool → Scalar V
  text : String → Scalar V
  null : Scalar V
