-- ===== src/Mdm/Validation.antt =====
-- services/mdm/validation.py: `ValidationEngine`.
pub mod Accepted
use diep_lab.Base.{
  String, Bool, true, false, not, Option, none, some, List, [], ◌∷◌, ◌&&◌, map, contains, string_eq,
  if◌then◌else◌,
}
use diep_lab.Base.Result.{Result, ok, err}
use diep_lab.Base.Dict.{Dict, lookup}
use diep_lab.Base.Float.{FloatOps, Parser}
use diep_lab.Contracts.Error.{Outcome}
use diep_lab.Contracts.Measurement.{Measurement, is_nil}
use diep_lab.Contracts.Envelope.{Envelope, RawEnvelope}
use diep_lab.Contracts.Decode.{from_dict}

abbrev pub known_units : Dict String (List String)
known_units =
    ("voltage", "V" ∷ "kV" ∷ [])
    ∷ ("current", "A" ∷ "mA" ∷ [])
    ∷ ("power_kw", "kW" ∷ "W" ∷ "MW" ∷ [])
    ∷ ("frequency", "Hz" ∷ [])
    ∷ ("active_power", "kW" ∷ "W" ∷ "MW" ∷ [])
    ∷ ("energy_import_kwh", "kWh" ∷ "Wh" ∷ "MWh" ∷ [])
    ∷ ("energy_export_kwh", "kWh" ∷ "Wh" ∷ "MWh" ∷ [])
    ∷ ("power_factor", "" ∷ "ratio" ∷ [])
    ∷ ("temperature", "C" ∷ "F" ∷ "K" ∷ [])
    ∷ []

pub data Reason : Type 0 where
  contract_violation invalid_unit malformed_correlation_id : Reason

-- `ValidationResult`, without the text of `detail`. A refusal keeps `invalid_measurement_types`.
pub data ValidationResult (V : Type 0) : Type 0 where
  accepted : Envelope V → ValidationResult V
  rejected : Reason → List String → ValidationResult V

-- `t in known and u not in known[t]`
unfoldable pub is_bad_unit : Option (List String) → String → Bool
is_bad_unit none unit = false
is_bad_unit (some units) unit = not (contains units unit)

module _ {V : Type 0} where
  unfoldable pub bad_units : Dict String (List String) → List (Measurement V) → List String
  bad_units known [] = []
  bad_units known (m ∷ ms) =
      let rest = bad_units known ms in
      if is_bad_unit (lookup m.measurement_type known) m.unit
      then m.measurement_type ∷ rest
      else rest

  -- The checks after the constructor has accepted the payload. `is_uuid` is whether `uuid.UUID`
  -- takes the text.
  unfoldable pub validate_envelope :
      (is_uuid : String → Bool) (known : Dict String (List String))
      → Envelope V
      → ValidationResult V
  validate_envelope is_uuid known e =
      let bad = bad_units known e.measurements in
      if not (is_uuid e.correlation_id)
      then rejected malformed_correlation_id []
      else if not (is_nil bad)
      then rejected invalid_unit bad
      else accepted e

  unfoldable pub validate_outcome :
      (is_uuid : String → Bool) (known : Dict String (List String))
      → Outcome (Envelope V)
      → ValidationResult V
  validate_outcome is_uuid known (ok e) = validate_envelope is_uuid known e
  validate_outcome is_uuid known (err _) = rejected contract_violation []

-- `ValidationEngine.validate`
unfoldable pub validate :
    {V : Type 0} ⦃F : FloatOps V⦄ (fromisoformat : Parser) (fresh_uuid : String)
    (is_uuid : String → Bool)
    → Dict String (List String)
    → RawEnvelope V
    → ValidationResult V
validate fromisoformat fresh_uuid is_uuid known raw =
    validate_outcome is_uuid known (from_dict fromisoformat fresh_uuid raw)
