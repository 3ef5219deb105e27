-- ===== src/Contracts/Validity.antt =====
-- What a constructed envelope satisfies: the contract, stated without the constructor's tests.
use diep_lab.Base.{
  String, ◌≡◌, ◌≢◌, true, false, Option, none, some, List, [], ◌∷◌, contains, string_eq, All,
}
use diep_lab.Base.Int.{pos}
use diep_lab.Base.Float.{Stamp, Parser}
use diep_lab.Contracts.Quality.{estimated}
use diep_lab.Contracts.Measurement.{Measurement}
use diep_lab.Contracts.Envelope.{Envelope, valid_timestamp_sources, replace_z, major}

-- The named text parses to an instant whose time zone has the offset zero.
pub record IsUtc (fromisoformat : Parser) (ts : String) : Type 0 where
  pub nonempty : ts ≢ ""
  pub stamp : Stamp
  pub parsed : fromisoformat (replace_z ts) ≡ some stamp
  pub utc : stamp.offset ≡ some (pos 0)

abbrev pub IsUtcOrNone : Parser → Option String → Type 0
IsUtcOrNone p none = Unit
IsUtcOrNone p (some ts) = IsUtc p ts

-- Every measurement's type differs from those in `seen` and from those before it.
abbrev pub IsFresh : {V : Type 0} → List String → List (Measurement V) → Type 0
IsFresh seen [] = Unit
IsFresh seen (m ∷ ms) =
    (contains seen m.measurement_type ≡ false) × IsFresh (m.measurement_type ∷ seen) ms

pub record IsValidMeasurement {V : Type 0} (m : Measurement V) : Type 0 where
  pub named : m.measurement_type ≢ ""
  pub has_unit : m.unit ≢ ""
  pub flagged : m.quality ≡ estimated → m.estimated ≡ true

pub record IsValid {V : Type 0} (p : Parser) (e : Envelope V) : Type 0 where
  pub tenant : e.tenant_id ≢ ""
  pub site : e.site_id ≢ ""
  pub device : e.device_id ≢ ""
  pub meter : e.meter_id ≢ ""
  pub captured : IsUtc p e.timestamp_utc
  pub ingested : IsUtcOrNone p e.ingestion_timestamp
  pub source : contains valid_timestamp_sources e.timestamp_source ≡ true
  pub version : major e.schema_version ≡ "1"
  pub nonempty : e.measurements ≢ []
  pub unique : IsFresh [] e.measurements
  pub each : All IsValidMeasurement e.measurements
