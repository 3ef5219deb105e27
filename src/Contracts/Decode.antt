-- ===== src/Contracts/Decode.antt =====
-- contracts/telemetry.py: `TelemetryEnvelope.from_dict`, `to_dict` and `dedup_key`.
use diep_lab.Base.{ℕ, String, some, List, [], ◌∷◌, map}
use diep_lab.Base.Int.{pos}
use diep_lab.Base.Result.{ok, ◌>>=◌, ◌>>◌, guard, or_raise}
use diep_lab.Base.Float.{FloatOps, Parser}
use diep_lab.Contracts.Error.{Outcome, integer, type_error}
use diep_lab.Contracts.Measurement.{
  Measurement, RawMeasurement, make_measurement, measurement_to_dict, is_nil, default,
}
use diep_lab.Contracts.Envelope.{Envelope, RawEnvelope, schema_version, envelope_post_init}

module _ {V : Type 0} ⦃F : FloatOps V⦄ where
  -- `[Measurement(**m) for m in measurements]`
  unfoldable pub make_measurements : List (RawMeasurement V) → Outcome (List (Measurement V))
  make_measurements [] = ok []
  make_measurements (m ∷ ms) = do x ← make_measurement m; xs ← make_measurements ms; ok (x ∷ xs)

module _ {V : Type 0} ⦃F : FloatOps V⦄ (fromisoformat : Parser) (fresh_uuid : String) where
  -- The call `cls(measurements=..., **data)`: arguments, defaults, then `__post_init__`.
  unfoldable pub make_envelope : List (Measurement V) → RawEnvelope V → Outcome (Envelope V)
  make_envelope ms d = do
    guard (is_nil d.unexpected) type_error
    tenant_id ← or_raise d.tenant_id type_error
    site_id ← or_raise d.site_id type_error
    device_id ← or_raise d.device_id type_error
    meter_id ← or_raise d.meter_id type_error
    timestamp_utc ← or_raise d.timestamp_utc type_error
    envelope_post_init fromisoformat (default (integer (pos 0)) d.sequence_number) (record {
      tenant_id = tenant_id;
      site_id = site_id;
      device_id = device_id;
      meter_id = meter_id;
      timestamp_utc = timestamp_utc;
      measurements = ms;
      timestamp_source = default "GATEWAY" d.timestamp_source;
      source_protocol = default "dlms" d.source_protocol;
      source_system = default "ami-ingest" d.source_system;
      sequence_number = 0;
      schema_version = default schema_version d.schema_version;
      ingestion_timestamp = d.ingestion_timestamp;
      correlation_id = default fresh_uuid d.correlation_id;
    })

  -- `TelemetryEnvelope.from_dict`
  unfoldable pub from_dict : RawEnvelope V → Outcome (Envelope V)
  from_dict d = do ms ← make_measurements d.measurements; make_envelope ms d

-- `TelemetryEnvelope.to_dict`
unfoldable pub to_dict : {V : Type 0} → Envelope V → RawEnvelope V
to_dict e = record {
  tenant_id = some e.tenant_id;
  site_id = some e.site_id;
  device_id = some e.device_id;
  meter_id = some e.meter_id;
  timestamp_utc = some e.timestamp_utc;
  measurements = map measurement_to_dict e.measurements;
  timestamp_source = some e.timestamp_source;
  source_protocol = some e.source_protocol;
  source_system = some e.source_system;
  sequence_number = some (integer (pos e.sequence_number));
  schema_version = some e.schema_version;
  ingestion_timestamp = e.ingestion_timestamp;
  correlation_id = some e.correlation_id;
  unexpected = [];
}

-- `TelemetryEnvelope.dedup_key`
unfoldable pub dedup_key : {V : Type 0} → Envelope V → String × (String × (String × ℕ))
dedup_key e = (e.tenant_id, (e.device_id, (e.timestamp_utc, e.sequence_number)))
