-- ===== src/Tests/Runs.antt =====
-- What becomes of the payload of the samples.
use diep_lab.Base.{String, false, none, some, List, [], ◌∷◌}
use diep_lab.Base.Int.{ℤ, pos}
use diep_lab.Contracts.Quality.{good, out_of_range}
use diep_lab.Contracts.Error.{integer, float, text}
use diep_lab.Contracts.Measurement.{Measurement}
use diep_lab.Contracts.Envelope.{Envelope}
use diep_lab.Mdm.Pipeline.{Metric, quality_transitions, measurements_processed, State, Trusted}
use diep_lab.Tests.Samples.{noon}

abbrev pub voltage : Measurement ℤ
voltage = record {
  measurement_type = "voltage";
  unit = "kV";
  value = pos 240000;
  quality = good;
  estimated = false;
}

abbrev pub power : Measurement ℤ
power = record {
  measurement_type = "power_kw";
  unit = "kW";
  value = pos 900000000;
  quality = good;
  estimated = false;
}

-- The payload, decoded.
abbrev pub decoded : Envelope ℤ
decoded = record {
  tenant_id = "t1";
  site_id = "s1";
  device_id = "m1";
  meter_id = "m1";
  timestamp_utc = noon;
  measurements = voltage ∷ power ∷ [];
  timestamp_source = "GATEWAY";
  source_protocol = "dlms";
  source_system = "ami-ingest";
  sequence_number = 7;
  schema_version = "1.0";
  ingestion_timestamp = none;
  correlation_id = "c1";
}

abbrev pub topic : String
topic = "diep/amr/m1/telemetry/trusted"

abbrev pub trusted : Trusted ℤ
trusted = (record {
  envelope = (record {
    tenant_id = some "t1";
    site_id = some "s1";
    device_id = some "m1";
    meter_id = some "m1";
    timestamp_utc = some "2024-01-01T12:00:00Z";
    measurements =
        ((record {
          measurement_type = some "voltage";
          unit = some "V";
          value = some (float (pos 240000000));
          quality = some (text "GOOD");
          estimated = some false;
          unexpected = [];
        })
          ∷ (((record {
            measurement_type = some "power_kw";
            unit = some "kW";
            value = some (float (pos 900000000));
            quality = some (text "OUT_OF_RANGE");
            estimated = some false;
            unexpected = [];
          })
              ∷ [])));
    timestamp_source = some "GATEWAY";
    source_protocol = some "dlms";
    source_system = some "ami-ingest";
    sequence_number = some (integer (pos 7));
    schema_version = some "1.0";
    ingestion_timestamp = some "2024-01-01T12:00:01+00:00";
    correlation_id = some "c1";
    unexpected = [];
  });
  processed_at = "2024-01-01T12:00:01+00:00";
  device_metadata = (record {
    device_id = "m1";
    tenant_id = none;
    site_id = none;
    device_type = none;
    asset_class = none;
    feeder_id = some "f1";
    transformer_id = some "tr1";
  });
  quality_transitions =
      ((record {
        measurement_type = "power_kw";
        original_quality = good;
        new_quality = out_of_range;
        reason = "out_of_range";
      })
        ∷ []);
  unit_conversions =
      ((record {
        measurement_type = "voltage";
        original_unit = "kV";
        original_value = pos 240000;
        canonical_unit = "V";
        canonical_value = pos 240000000;
      })
        ∷ []);
  gap_events = [];
  timestamp_assessment = (record {
    ingestion_timestamp = "2024-01-01T12:00:01+00:00";
    drift_seconds = pos 1000000;
    is_drifted = false;
    is_out_of_order = false;
  });
})

abbrev pub log : List Metric
log = ((quality_transitions "out_of_range") ∷ (((measurements_processed 2) ∷ [])))

abbrev pub after : State ℤ
after = (record {
  detector = (record {
    policy = "any";
    cache_size = 2;
    keys = (("t1", ("m1", ("2024-01-01T12:00:00Z", 7))) ∷ []);
    correlation_ids = ("c1" ∷ []);
  });
  sequences = ((("t1", "m1"), 7) ∷ []);
  last_seen =
      ((("t1", ("m1", "voltage")), pos 43200000000)
        ∷ (((("t1", ("m1", "power_kw")), pos 43200000000) ∷ [])));
  cache =
      ((
        "m1",
        (
          (record {
            device_id = "m1";
            tenant_id = none;
            site_id = none;
            device_type = none;
            asset_class = none;
            feeder_id = some "f1";
            transformer_id = some "tr1";
          }),
          pos 0,
        ),
      )
        ∷ []);
})
