-- ===== src/Tests/Program.antt =====
-- What a run of the pipeline unfolds.
use diep_lab.Base.{string_eq, nat_eq, pair_eq}
use diep_lab.Base.Int.{◌-ℤ◌, ◌*ℤ◌}
use diep_lab.Base.Dict.{lookup, insert}
use diep_lab.Base.Float.{divide}
use diep_lab.Base.Result.{◌>>=◌, guard, or_raise}
use diep_lab.Contracts.Quality.{value, quality_of, is_measured, is_estimated}
use diep_lab.Contracts.Measurement.{
  numeric, as_quality, post_init, make_measurement, measurement_to_dict,
}
use diep_lab.Contracts.Envelope.{
  replace_z, major, is_version_compatible, require_utc, parse_utc, check_optional_time,
  as_sequence_number, check_unique, envelope_post_init,
}
use diep_lab.Contracts.Decode.{make_measurements, make_envelope, from_dict, to_dict, dedup_key}
use diep_lab.Mdm.Validation.{is_bad_unit, bad_units, validate_envelope, validate_outcome, validate}
use diep_lab.Mdm.Duplicates.{touch, add, decide_duplicate, record_seen, check_and_record}
use diep_lab.Mdm.Timestamps
use diep_lab.Mdm.Timestamps.{is_behind, advance, captured_at, assess_at}
use diep_lab.Mdm.Gaps.{
  and_events, expected_interval, missed_samples, event_of, gap_event, check_from, check,
}
use diep_lab.Mdm.Units.{fahrenheit, converted_value, convert, normalize_to, normalize}
use diep_lab.Mdm.Quality
use diep_lab.Mdm.Quality.{escalate, check_range}
use diep_lab.Mdm.Enrichment.{
  parent_of, fetch_parent, walk_from, walk_to_node_type, read_metadata, fresh_entry, enrich,
}
use diep_lab.Mdm.Pipeline.{
  count_estimated, refine, publish, after_gaps, after_assessment, process_fresh, process_valid,
  process_validated, process,
}
use diep_lab.Tests.Samples.{fixed_point, parser, grid}

-- The code that a run of `process` evaluates.
unfoldable pub program : Unit {0}
unfolding divide lookup insert ◌-ℤ◌ ◌*ℤ◌ ◌>>=◌ guard or_raise string_eq nat_eq pair_eq value
    quality_of is_measured is_estimated numeric as_quality post_init make_measurement
    measurement_to_dict replace_z major is_version_compatible require_utc parse_utc
    check_optional_time as_sequence_number check_unique envelope_post_init make_measurements
    make_envelope from_dict to_dict dedup_key is_bad_unit bad_units validate_envelope
    validate_outcome validate touch add decide_duplicate record_seen check_and_record is_behind
    advance captured_at assess_at Timestamps.assess and_events expected_interval missed_samples
    event_of gap_event check_from check fahrenheit converted_value convert normalize_to normalize
    escalate check_range Quality.assess parent_of fetch_parent walk_from walk_to_node_type
    read_metadata fresh_entry enrich count_estimated refine publish after_gaps after_assessment
    process_fresh process_valid process_validated process fixed_point parser grid
program = tt
