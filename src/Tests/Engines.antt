-- ===== src/Tests/Engines.antt =====
-- Runs of the engines of the pipeline.
use diep_lab.Base.{
  String, ◌≡◌, ◌↔◌, refl, true, false, none, some, List, [], ◌∷◌, All, contains, arith, string_eq,
  nat_eq, pair_eq,
}
use diep_lab.Base.Int.{ℤ, pos}
use diep_lab.Base.Dict.{lookup}
use diep_lab.Base.Result.{ok}
use diep_lab.Contracts.Decode.{dedup_key, from_dict}
use diep_lab.Mdm.Validation.{is_bad_unit, accepted, validate}
use diep_lab.Mdm.Duplicates.{add, check_and_record}
use diep_lab.Mdm.Timestamps.{captured_at, assess_at}
use diep_lab.Mdm.Gaps.{check}
use diep_lab.Mdm.Units.{canonical_units, normalize}
use diep_lab.Mdm.Quality
use diep_lab.Mdm.Quality.{escalate, check_range}
use diep_lab.Mdm.Enrichment.{walk_from}
use diep_lab.Mdm.Validation.{known_units}
use diep_lab.Mdm.Duplicates.Detection.{IsBounded}
use diep_lab.Tests.Samples.{fixed_point, parser, grid, gap_config, config, payload, start}
use diep_lab.Tests.Runs.{voltage, decoded, after}
use diep_lab.Contracts.Envelope.{Envelope}
use diep_lab.Contracts.Quality.{good}
use diep_lab.Contracts.Measurement.{Measurement}
use diep_lab.Mdm.Validation.Accepted.{HasListedUnit, validate-accepted}
use diep_lab.Mdm.Duplicates.Retention.{add-evicts_oldest}
use diep_lab.Mdm.Duplicates.Detection.{
  check_all, check_and_record-IsBounded, check_and_record-redelivery,
}
use diep_lab.Mdm.Timestamps.Order.{Arrival, was_overtaken, assess_all, assess_at-out_of_order}
use diep_lab.Mdm.Gaps.{GapEvent, LastSeen}
use diep_lab.Mdm.Gaps.Events.{IsGap, check-IsGap}
use diep_lab.Mdm.Units.Coverage.{normalize-canonical}
use diep_lab.Mdm.Quality.Escalation.{IsPlausible, assess-IsPlausible}
use diep_lab.Mdm.Enrichment.{GridNode}
use diep_lab.Mdm.Enrichment.Lineage.{IsAncestor, here, above}
use diep_lab.Tests.Program.{program}
use diep_lab.Tests.Inputs.{start-IsBounded, any-ne-correlation_only}

validate-accepted_example :
    (validate parser "c1" config.is_uuid known_units payload ≡ accepted decoded) ↔ (
      (from_dict parser "c1" payload ≡ ok decoded)
      × (config.is_uuid decoded.correlation_id ≡ true)
      × All (HasListedUnit known_units) decoded.measurements)
validate-accepted_example = validate-accepted parser "c1" config.is_uuid known_units payload decoded

-- The payload again with another correlation id, and another payload between.
abbrev again : Envelope ℤ
again = record decoded { correlation_id = "c2" }

abbrev next : Envelope ℤ
next = record decoded { sequence_number = 8; correlation_id = "c3" }

key_new : contains start.detector.keys (dedup_key decoded) ≡ false
key_new = refl

same_key : dedup_key again ≡ dedup_key decoded
unfolding program
same_key = refl

check_and_record-redelivery_example :
    let seen = check_all (next ∷ []) (check_and_record decoded start.detector).1 in
    (check_and_record again seen).0.is_duplicate ≡ true
check_and_record-redelivery_example =
    check_and_record-redelivery decoded again (next ∷ []) start.detector start-IsBounded
      any-ne-correlation_only key_new same_key (omega arith)

check_and_record-IsBounded_example : IsBounded (check_and_record next after.detector).1
check_and_record-IsBounded_example =
    check_and_record-IsBounded next after.detector
      (record { keys = omega arith; correlation_ids = omega arith })

abbrev stored : List String
stored = "b" ∷ []

abbrev full : List String
full = "a" ∷ stored

other_keys : (contains stored "a" ≡ false) × (contains full "c" ≡ false)
unfolding program
other_keys = (refl, refl)

add-evicts_oldest_example :
    (add 2 "a" full ≡ full) × (contains (add 2 "c" (add 2 "a" full)) "a" ≡ false)
add-evicts_oldest_example = add-evicts_oldest 2 "a" "c" stored refl other_keys.0 other_keys.1

abbrev arrivals : List (Arrival ℤ)
arrivals =
    record { received = pos 2; captured = pos 1; envelope = next }
    ∷ record { received = pos 3; captured = pos 1; envelope = again }
    ∷ []

assess_at-out_of_order_example :
    (assess_at config.isoformat
      (pos 1)
      (pos 4)
      (pos 1)
      decoded
      (assess_all config.isoformat (pos 1) arrivals [])).0.is_out_of_order
    ≡ was_overtaken decoded arrivals
assess_at-out_of_order_example =
    assess_at-out_of_order config.isoformat (pos 1) arrivals (pos 4) (pos 1) decoded

-- An hour later, where a minute was expected.
abbrev late : Envelope ℤ
late = record decoded { timestamp_utc = "2024-01-01T13:00:00Z"; measurements = voltage ∷ [] }

abbrev late_gap : GapEvent ℤ
late_gap = record {
  tenant_id = "t1";
  device_id = "m1";
  measurement_type = "voltage";
  last_seen_at = pos 43200000000;
  current_at = pos 46800000000;
  gap_seconds = pos 3600000000;
  expected_interval_s = pos 60000000;
  estimated_missed_samples = 59;
}

abbrev after_late : LastSeen
after_late =
    (("t1", ("m1", "voltage")), pos 46800000000)
    ∷ (("t1", ("m1", "power_kw")), pos 43200000000)
    ∷ []

late_parses : captured_at parser late ≡ some (pos 46800000000)
unfolding program
late_parses = refl

late_checked : check parser gap_config late after.last_seen ≡ some (late_gap ∷ [], after_late)
unfolding program
late_checked = refl

check-IsGap_example : All (IsGap gap_config (pos 46800000000) late after.last_seen) (late_gap ∷ [])
check-IsGap_example =
    check-IsGap gap_config parser late after.last_seen (pos 46800000000) (refl, tt) late_parses
      late_checked

voltage_known :
    (lookup "voltage" canonical_units ≡ some "V")
    × (is_bad_unit (lookup "voltage" known_units) "kV" ≡ false)
unfolding program
voltage_known = (refl, refl)

normalize-canonical_example : (normalize voltage).0.unit ≡ "V"
normalize-canonical_example = normalize-canonical voltage "V" voltage_known.0 voltage_known.1

abbrev volts : Measurement ℤ
volts = record voltage { unit = "V"; value = pos 240000000 }

volts_good : (Quality.assess config.range_limits volts).0.quality ≡ good
unfolding program
volts_good = refl

assess-IsPlausible_example :
    (volts.quality ≡ good)
    × IsPlausible config.range_limits (Quality.assess config.range_limits volts).0
assess-IsPlausible_example = assess-IsPlausible config.range_limits volts volts_good

abbrev meter : GridNode
meter = record { node_id = "m1"; node_type = "meter"; parent_id = some "tr1" }

abbrev transformer : GridNode
transformer = record { node_id = "tr1"; node_type = "transformer"; parent_id = some "f1" }

abbrev feeder : GridNode
feeder = record { node_id = "f1"; node_type = "feeder"; parent_id = none }

feeder_found : walk_from grid 3 "feeder" (some meter) ≡ some "f1"
unfolding program
feeder_found = refl

feeder_above : IsAncestor grid feeder 2 meter
unfolding program
feeder_above = above {up = transformer} refl (above {up = feeder} refl here)
