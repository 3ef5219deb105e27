-- ===== src/Mdm/Pipeline.antt =====
-- services/mdm/pipeline.py: `MdmPipeline.process`. The state of a pipeline is that of its engines;
-- the metrics are the list of the counter updates, and the latency histogram is not modelled.
pub mod Refinement
pub mod Process
pub mod Inversion
pub mod Trust
pub mod Redelivery
use diep_lab.Base.{
  ℕ, String, ◌<>◌, Bool, Option, none, some, List, [], ◌∷◌, ◌++◌, map, ◌+◌, length, ltb,
  if◌then◌else◌,
}
use diep_lab.Base.Int.{ℤ}
use diep_lab.Base.Dict.{Dict}
use diep_lab.Base.Float.{FloatOps, Parser}
use diep_lab.Contracts.Measurement.{Measurement}
use diep_lab.Contracts.Envelope.{Envelope, RawEnvelope}
use diep_lab.Contracts.Decode.{to_dict}
use diep_lab.Mdm.Validation.{Reason, ValidationResult, accepted, rejected, validate}
use diep_lab.Mdm.Duplicates.{Detector, check_and_record}
use diep_lab.Mdm.Timestamps
use diep_lab.Mdm.Timestamps.{TimestampAssessment, Sequences}
use diep_lab.Mdm.Gaps
use diep_lab.Mdm.Gaps.{GapConfig, GapEvent, LastSeen}
use diep_lab.Mdm.Units.{ConversionRecord, normalize}
use diep_lab.Mdm.Quality
use diep_lab.Mdm.Quality.{QualityTransition, Limits}
use diep_lab.Mdm.Enrichment.{DeviceRow, GridNode, DeviceMetadata, Cache, enrich}

-- What the pipeline is configured with, and what it takes from outside: the datetime and UUID
-- parsers of the language, the random UUID of an envelope that has none, and the two fetchers.
pub record Config (V : Type 0) : Type 0 where
  pub fromisoformat : Parser
  pub isoformat : ℤ → String
  pub is_uuid : String → Bool
  pub fresh_uuid : String
  pub known_units : Dict String (List String)
  pub drift_threshold_s : V
  pub gaps : GapConfig V
  pub range_limits : Limits V
  pub fetch_device_row : String → Option DeviceRow
  pub fetch_grid_node : String → Option GridNode
  pub max_hops : ℕ
  pub ttl_s : V
  pub trusted_topic_suffix : String

pub record State (V : Type 0) : Type 0 where
  pub detector : Detector
  pub sequences : Sequences
  pub last_seen : LastSeen
  pub cache : Cache V

-- An update of one of the counters of MdmMetrics.
pub data Metric : Type 0 where
  envelopes_rejected : Reason → Metric
  duplicates : List String → Metric
  gap_events : String → Metric
  quality_transitions : String → Metric
  measurements_processed : ℕ → Metric
  measurements_estimated : ℕ → Metric

pub data Refusal : Type 0 where
  invalid : Reason → Refusal
  duplicate : Refusal

-- The accepted payload: the envelope's dict and the additive `mdm` block.
pub record Trusted (V : Type 0) : Type 0 where
  pub envelope : RawEnvelope V
  pub processed_at : String
  pub device_metadata : DeviceMetadata
  pub quality_transitions : List QualityTransition
  pub unit_conversions : List (ConversionRecord V)
  pub gap_events : List (GapEvent V)
  pub timestamp_assessment : TimestampAssessment V

pub data PipelineResult (V : Type 0) : Type 0 where
  refused : Refusal → PipelineResult V
  published : String → Trusted V → PipelineResult V

-- The clock readings of one call: the receipt, the two of the enricher, and `processed_at`.
pub record Clocks (V : Type 0) : Type 0 where
  pub received_at : ℤ
  pub enrich_now : V
  pub enrich_stored : V
  pub processed_at : String

abbrev pub build_trusted_topic : String → String → String → String
build_trusted_topic domain device_id suffix =
    "diep/" <> (domain <> ("/" <> (device_id <> ("/" <> suffix))))

-- What the loop over the measurements collects, in order.
pub record Refined (V : Type 0) : Type 0 where
  pub measurements : List (Measurement V)
  pub conversions : List (ConversionRecord V)
  pub transitions : List QualityTransition

abbrev pub cons_option {ℓ} : {A : Type ℓ} → Option A → List A → List A
cons_option none xs = xs
cons_option (some x) xs = x ∷ xs

-- `sum(1 for m in ms if m.estimated)`, as the loop counts it.
unfoldable pub count_estimated : {V : Type 0} → List (Measurement V) → ℕ
count_estimated [] = 0
count_estimated (m ∷ ms) = (if m.estimated then 1 else 0) + count_estimated ms

module _ {V : Type 0} ⦃F : FloatOps V⦄ where
  -- The loop of `process`: units first, then quality.
  unfoldable pub refine : Limits V → List (Measurement V) → Refined V
  refine limits [] = record { measurements = []; conversions = []; transitions = [] }
  refine limits (m ∷ ms) =
      let (converted, conversion) = normalize m in
      let (assessed, transition) = Quality.assess limits converted in
      let rest = refine limits ms in
      record {
        measurements = assessed ∷ rest.measurements;
        conversions = cons_option conversion rest.conversions;
        transitions = cons_option transition rest.transitions;
      }

  -- The part of `process` after the engines that may raise.
  unfoldable pub publish :
      Config V
      → Clocks V
      → String
      → Envelope V
      → TimestampAssessment V
      → List (GapEvent V)
      → State V
      → PipelineResult V × List Metric × State V
  publish c t domain e assessment gaps s =
      let refined = refine c.range_limits e.measurements in
      let e' : Envelope V = record e { measurements = refined.measurements } in
      let (meta, cache) =
        enrich c.fetch_device_row c.fetch_grid_node c.max_hops c.ttl_s t.enrich_now t.enrich_stored
          e.device_id s.cache in
      let estimated = count_estimated refined.measurements in
      (
        published (build_trusted_topic domain e.device_id c.trusted_topic_suffix) (record {
          envelope = to_dict e';
          processed_at = t.processed_at;
          device_metadata = meta;
          quality_transitions = refined.transitions;
          unit_conversions = refined.conversions;
          gap_events = gaps;
          timestamp_assessment = assessment;
        }),
        map (λ g. Metric.gap_events g.measurement_type) gaps
            ++ (map (λ q. Metric.quality_transitions q.reason) refined.transitions
                ++ (measurements_processed (length refined.measurements)
                    ∷ (if ltb 0 estimated then measurements_estimated estimated ∷ [] else []))),
        record s { cache = cache },
      )

  -- `process` after the gap detector, and after the timestamp normalizer. `none` is an exception of
  -- an engine, which leaves `process`.
  unfoldable pub after_gaps :
      Config V
      → Clocks V
      → String
      → State V
      → TimestampAssessment V × Envelope V × Sequences
      → Option (List (GapEvent V) × LastSeen)
      → Option (PipelineResult V × List Metric × State V)
  after_gaps c t domain s stamped none = none
  after_gaps c t domain s (assessment, e, sequences) (some (gaps, seen)) =
      some (
        publish c t domain e assessment gaps (record s { sequences = sequences; last_seen = seen }))

  unfoldable pub after_assessment :
      Config V
      → Clocks V
      → String
      → State V
      → Option (TimestampAssessment V × Envelope V × Sequences)
      → Option (PipelineResult V × List Metric × State V)
  after_assessment c t domain s none = none
  after_assessment c t domain s (some (assessment, e, sequences)) =
      after_gaps c t domain s (assessment, e, sequences)
        (Gaps.check c.fromisoformat c.gaps e s.last_seen)

  -- `process` on a valid envelope that is no duplicate.
  unfoldable pub process_fresh :
      Config V
      → Clocks V
      → String
      → Envelope V
      → State V
      → Option (PipelineResult V × List Metric × State V)
  process_fresh c t domain e s = after_assessment c t domain s (
      Timestamps.assess c.isoformat c.drift_threshold_s c.fromisoformat t.received_at e s.sequences)

  -- `process` on a valid envelope.
  unfoldable pub process_valid :
      Config V
      → Clocks V
      → String
      → Envelope V
      → State V
      → Option (PipelineResult V × List Metric × State V)
  process_valid c t domain e s =
      let (dup, detector) = check_and_record e s.detector in
      let s' = record s { detector = detector } in
      if dup.is_duplicate
      then some (refused duplicate, duplicates dup.matched_on ∷ [], s')
      else process_fresh c t domain e s'

  unfoldable pub process_validated :
      Config V
      → Clocks V
      → String
      → ValidationResult V
      → State V
      → Option (PipelineResult V × List Metric × State V)
  process_validated c t domain (rejected reason types) s =
      some (refused (invalid reason), envelopes_rejected reason ∷ [], s)
  process_validated c t domain (accepted e) s = process_valid c t domain e s

  -- `MdmPipeline.process`
  unfoldable pub process :
      Config V
      → Clocks V
      → String
      → RawEnvelope V
      → State V
      → Option (PipelineResult V × List Metric × State V)
  process c t domain raw s =
      process_validated c t domain
        (validate c.fromisoformat c.fresh_uuid c.is_uuid c.known_units raw) s
