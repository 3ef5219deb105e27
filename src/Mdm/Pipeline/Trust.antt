-- ===== src/Mdm/Pipeline/Trust.antt =====
-- What the trusted stream carries.
use mathlib.Core.Option.{some-injective, none-ne-some}
use diep_lab.Base.{String, ◌≡◌, refl, sym, ap, some, List, All, inl, inr, Option-cases}
use diep_lab.Base.Int.{ℤ}
use diep_lab.Base.Float.{FloatOps, Parser}
use diep_lab.Contracts.Measurement.{Measurement}
use diep_lab.Contracts.Envelope.{Envelope, RawEnvelope}
use diep_lab.Contracts.Decode.{to_dict}
use diep_lab.Mdm.Validation.{known_units, accepted, validate}
use diep_lab.Mdm.Validation.Accepted.{validate-IsAdmitted}
use diep_lab.Mdm.Timestamps
use diep_lab.Mdm.Timestamps.{TimestampAssessment, Sequences, captured_at, assess_at}
use diep_lab.Mdm.Gaps.{GapEvent}
use diep_lab.Mdm.Pipeline.{
  Config, State, Clocks, Metric, PipelineResult, Trusted, refused, published, build_trusted_topic,
  refine, publish, process,
}
use diep_lab.Mdm.Pipeline.Refinement.{AreRefined, IsTrusted, refine-AreRefined, refine-IsTrusted}
use diep_lab.Mdm.Pipeline.Inversion.{process-IsPublished}

module _ {V : Type 0} ⦃F : FloatOps V⦄ where
  -- The timestamp stage stamps the envelope and changes nothing else of it.
  assess-stamps :
      (iso : ℤ → String) (th : V) (p : Parser) (received : ℤ) (e : Envelope V) (s : Sequences)
      (a : TimestampAssessment V × Envelope V × Sequences)
      → Timestamps.assess iso th p received e s ≡ some a
      → a.1 ≡ record e { ingestion_timestamp = some (iso received) }
  unfolding Timestamps.assess assess_at
  assess-stamps iso th p received e s a h = elim (Option-cases (captured_at p e)) [
    | inl fails ↦ absurd (none-ne-some a (rw (fails, Timestamps.assess) at h))
    | inr (captured, parsed) ↦
        ap (λ x. x.1) (sym (some-injective _ _ (rw (parsed, Timestamps.assess) at h)))
  ]

  trusted_or : Trusted V → PipelineResult V → Trusted V
  trusted_or d (refused _) = d
  trusted_or d (published _ p) = p

  topic_or : String → PipelineResult V → String
  topic_or d (refused _) = d
  topic_or d (published topic _) = topic

-- What holds of a published payload: it comes from an envelope that the validation engine has
-- accepted; its dict is that envelope's but for the stamp and the measurements; these are the
-- envelope's in order, each traced by the records of the `mdm` block; and each is trustworthy.
pub record IsTrustedPayload {V : Type 0} ⦃F : FloatOps V⦄ (c : Config V) (t : Clocks V)
    (domain : String) (raw : RawEnvelope V) (topic : String) (p : Trusted V) : Type 0 where
  pub source : Envelope V
  pub validated :
      validate c.fromisoformat c.fresh_uuid c.is_uuid c.known_units raw ≡ accepted source
  pub measurements : List (Measurement V)
  pub kept :
      p.envelope
      ≡ to_dict (record source {
        measurements = measurements;
        ingestion_timestamp = some (c.isoformat t.received_at);
      })
  pub traced : AreRefined source.measurements measurements p.unit_conversions p.quality_transitions
  pub trusted : All (IsTrusted c.range_limits) measurements
  pub routed : topic ≡ build_trusted_topic domain source.device_id c.trusted_topic_suffix

module _ {V : Type 0} ⦃F : FloatOps V⦄ (c : Config V) (t : Clocks V) (domain : String) where
  publish-IsTrustedPayload :
      (raw : RawEnvelope V) (source : Envelope V) (a : TimestampAssessment V)
      (gaps : List (GapEvent V)) (s : State V) (topic : String) (p : Trusted V) (log : List Metric)
      (s' : State V)
      → validate c.fromisoformat c.fresh_uuid c.is_uuid c.known_units raw ≡ accepted source
      → All (IsTrusted c.range_limits) (refine c.range_limits source.measurements).measurements
      → publish c t domain
          (record source { ingestion_timestamp = some (c.isoformat t.received_at) })
          a
          gaps
          s
        ≡ (published topic p, log, s')
      → IsTrustedPayload c t domain raw topic p
  unfolding publish trusted_or topic_or
  publish-IsTrustedPayload raw source a gaps s topic p log s' validated trusted h =
      let same = ap (λ x. trusted_or p x.0) (sym h) in
      rw same (record {
        source = source;
        validated = validated;
        measurements = (refine c.range_limits source.measurements).measurements;
        kept = refl;
        traced = refine-AreRefined c.range_limits source.measurements;
        trusted = trusted;
        routed = ap (λ x. topic_or topic x.0) (sym h);
      })

  -- With the registry of known units that the engine has by default, every payload that is published
  -- comes from an envelope that the validation engine has accepted, on the topic of its device; its
  -- dict is that envelope's but for the ingestion stamp and the measurements; these are the envelope's
  -- in order, every change traced by a record; and each has its canonical unit, where its type has
  -- one, and a plausible value, where it is GOOD.
  pub process-IsTrustedPayload :
      (raw : RawEnvelope V) (s : State V) (topic : String) (p : Trusted V) (log : List Metric)
      (s' : State V)
      → c.known_units ≡ known_units
      → process c t domain raw s ≡ some (published topic p, log, s')
      → IsTrustedPayload c t domain raw topic p
  process-IsTrustedPayload raw s topic p log s' registry h =
      let i = process-IsPublished c t domain raw s topic p log s' h in
      let e = i.envelope in
      let admitted =
        validate-IsAdmitted c.fromisoformat c.fresh_uuid c.is_uuid c.known_units raw e i.admitted in
      publish-IsTrustedPayload raw e i.stamped.0 i.gaps _ topic p log s' i.admitted
        (refine-IsTrusted c.range_limits e.measurements (rw registry at admitted.units))
        (rw
          (assess-stamps c.isoformat c.drift_threshold_s c.fromisoformat t.received_at e _ _
            i.assessed)
          at i.result)
