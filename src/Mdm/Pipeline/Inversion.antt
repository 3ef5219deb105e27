-- ===== src/Mdm/Pipeline/Inversion.antt =====
-- `MdmPipeline.process`: how a call has gone that published.
use mathlib.Core.Option.{some-injective}
use diep_lab.Base.{
  String, ◌≡◌, ◌≢◌, refl, ap, false, Option, none, some, List, inl, inr, Bool-cases,
}
use diep_lab.Base.Float.{FloatOps}
use diep_lab.Contracts.Envelope.{Envelope, RawEnvelope}
use diep_lab.Mdm.Validation.{ValidationResult, accepted, rejected, validate}
use diep_lab.Mdm.Duplicates.{check_and_record}
use diep_lab.Mdm.Timestamps
use diep_lab.Mdm.Timestamps.{TimestampAssessment, Sequences}
use diep_lab.Mdm.Gaps
use diep_lab.Mdm.Gaps.{GapEvent, LastSeen}
use diep_lab.Mdm.Pipeline.{
  Config, State, Clocks, Metric, PipelineResult, Trusted, Refusal, refused, published, publish,
  after_gaps, after_assessment, process_fresh, process_valid, process_validated, process,
}

refused-ne-published :
    {V : Type 0} {r : Refusal} {topic : String} {p : Trusted V} → refused r ≢ published topic p
refused-ne-published h = cc

module _ {V : Type 0} ⦃F : FloatOps V⦄ (c : Config V) (t : Clocks V) (domain : String) where
  abbrev Outcome : Type 0
  Outcome = PipelineResult V × List Metric × State V

  record IsGapped (s : State V) (a : TimestampAssessment V × Envelope V × Sequences)
      (g : Option (List (GapEvent V) × LastSeen)) (r : Outcome) : Type 0 where
    gaps : List (GapEvent V)
    seen : LastSeen
    checked : g ≡ some (gaps, seen)
    result : publish c t domain a.1 a.0 gaps (record s { sequences = a.2; last_seen = seen }) ≡ r

  after_gaps-IsGapped :
      (s : State V) (a : TimestampAssessment V × Envelope V × Sequences)
      (g : Option (List (GapEvent V) × LastSeen)) (r : Outcome)
      → after_gaps c t domain s a g ≡ some r
      → IsGapped s a g r
  unfolding after_gaps
  after_gaps-IsGapped s a none r h = cc
  after_gaps-IsGapped s (a, e, q) (some (gaps, seen)) r h = record {
    gaps = gaps;
    seen = seen;
    checked = refl;
    result = some-injective _ _ h;
  }

  record IsStamped (s : State V) (o : Option (TimestampAssessment V × Envelope V × Sequences))
      (r : Outcome) : Type 0 where
    stamped : TimestampAssessment V × Envelope V × Sequences
    assessed : o ≡ some stamped
    gapped : IsGapped s stamped (Gaps.check c.fromisoformat c.gaps stamped.1 s.last_seen) r

  after_assessment-IsStamped :
      (s : State V) (o : Option (TimestampAssessment V × Envelope V × Sequences)) (r : Outcome)
      → after_assessment c t domain s o ≡ some r
      → IsStamped s o r
  unfolding after_assessment
  after_assessment-IsStamped s none r h = cc
  after_assessment-IsStamped s (some (a, e, q)) r h = record {
    stamped = (a, e, q);
    assessed = refl;
    gapped = after_gaps-IsGapped s _ _ r h;
  }

  -- How a call has gone that published: each stage, in the order of the code.
  pub record IsPublished (v : ValidationResult V) (s : State V) (topic : String) (p : Trusted V)
      (log : List Metric) (s' : State V) : Type 0 where
    pub envelope : Envelope V
    pub admitted : v ≡ accepted envelope
    pub new : (check_and_record envelope s.detector).0.is_duplicate ≡ false
    pub stamped : TimestampAssessment V × Envelope V × Sequences
    pub assessed :
        Timestamps.assess c.isoformat c.drift_threshold_s c.fromisoformat t.received_at envelope
          s.sequences
        ≡ some stamped
    pub gaps : List (GapEvent V)
    pub seen : LastSeen
    pub checked : Gaps.check c.fromisoformat c.gaps stamped.1 s.last_seen ≡ some (gaps, seen)
    pub result :
        publish c t domain stamped.1 stamped.0 gaps (record s {
          detector = (check_and_record envelope s.detector).1;
          sequences = stamped.2;
          last_seen = seen;
        })
        ≡ (published topic p, log, s')

  process_valid-IsPublished :
      (e : Envelope V) (s : State V) (topic : String) (p : Trusted V) (log : List Metric)
      (s' : State V)
      → process_valid c t domain e s ≡ some (published topic p, log, s')
      → IsPublished (accepted e) s topic p log s'
  unfolding process_valid process_fresh
  process_valid-IsPublished e s topic p log s' h =
      elim (Bool-cases (check_and_record e s.detector).0.is_duplicate) [
        | inl dup ↦ absurd (refused-ne-published (ap (λ x. x.0) (some-injective _ _ (rw dup at h))))
        | inr new ↦
            let a = after_assessment-IsStamped _ _ _ (rw new at h) in
            record {
              envelope = e;
              admitted = refl;
              new = new;
              stamped = a.stamped;
              assessed = a.assessed;
              gaps = a.gapped.gaps;
              seen = a.gapped.seen;
              checked = a.gapped.checked;
              result = a.gapped.result;
            }
      ]

  process_validated-IsPublished :
      (v : ValidationResult V) (s : State V) (topic : String) (p : Trusted V) (log : List Metric)
      (s' : State V)
      → process_validated c t domain v s ≡ some (published topic p, log, s')
      → IsPublished v s topic p log s'
  unfolding process_validated
  process_validated-IsPublished (rejected reason types) s topic p log s' h =
      absurd (refused-ne-published (ap (λ x. x.0) (some-injective _ _ h)))
  process_validated-IsPublished (accepted e) s topic p log s' h =
      process_valid-IsPublished e s topic p log s' h

  pub process-IsPublished :
      (raw : RawEnvelope V) (s : State V) (topic : String) (p : Trusted V) (log : List Metric)
      (s' : State V)
      → process c t domain raw s ≡ some (published topic p, log, s')
      → IsPublished
          (validate c.fromisoformat c.fresh_uuid c.is_uuid c.known_units raw)
          s
          topic
          p
          log
          s'
  unfolding process
  process-IsPublished raw s topic p log s' h = process_validated-IsPublished _ s topic p log s' h
