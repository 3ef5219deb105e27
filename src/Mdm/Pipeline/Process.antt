-- ===== src/Mdm/Pipeline/Process.antt =====
-- `MdmPipeline.process`: it returns.
use mathlib.Core.Option.{none-ne-some}
use diep_lab.Base.{String, ◌≡◌, ◌≢◌, refl, sym, ◌∙◌, Option, none, some, List, inl, inr, Bool-cases}
use diep_lab.Base.Float.{FloatOps, Parser}
use diep_lab.Contracts.Envelope.{Envelope, RawEnvelope}
use diep_lab.Contracts.Validity.{IsUtc}
use diep_lab.Mdm.Validation.{ValidationResult, accepted, rejected}
use diep_lab.Mdm.Validation.Accepted.{validate-IsAdmitted}
use diep_lab.Mdm.Duplicates.{check_and_record}
use diep_lab.Mdm.Timestamps
use diep_lab.Mdm.Timestamps.{TimestampAssessment, Sequences, captured_at}
use diep_lab.Mdm.Gaps.{GapEvent, LastSeen}
use diep_lab.Mdm.Gaps.Returns.{IsSampling, AreInstants, check-ne-none, check-AreInstants}
use diep_lab.Mdm.Pipeline.{
  Config, State, Clocks, PipelineResult, Metric, publish, after_gaps, after_assessment,
  process_fresh, process_valid, process_validated, process,
}

module _ {V : Type 0} ⦃F : FloatOps V⦄ where
  captured_IsUtc :
      (p : Parser) (e : Envelope V) (u : IsUtc p e.timestamp_utc)
      → captured_at p e ≡ some u.stamp.micros
  unfolding captured_at
  captured_IsUtc p e u = rw (captured_at, u.parsed) refl

  -- `process` returns, and the instants that it leaves in the state can be read again.
  abbrev pub IsReturn : Config V → Option (PipelineResult V × List Metric × State V) → Type 0
  IsReturn c none = ⊥
  IsReturn c (some (result, metrics, s)) = AreInstants c.fromisoformat s.last_seen

module _ {V : Type 0} ⦃F : FloatOps V⦄ (c : Config V) (t : Clocks V) (domain : String) where
  after_gaps-IsReturn :
      (s : State V) (a : TimestampAssessment V × Envelope V × Sequences)
      (g : Option (List (GapEvent V) × LastSeen))
      → g ≢ none
      → ((events : List (GapEvent V)) (seen : LastSeen)
          → g ≡ some (events, seen)
          → AreInstants c.fromisoformat seen)
      → IsReturn c (after_gaps c t domain s a g)
  unfolding after_gaps publish
  after_gaps-IsReturn s a none h read = absurd (h refl)
  after_gaps-IsReturn s (a, e, q) (some (events, seen)) h read = read events seen refl

  -- The stamped envelope has the timestamp of the given one, so the gap detector parses it too.
  process_fresh-IsReturn :
      (e : Envelope V) (s : State V)
      → IsSampling c.gaps c.fromisoformat
      → AreInstants c.fromisoformat s.last_seen
      → IsUtc c.fromisoformat e.timestamp_utc
      → IsReturn c (process_fresh c t domain e s)
  unfolding process_fresh Timestamps.assess Timestamps.assess_at after_assessment
  process_fresh-IsReturn e s sampling read utc =
      rw (after_assessment, captured_IsUtc c.fromisoformat e utc)
        (after_gaps-IsReturn s _ _
          (check-ne-none c.gaps c.fromisoformat _ s.last_seen sampling read
            (λ h. none-ne-some _ (sym h ∙ captured_IsUtc c.fromisoformat _ utc)))
          (λ events seen. check-AreInstants c.gaps c.fromisoformat _ s.last_seen read))

  process_valid-IsReturn :
      (e : Envelope V) (s : State V)
      → IsSampling c.gaps c.fromisoformat
      → AreInstants c.fromisoformat s.last_seen
      → IsUtc c.fromisoformat e.timestamp_utc
      → IsReturn c (process_valid c t domain e s)
  unfolding process_valid
  process_valid-IsReturn e s sampling read utc =
      elim (Bool-cases (check_and_record e s.detector).0.is_duplicate) [
        | inl dup ↦ rw dup read
        | inr new ↦ rw new (process_fresh-IsReturn e _ sampling read utc)
      ]

  process_validated-IsReturn :
      (v : ValidationResult V) (s : State V)
      → IsSampling c.gaps c.fromisoformat
      → AreInstants c.fromisoformat s.last_seen
      → ((e : Envelope V) → v ≡ accepted e → IsUtc c.fromisoformat e.timestamp_utc)
      → IsReturn c (process_validated c t domain v s)
  unfolding process_validated
  process_validated-IsReturn (rejected reason types) s sampling read utc = read
  process_validated-IsReturn (accepted e) s sampling read utc =
      process_valid-IsReturn e s sampling read (utc e refl)

  pub process-IsReturn :
      (raw : RawEnvelope V) (s : State V)
      → IsSampling c.gaps c.fromisoformat
      → AreInstants c.fromisoformat s.last_seen
      → IsReturn c (process c t domain raw s)
  unfolding process
  process-IsReturn raw s sampling read = process_validated-IsReturn _ s sampling read λ e admitted.
      let a =
        validate-IsAdmitted c.fromisoformat c.fresh_uuid c.is_uuid c.known_units raw e admitted in
      a.valid.captured
