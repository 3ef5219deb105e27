-- ===== src/Mdm/Pipeline/Redelivery.antt =====
-- `MdmPipeline.process` on a payload that comes again.
use diep_lab.Base.{◌<◌, String, ◌≡◌, ◌≢◌, refl, sym, ap, true, some, List, [], ◌∷◌}
use diep_lab.Base.Float.{FloatOps}
use diep_lab.Contracts.Envelope.{Envelope, RawEnvelope}
use diep_lab.Mdm.Duplicates.{Detector, policy_correlation_only, check_and_record}
use diep_lab.Mdm.Duplicates.Detection.{
  IsBounded, check_all, check_and_record-redelivery, is_new→key_new,
}
use diep_lab.Mdm.Timestamps.{TimestampAssessment}
use diep_lab.Mdm.Gaps.{GapEvent}
use diep_lab.Mdm.Pipeline.{
  Config, State, Clocks, Metric, PipelineResult, Trusted, refused, published, duplicate, duplicates,
  publish, process_valid, process_validated, process,
}
use diep_lab.Mdm.Pipeline.Inversion.{process-IsPublished}

module _ {V : Type 0} ⦃F : FloatOps V⦄ (c : Config V) where
  -- Publishing leaves the detector alone.
  detector-publish :
      (t : Clocks V) (domain : String) (e : Envelope V) (a : TimestampAssessment V)
      (gaps : List (GapEvent V)) (s s' : State V) {r : PipelineResult V} {log : List Metric}
      → publish c t domain e a gaps s ≡ (r, log, s')
      → s'.detector ≡ s.detector
  unfolding publish
  detector-publish t domain e a gaps s s' h = ap (λ x. x.2.detector) (sym h)

  refuses_duplicate :
      (t : Clocks V) (domain : String) (e : Envelope V) (s : State V)
      → (check_and_record e s.detector).0.is_duplicate ≡ true
      → process_valid c t domain e s
        ≡ some (
          refused duplicate,
          duplicates (check_and_record e s.detector).0.matched_on ∷ [],
          record s { detector = (check_and_record e s.detector).1 },
        )
  unfolding process_valid
  refuses_duplicate t domain e s dup = rw dup refl

  -- A payload that has been published is refused as a duplicate when it comes again, on whatever
  -- domain and at whatever time, with any policy but correlation_only and caches that hold at least
  -- one key. Only the detector changes then, and the duplicate counter is the only one to move.
  pub process-redelivery :
      (t again : Clocks V) (domain other : String) (raw : RawEnvelope V) (s : State V)
      (topic : String) (p : Trusted V) (log : List Metric) (s' : State V)
      → IsBounded s.detector
      → 0 < s.detector.cache_size
      → s.detector.policy ≢ policy_correlation_only
      → process c t domain raw s ≡ some (published topic p, log, s')
      → (matched : List String) × (d : Detector) × (process c again other raw s'
          ≡ some (refused duplicate, duplicates matched ∷ [], record s' { detector = d }))
  unfolding process process_validated check_all
  process-redelivery t again domain other raw s topic p log s' bounded room policy h =
      let i = process-IsPublished c t domain raw s topic p log s' h in
      let e = i.envelope in
      let kept = detector-publish t domain i.stamped.1 i.stamped.0 i.gaps _ s' i.result in
      let seen =
        check_and_record-redelivery e e [] s.detector bounded policy
          (is_new→key_new e s.detector policy i.new) refl room in
      (
        (check_and_record e s'.detector).0.matched_on,
        (check_and_record e s'.detector).1,
        rw (i.admitted, process_validated) (refuses_duplicate again other e s' (rw kept seen)),
      )
