-- ===== src/Tests/Mdm.antt =====
-- Runs of the pipeline and of its engines.
use diep_lab.Base.{String, ◌≡◌, refl, some, List, [], ◌∷◌, arith, string_eq, nat_eq, pair_eq}
use diep_lab.Mdm.Duplicates.{Detector}
use diep_lab.Mdm.Pipeline.Process.{IsReturn, process-IsReturn}
use diep_lab.Mdm.Pipeline.Trust.{IsTrustedPayload, process-IsTrustedPayload}
use diep_lab.Mdm.Pipeline.Redelivery.{process-redelivery}
use diep_lab.Mdm.Pipeline.{refused, duplicate, duplicates, process}
use diep_lab.Tests.Samples.{fixed_point, config, clocks, payload, start}
use diep_lab.Tests.Runs.{topic, trusted, log, after}
use diep_lab.Tests.Inputs.{
  process-payload, start-IsBounded, any-ne-correlation_only, config-IsSampling, start-AreInstants,
}

process-IsTrustedPayload_example : IsTrustedPayload config clocks "amr" payload topic trusted
process-IsTrustedPayload_example =
    process-IsTrustedPayload config clocks "amr" payload start topic trusted log after refl
      process-payload

process-redelivery_example :
    (matched : List String) × (d : Detector) × (process config clocks "other" payload after
      ≡ some (refused duplicate, duplicates matched ∷ [], record after { detector = d }))
process-redelivery_example =
    process-redelivery config clocks clocks "amr" "other" payload start topic trusted log after
      start-IsBounded (omega arith) any-ne-correlation_only process-payload

process-IsReturn_example : IsReturn config (process config clocks "amr" payload start)
process-IsReturn_example =
    process-IsReturn config clocks "amr" payload start config-IsSampling start-AreInstants
