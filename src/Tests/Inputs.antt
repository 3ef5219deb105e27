-- ===== src/Tests/Inputs.antt =====
-- What holds of the samples.
use diep_lab.Base.{◌≡◌, ◌≢◌, refl, some, ◌==◌, arith, string_eq, nat_eq, pair_eq}
use diep_lab.Mdm.Validation.{validate}
use diep_lab.Mdm.Validation.{known_units, accepted}
use diep_lab.Mdm.Duplicates.{policy_correlation_only}
use diep_lab.Mdm.Duplicates.Detection.{IsBounded}
use diep_lab.Mdm.Gaps.Returns.{IsSampling, AreInstants}
use diep_lab.Mdm.Pipeline.{published, process}
use diep_lab.Tests.Samples.{fixed_point, parser, gap_config, config, clocks, payload, start}
use diep_lab.Tests.Runs.{decoded, topic, trusted, log, after}
use diep_lab.Tests.Program.{program}

pub process-payload :
    process config clocks "amr" payload start ≡ some (published topic trusted, log, after)
unfolding program
process-payload = refl

pub validate-payload : validate parser "c1" (λ s. s == "c1") known_units payload ≡ accepted decoded
unfolding program
validate-payload = refl

pub start-IsBounded : IsBounded start.detector
start-IsBounded = record { keys = omega arith; correlation_ids = omega arith }

pub any-ne-correlation_only : start.detector.policy ≢ policy_correlation_only
any-ne-correlation_only h = cc

pub config-IsSampling : IsSampling gap_config parser
unfolding program
config-IsSampling = record { nonzero = λ t. refl; rounds = λ last current t before now h. cc }

pub start-AreInstants : AreInstants parser start.last_seen
unfolding program
start-AreInstants k n h = cc
