-- ===== src/Mdm/Quality.antt =====
-- services/mdm/quality.py: `QualityAssessor`.
pub mod Escalation
use diep_lab.Base.{
  String, Bool, true, false, not, Option, none, some, ◌&&◌, string_eq, if◌then◌else◌,
}
use diep_lab.Base.Dict.{Dict, lookup}
use diep_lab.Base.Float.{FloatOps}
use diep_lab.Contracts.Quality.{Quality, good, invalid, out_of_range, is_measured}
use diep_lab.Contracts.Measurement.{Measurement}

abbrev pub reason_non_finite : String
reason_non_finite = "non_finite_value"

abbrev pub reason_out_of_range : String
reason_out_of_range = "out_of_range"

pub record QualityTransition : Type 0 where
  pub measurement_type : String
  pub original_quality : Quality
  pub new_quality : Quality
  pub reason : String

abbrev pub Limits : Type 0 → Type 0
Limits V = Dict String (V × V)

module _ {V : Type 0} where
  -- An escalation from GOOD, with its record.
  unfoldable pub escalate :
      Measurement V → Quality → String → Measurement V × Option QualityTransition
  escalate m q reason = (
    record m { quality = q },
    some (record {
      measurement_type = m.measurement_type;
      original_quality = good;
      new_quality = q;
      reason = reason;
    }),
  )

module _ {V : Type 0} ⦃F : FloatOps V⦄ where
  -- The range check, where the type has limits.
  unfoldable pub check_range :
      Option (V × V) → Measurement V → Measurement V × Option QualityTransition
  check_range none m = (m, none)
  check_range (some (lo, hi)) m =
      if F.le lo m.value && F.le m.value hi
      then (m, none)
      else escalate m out_of_range reason_out_of_range

  -- `QualityAssessor.assess`
  unfoldable pub assess : Limits V → Measurement V → Measurement V × Option QualityTransition
  assess limits m =
      if not (is_measured m.quality)
      then (m, none)
      else if not (F.is_finite m.value)
      then escalate m invalid reason_non_finite
      else check_range (lookup m.measurement_type limits) m
