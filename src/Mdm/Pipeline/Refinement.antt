-- ===== src/Mdm/Pipeline/Refinement.antt =====
-- The loop of `process` over the measurements: what becomes of each, and what is recorded.
use diep_lab.Base.{String, ◌≡◌, refl, ◌∙◌, Option, some, List, [], ◌∷◌, string_eq, All}
use diep_lab.Base.Dict.{lookup}
use diep_lab.Base.Float.{FloatOps}
use diep_lab.Contracts.Quality.{good}
use diep_lab.Contracts.Measurement.{Measurement}
use diep_lab.Mdm.Validation.{known_units}
use diep_lab.Mdm.Validation.Accepted.{HasKnownUnit}
use diep_lab.Mdm.Units.{canonical_units, ConversionRecord, normalize}
use diep_lab.Mdm.Units.Conversion.{IsConversion, IsConversion-type, normalize-IsConversion}
use diep_lab.Mdm.Units.Coverage.{normalize-canonical}
use diep_lab.Mdm.Quality.{QualityTransition, Limits, assess}
use diep_lab.Mdm.Quality.Escalation.{
  IsEscalation, IsEscalation-keeps, IsPlausible, assess-IsEscalation, assess-IsPlausible,
}
use diep_lab.Mdm.Pipeline.{cons_option, refine}

-- What the stages make of one measurement, with the records that they add to the lists.
pub record IsRefined {V : Type 0} (m m' : Measurement V) (cs : List (ConversionRecord V))
    (ts : List QualityTransition) (more_cs : List (ConversionRecord V))
    (more_ts : List QualityTransition) : Type 0 where
  pub converted : Measurement V
  pub conversion : Option (ConversionRecord V)
  pub transition : Option QualityTransition
  pub by_unit : IsConversion m (converted, conversion)
  pub by_quality : IsEscalation converted (m', transition)
  pub conversions : cs ≡ cons_option conversion more_cs
  pub transitions : ts ≡ cons_option transition more_ts

-- The lists pair off in order: every measurement has its successor, and the records are those of
-- the measurements, in their order, and no others.
pub data AreRefined {V : Type 0}
    : List (Measurement V)
      → List (Measurement V)
      → List (ConversionRecord V)
      → List QualityTransition
      → Type 0 where
  done : AreRefined [] [] [] []
  step :
      {m m' : Measurement V} {ms ms' : List (Measurement V)}
      {cs more_cs : List (ConversionRecord V)} {ts more_ts : List QualityTransition}
      → IsRefined m m' cs ts more_cs more_ts
      → AreRefined ms ms' more_cs more_ts
      → AreRefined (m ∷ ms) (m' ∷ ms') cs ts

-- What holds of a measurement on the trusted stream: its type's canonical unit, and plausibility of
-- a value that is GOOD.
pub record IsTrusted {V : Type 0} ⦃F : FloatOps V⦄ (limits : Limits V) (m : Measurement V)
    : Type 0 where
  pub canonical : (c : String) → lookup m.measurement_type canonical_units ≡ some c → m.unit ≡ c
  pub plausible : m.quality ≡ good → IsPlausible limits m

module _ {V : Type 0} ⦃F : FloatOps V⦄ (limits : Limits V) where
  pub refine-AreRefined :
      (ms : List (Measurement V))
      → let r = refine limits ms in AreRefined ms r.measurements r.conversions r.transitions
  unfolding refine
  refine-AreRefined [] = done
  refine-AreRefined (m ∷ ms) =
      step
        (record {
          converted = (normalize m).0;
          conversion = (normalize m).1;
          transition = (assess limits (normalize m).0).1;
          by_unit = normalize-IsConversion m;
          by_quality = assess-IsEscalation limits (normalize m).0;
          conversions = refl;
          transitions = refl;
        })
        (refine-AreRefined ms)

  refine_one-IsTrusted :
      (m : Measurement V)
      → HasKnownUnit known_units m
      → IsTrusted limits (assess limits (normalize m).0).0
  refine_one-IsTrusted m known =
      let typed = IsConversion-type m (normalize m) (normalize-IsConversion m) in
      let (same_type, same_unit) =
        IsEscalation-keeps (normalize m).0 (assess limits (normalize m).0)
          (assess-IsEscalation limits (normalize m).0) in
      record {
        canonical = λ c h. same_unit ∙ normalize-canonical m c (rw (same_type, typed) at h) known;
        plausible = λ h. (assess-IsPlausible limits (normalize m).0 h).1;
      }

  pub refine-IsTrusted :
      (ms : List (Measurement V))
      → All (HasKnownUnit known_units) ms
      → All (IsTrusted limits) (refine limits ms).measurements
  unfolding refine
  refine-IsTrusted [] known = tt
  refine-IsTrusted (m ∷ ms) (known, rest) = (refine_one-IsTrusted m known, refine-IsTrusted ms rest)
