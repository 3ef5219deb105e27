-- ===== src/Mdm/Quality/Escalation.antt =====
-- `QualityAssessor`: the escalations and what is left of GOOD.
use diep_lab.Base.{
  ◌≡◌, ◌≢◌, refl, sym, true, false, Option, none, some, string_eq, arith, ◌⊎◌, inl, inr, Bool-cases,
}
use diep_lab.Base.Dict.{lookup}
use diep_lab.Base.Float.{FloatOps}
use diep_lab.Contracts.Quality.{Quality, good, invalid, out_of_range, is_measured}
use diep_lab.Contracts.Measurement.{Measurement}
use diep_lab.Mdm.Quality.{QualityTransition, Limits, escalate, check_range, assess}

-- With no record the measurement is the given one. A record tells that the given quality was GOOD
-- and names the new one, INVALID or OUT_OF_RANGE; nothing but the quality differs.
abbrev pub IsEscalation :
    {V : Type 0} → Measurement V → Measurement V × Option QualityTransition → Type 0
IsEscalation m (m', none) = m' ≡ m
IsEscalation m (m', some t) =
    (m.quality ≡ good)
    × (m' ≡ record m { quality = t.new_quality })
    × ((t.new_quality ≡ invalid) ⊎ (t.new_quality ≡ out_of_range))
    × (t.original_quality ≡ m.quality)
    × (t.measurement_type ≡ m.measurement_type)

pub IsEscalation-keeps :
    {V : Type 0} (m : Measurement V) (r : Measurement V × Option QualityTransition)
    → IsEscalation m r
    → (r.0.measurement_type ≡ m.measurement_type) × (r.0.unit ≡ m.unit)
IsEscalation-keeps m (m', none) h = ground arith
IsEscalation-keeps m (m', some t) h = ground arith

-- The value is finite, and within the limits of the type where it has some.
abbrev pub IsWithin : {V : Type 0} ⦃F : FloatOps V⦄ → V → Option (V × V) → Type 0
IsWithin v none = Unit
IsWithin ⦃F⦄ v (some (lo, hi)) = (F.le lo v ≡ true) × (F.le v hi ≡ true)

pub record IsPlausible {V : Type 0} ⦃F : FloatOps V⦄ (limits : Limits V) (m : Measurement V)
    : Type 0 where
  pub finite : F.is_finite m.value ≡ true
  pub within : IsWithin m.value (lookup m.measurement_type limits)

is_measured→good : (q : Quality) → is_measured q ≡ true → q ≡ good
unfolding is_measured
is_measured→good q h = ground arith

not_measured : (q : Quality) → is_measured q ≡ false → q ≢ good
unfolding is_measured
not_measured q h = ground arith

invalid-ne-good : invalid ≢ good
invalid-ne-good e = cc

module _ {V : Type 0} ⦃F : FloatOps V⦄ where
  check_range-IsEscalation :
      (o : Option (V × V)) (m : Measurement V) → m.quality ≡ good → IsEscalation m (check_range o m)
  unfolding check_range escalate
  check_range-IsEscalation none m h = refl
  check_range-IsEscalation (some (lo, hi)) m h = ground arith

  -- A flag that the driver has set is left alone, and every change comes with its record.
  pub assess-IsEscalation :
      (limits : Limits V) (m : Measurement V) → IsEscalation m (assess limits m)
  unfolding assess escalate
  assess-IsEscalation limits m = elim (Bool-cases (is_measured m.quality)) [
    | inr flagged ↦ rw flagged refl
    | inl measured ↦ elim (Bool-cases (F.is_finite m.value)) [
      | inr wild ↦
          rw (measured, wild)
            (is_measured→good _ measured, refl, inl refl, sym (is_measured→good _ measured), refl)
      | inl finite ↦
          rw (measured, finite) (check_range-IsEscalation _ m (is_measured→good _ measured))
    ]
  ]

  check_range_good :
      (o : Option (V × V)) (m : Measurement V)
      → (check_range o m).0.quality ≡ good
      → IsWithin m.value o × ((check_range o m).0 ≡ m)
  unfolding check_range escalate
  check_range_good none m h = (tt, refl)
  check_range_good (some (lo, hi)) m h = ground arith

  -- What leaves the assessor as GOOD came as GOOD, and is finite and within its limits.
  pub assess-IsPlausible :
      (limits : Limits V) (m : Measurement V)
      → (assess limits m).0.quality ≡ good
      → (m.quality ≡ good) × IsPlausible limits (assess limits m).0
  unfolding assess escalate
  assess-IsPlausible limits m h = elim (Bool-cases (is_measured m.quality)) [
    | inr flagged ↦ absurd (not_measured _ flagged (rw flagged at h))
    | inl measured ↦ elim (Bool-cases (F.is_finite m.value)) [
      | inr wild ↦ absurd (invalid-ne-good (rw (measured, wild) at h))
      | inl finite ↦
          let (within, same) =
            check_range_good (lookup m.measurement_type limits) m (rw (measured, finite) at h) in
          rw (measured, finite)
            (is_measured→good _ measured, rw same (record { finite = finite; within = within }))
    ]
  ]
