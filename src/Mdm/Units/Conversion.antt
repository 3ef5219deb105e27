-- ===== src/Mdm/Units/Conversion.antt =====
-- `UnitNormalizer`: what a conversion changes and records, and which units it reaches.
use diep_lab.Base.{String, ◌≡◌, ◌≢◌, refl, ap, Option, none, some, string_eq, arith, if_pos, if_neg}
use diep_lab.Base.Dict.{lookup}
use diep_lab.Base.Float.{FloatOps}
use diep_lab.Contracts.Measurement.{Measurement}
use diep_lab.Mdm.Units.{
  canonical_units, ConversionRecord, converted_value, convert, normalize_to, normalize,
}

-- With no record the measurement is the given one. A record holds the given unit and value, and the
-- unit and value of the new measurement, which differs from the given one in nothing else.
abbrev pub IsConversion :
    {V : Type 0} → Measurement V → Measurement V × Option (ConversionRecord V) → Type 0
IsConversion m (m', none) = m' ≡ m
IsConversion m (m', some r) =
    (m' ≡ record m { unit = r.canonical_unit; value = r.canonical_value })
    × (r.measurement_type ≡ m.measurement_type)
    × (r.original_unit ≡ m.unit)
    × (r.original_value ≡ m.value)
    × (m.unit ≢ r.canonical_unit)

pub IsConversion-type :
    {V : Type 0} (m : Measurement V) (r : Measurement V × Option (ConversionRecord V))
    → IsConversion m r
    → r.0.measurement_type ≡ m.measurement_type
IsConversion-type m (m', none) h = ap (λ (x : Measurement _). x.measurement_type) h
IsConversion-type m (m', some r) h = ap (λ (x : Measurement _). x.measurement_type) h.0

module _ {V : Type 0} ⦃F : FloatOps V⦄ where
  convert-IsConversion :
      (c : String) (v : Option V) (m : Measurement V) → m.unit ≢ c → IsConversion m (convert c v m)
  unfolding convert
  convert-IsConversion c none m other = refl
  convert-IsConversion c (some v) m other = (refl, refl, refl, refl, other)

  normalize_to-IsConversion :
      (c : Option String) (m : Measurement V) → IsConversion m (normalize_to c m)
  unfolding normalize_to
  normalize_to-IsConversion none m = refl
  normalize_to-IsConversion (some c) m = elim (string_eq.dec m.unit c) [
    | yes same ↦ rw (if_pos _ same) refl
    | no other ↦
        rw (if_neg _ other)
          (convert-IsConversion c (converted_value m.measurement_type m.unit m.value) m other)
  ]

  -- A conversion is never silent: the unit and the value change only with a record that holds the
  -- original ones, and type, quality and the estimated flag never change.
  pub normalize-IsConversion : (m : Measurement V) → IsConversion m (normalize m)
  unfolding normalize
  normalize-IsConversion m = normalize_to-IsConversion (lookup m.measurement_type canonical_units) m

  -- A second pass of the unit stage over its own result changes nothing and records nothing.
  pub normalize_idem : (m : Measurement V) → normalize (normalize m).0 ≡ ((normalize m).0, none)
  unfolding normalize normalize_to convert
  normalize_idem m = ground arith
