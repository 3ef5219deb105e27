-- ===== src/Mdm/Units/Coverage.antt =====
-- The registry of the validation engine against the conversion table.
use diep_lab.Base.{
  String, ◌≡◌, ◌≢◌, refl, Bool, true, false, none, some, List, [], ◌∷◌, ◌==◌, ◌&&◌, contains,
  string_eq, pair_eq, arith, Option-cases, inl, inr,
}
use diep_lab.Base.Dict.{Dict, lookup}
use diep_lab.Base.Float.{FloatOps}
use diep_lab.Contracts.Measurement.{Measurement}
use diep_lab.Mdm.Validation.{known_units, is_bad_unit}
use diep_lab.Mdm.Units.{canonical_units, converted_value, convert, normalize_to, normalize}

module _ (V : Type 0) ⦃F : FloatOps V⦄ where
  -- The unit is the canonical one, or the table has a way to it.
  covered : String → String → Bool
  covered t u = elim (lookup t canonical_units) [
    | none ↦ true
    | some c ↦ elim (converted_value t u (F.decimal 0 0)) [ none ↦ u == c | some _ ↦ true ]
  ]

  all_covered : String → List String → Bool
  all_covered t [] = true
  all_covered t (u ∷ us) = covered t u && all_covered t us

  table_covered : Dict String (List String) → Bool
  table_covered [] = true
  table_covered ((t, us) ∷ d) = all_covered t us && table_covered d

  -- Every unit of the registry, by evaluation.
  known_units_covered : table_covered known_units ≡ true
  unfolding table_covered all_covered covered converted_value lookup string_eq pair_eq
  known_units_covered = refl

  all_covered_sound :
      (t u : String) (us : List String)
      → all_covered t us ≡ true
      → contains us u ≡ true
      → covered t u ≡ true
  unfolding all_covered
  all_covered_sound t u [] h m = cc
  all_covered_sound t u (w ∷ us) h m = ground (arith, all_covered_sound t u us)

  table_covered_sound :
      (d : Dict String (List String)) (t u : String) (us : List String)
      → table_covered d ≡ true
      → lookup t d ≡ some us
      → contains us u ≡ true
      → covered t u ≡ true
  unfolding table_covered lookup
  table_covered_sound [] t u us h l m = cc
  table_covered_sound ((w, ws) ∷ d) t u us h l m =
      ground (arith, all_covered_sound t u ws, table_covered_sound d t u us)

  -- Whether there is a way does not turn on the value.
  converted_value-none :
      (t u : String) (v w : V) → converted_value t u v ≡ none → converted_value t u w ≡ none
  unfolding converted_value
  converted_value-none t u v w h = ground arith

  covered→canonical :
      (m : Measurement V) (c : String)
      → lookup m.measurement_type canonical_units ≡ some c
      → covered m.measurement_type m.unit ≡ true
      → (normalize m).0.unit ≡ c
  unfolding covered normalize normalize_to convert
  covered→canonical m c known h = rw known (
      ground (arith, known, converted_value-none m.measurement_type m.unit m.value (F.decimal 0 0)))

-- Every type with a canonical unit is in the registry.
registered : (t c : String) → lookup t canonical_units ≡ some c → lookup t known_units ≢ none
unfolding lookup
registered t c h = ground arith

not_bad : (us : List String) (u : String) → is_bad_unit (some us) u ≡ false → contains us u ≡ true
unfolding is_bad_unit
not_bad us u h = ground arith

-- A measurement whose type has a canonical unit, and whose unit passes the validation engine, has
-- the canonical unit after the unit stage.
pub normalize-canonical :
    {V : Type 0} ⦃F : FloatOps V⦄ (m : Measurement V) (c : String)
    → lookup m.measurement_type canonical_units ≡ some c
    → is_bad_unit (lookup m.measurement_type known_units) m.unit ≡ false
    → (normalize m).0.unit ≡ c
normalize-canonical {V} m c known fine =
    elim (Option-cases (lookup m.measurement_type known_units)) [
      | inl absent ↦ absurd (registered m.measurement_type c known absent)
      | inr (us, present) ↦ covered→canonical V m c known (
          table_covered_sound V known_units m.measurement_type m.unit us (known_units_covered V)
            present (not_bad us m.unit (rw present at fine)))
    ]
