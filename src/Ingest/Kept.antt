-- ===== src/Ingest/Kept.antt =====
-- No measurement of an envelope gets lost on its way into the body.
use diep_lab.Base.{
  String, Bool, true, not, some, List, [], ◌∷◌, ◌&&◌, ◌≡◌, ◌≢◌, inl, inr, refl, ◌∙◌, ap, contains,
  string_eq, if◌then◌else◌, Bool-cases, All, arith,
}
use diep_lab.Base.Dict.{Dict, lookup, lookup-insert_self, lookup-insert_ne}
use diep_lab.Base.Float.{FloatOps, Parser}
use diep_lab.Contracts.Measurement.{Measurement}
use diep_lab.Contracts.Envelope.{Envelope}
use diep_lab.Contracts.Validity.{IsFresh, IsValid}
use diep_lab.Ingest.Native.{FieldQuality, withheld_measurement, flags, Out}
use diep_lab.Ingest.{is_flattened, flatten, flatten_all, envelope_to_legacy_body}

module _ {V : Type 0} ⦃F : FloatOps V⦄ where
  -- Whether the value is kept back: a field of the API that is not finite.
  abbrev pub is_withheld : Measurement V → Bool
  is_withheld m = is_flattened m.measurement_type && not (F.is_finite m.value)

  abbrev pub quality_entry : Measurement V → FieldQuality
  quality_entry m =
      if is_withheld m
      then withheld_measurement m.estimated m.quality
      else flags m.quality m.estimated

  -- Where the measurement went: its flags into `quality`, and its value, if it is a field of the API
  -- and finite, into the fields.
  abbrev pub IsKept : Dict String V → Dict String FieldQuality → Measurement V → Type 0
  IsKept fields quality m =
      (lookup m.measurement_type quality ≡ some (quality_entry m))
      × (is_flattened m.measurement_type ≡ true
          → F.is_finite m.value ≡ true
          → lookup m.measurement_type fields ≡ some m.value)

  IsKept-flatten :
      (m : Measurement V) (o : Out V) → IsKept (flatten m o).fields (flatten m o).rejections m
  unfolding flatten
  IsKept-flatten m o = elim (Bool-cases (is_flattened m.measurement_type)) [
    | inr other ↦ rw (other, flatten) (lookup-insert_self _ _ _, λ field finite. cc)
    | inl field ↦ elim (Bool-cases (F.is_finite m.value)) [
      | inl finite ↦
          rw (field, finite, flatten) (lookup-insert_self _ _ _, λ f g. lookup-insert_self _ _ _)
      | inr infinite ↦ rw (field, infinite, flatten) (lookup-insert_self _ _ _, λ f g. cc)
    ]
  ]

  -- A measurement of another type leaves both entries.
  flatten_other :
      (m : Measurement V) (o : Out V) (k : String)
      → k ≢ m.measurement_type
      → (lookup k (flatten m o).fields ≡ lookup k o.fields)
        × (lookup k (flatten m o).rejections ≡ lookup k o.rejections)
  unfolding flatten
  flatten_other m o k differ = elim (Bool-cases (is_flattened m.measurement_type)) [
    | inr other ↦ rw (other, flatten) (refl, lookup-insert_ne k _ _ _ differ)
    | inl field ↦ elim (Bool-cases (F.is_finite m.value)) [
      | inl finite ↦
          rw (field, finite, flatten)
            (lookup-insert_ne k _ _ _ differ, lookup-insert_ne k _ _ _ differ)
      | inr infinite ↦ rw (field, infinite, flatten) (refl, lookup-insert_ne k _ _ _ differ)
    ]
  ]

  -- A type that is in `seen` is not among fresh ones.
  flatten_all_other :
      (seen : List String) (ms : List (Measurement V)) (o : Out V) (k : String)
      → contains seen k ≡ true
      → IsFresh seen ms
      → (lookup k (flatten_all ms o).fields ≡ lookup k o.fields)
        × (lookup k (flatten_all ms o).rejections ≡ lookup k o.rejections)
  unfolding flatten_all
  flatten_all_other seen [] o k m fresh = (refl, refl)
  flatten_all_other seen (x ∷ ms) o k m fresh =
      let rest =
        flatten_all_other (x.measurement_type ∷ seen) ms (flatten x o) k (ground arith) fresh.1 in
      let one = flatten_other x o k (λ same. cc (ap (contains seen) same)) in
      (rest.0 ∙ one.0, rest.1 ∙ one.1)

  IsKept-flatten_all :
      (seen : List String) (ms : List (Measurement V)) (o : Out V)
      → IsFresh seen ms
      → All (IsKept (flatten_all ms o).fields (flatten_all ms o).rejections) ms
  unfolding flatten_all
  IsKept-flatten_all seen [] o fresh = tt
  IsKept-flatten_all seen (m ∷ ms) o fresh =
      let rest =
        flatten_all_other (m.measurement_type ∷ seen) ms (flatten m o) m.measurement_type
          (ground arith) fresh.1 in
      let kept = IsKept-flatten m o in
      (
        (rest.1 ∙ kept.0, λ field finite. rest.0 ∙ kept.1 field finite),
        IsKept-flatten_all (m.measurement_type ∷ seen) ms (flatten m o) fresh.1,
      )

  -- A valid envelope is flattened without loss: each measurement leaves its quality flags in the body,
  -- or the note that its value is withheld if it is not finite, and each finite value that is a field
  -- of the API is in that field.
  pub envelope_to_legacy_body-IsKept :
      (p : Parser) (e : Envelope V)
      → IsValid p e
      → All
          (IsKept (envelope_to_legacy_body e).fields (envelope_to_legacy_body e).quality)
          e.measurements
  unfolding envelope_to_legacy_body
  envelope_to_legacy_body-IsKept p e valid = IsKept-flatten_all [] e.measurements _ valid.unique
