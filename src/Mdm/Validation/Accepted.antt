-- ===== src/Mdm/Validation/Accepted.antt =====
-- `ValidationEngine`: what an accepted envelope satisfies.
use mathlib.Core.Option.{some-injective}
use diep_lab.Base.{
  String, ◌≡◌, ◌↔◌, refl, sym, ap, Bool, true, false, Option, none, some, List, [], ◌∷◌, All,
  contains, string_eq, arith,
}
use diep_lab.Base.Result.{ok, err}
use diep_lab.Base.Dict.{Dict, lookup}
use diep_lab.Base.Float.{FloatOps, Parser}
use diep_lab.Contracts.Error.{Outcome}
use diep_lab.Contracts.Measurement.{Measurement, is_nil}
use diep_lab.Contracts.Envelope.{Envelope, RawEnvelope}
use diep_lab.Contracts.Decode.{from_dict}
use diep_lab.Contracts.Validity.{IsValid}
use diep_lab.Contracts.Accepted.{from_dict-IsValid}
use diep_lab.Mdm.Validation.{
  accepted, is_bad_unit, bad_units, validate_envelope, validate_outcome, validate,
}

-- The unit of the measurement is in the registry, or the registry has no entry for its type.
abbrev pub HasKnownUnit : {V : Type 0} → Dict String (List String) → Measurement V → Type 0
HasKnownUnit known m = is_bad_unit (lookup m.measurement_type known) m.unit ≡ false

-- The same, in the words of the registry: where it lists units for the type, the unit is among them.
abbrev pub HasListedUnit : {V : Type 0} → Dict String (List String) → Measurement V → Type 0
HasListedUnit known m =
    (units : List String)
    → lookup m.measurement_type known ≡ some units
    → contains units m.unit ≡ true

is_bad_unit-listed :
    (o : Option (List String)) (unit : String)
    → (is_bad_unit o unit ≡ false)
      ↔ ((units : List String) → o ≡ some units → contains units unit ≡ true)
unfolding is_bad_unit
is_bad_unit-listed none unit = (λ h units e. cc, λ h. refl)
is_bad_unit-listed (some listed) unit =
    (λ h units e. rw (sym (some-injective _ _ e)) (ground arith), λ h. rw (h listed refl) refl)

is_nil→nil : (xs : List String) → is_nil xs ≡ true → xs ≡ []
is_nil→nil [] h = refl
is_nil→nil (x ∷ xs) h = cc

module _ {V : Type 0} where
  bad_units-nil :
      (known : Dict String (List String)) (ms : List (Measurement V))
      → bad_units known ms ≡ []
      → All (HasKnownUnit known) ms
  unfolding bad_units
  bad_units-nil known [] h = tt
  bad_units-nil known (m ∷ ms) h = ground (arith, bad_units-nil known ms)

  -- What `validate` has checked of an accepted envelope.
  pub record IsAdmitted (p : Parser) (is_uuid : String → Bool) (known : Dict String (List String))
      (e : Envelope V) : Type 0 where
    pub valid : IsValid p e
    pub correlated : is_uuid e.correlation_id ≡ true
    pub units : All (HasKnownUnit known) e.measurements

  validate_envelope-units :
      (is_uuid : String → Bool) (known : Dict String (List String)) (e e' : Envelope V)
      → validate_envelope is_uuid known e ≡ accepted e'
      → (e' ≡ e) × (is_uuid e.correlation_id ≡ true) × (bad_units known e.measurements ≡ [])
  unfolding validate_envelope
  validate_envelope-units is_uuid known e e' h =
      ground (arith, is_nil→nil (bad_units known e.measurements))

module _ {V : Type 0} (known : Dict String (List String)) where
  bad_units-listed :
      (ms : List (Measurement V)) → (bad_units known ms ≡ []) ↔ All (HasListedUnit known) ms
  unfolding bad_units
  bad_units-listed [] = (λ h. tt, λ h. refl)
  bad_units-listed (m ∷ ms) =
      let unit = is_bad_unit-listed (lookup m.measurement_type known) m.unit in
      let rest = bad_units-listed ms in
      (
        λ h. (unit.0 (ground arith), rest.0 (ground arith)),
        λ (listed, others). rw (unit.1 listed) (rest.1 others),
      )

  validate_envelope-accepted :
      (is_uuid : String → Bool) (made e : Envelope V)
      → (validate_envelope is_uuid known made ≡ accepted e) ↔ (
          (made ≡ e) × (is_uuid e.correlation_id ≡ true) × All (HasListedUnit known) e.measurements)
  unfolding validate_envelope
  validate_envelope-accepted is_uuid made e = (
    λ h.
        let (same, correlated, units) = validate_envelope-units is_uuid known made e h in
        (sym same, rw same correlated, rw same ((bad_units-listed made.measurements).0 units)),
    λ (same, correlated, listed).
        rw same (rw (correlated, (bad_units-listed e.measurements).1 listed) refl),
  )

module _ {V : Type 0} ⦃F : FloatOps V⦄ (p : Parser) (fresh : String) (is_uuid : String → Bool)
    (known : Dict String (List String)) where
  of_outcome :
      (o : Outcome (Envelope V)) (e : Envelope V)
      → ((e' : Envelope V) → o ≡ ok e' → IsValid p e')
      → validate_outcome is_uuid known o ≡ accepted e
      → IsAdmitted p is_uuid known e
  unfolding validate_outcome
  of_outcome (ok made) e valid h =
      let (same, correlated, units) = validate_envelope-units is_uuid known made e h in
      rw same (record {
        valid = valid made refl;
        correlated = correlated;
        units = bad_units-nil known made.measurements units;
      })
  of_outcome (err reason) e valid h = cc

  -- So an accepted envelope satisfies the contract as well.
  pub validate-IsAdmitted :
      (raw : RawEnvelope V) (e : Envelope V)
      → validate p fresh is_uuid known raw ≡ accepted e
      → IsAdmitted p is_uuid known e
  unfolding validate
  validate-IsAdmitted raw e h =
      of_outcome (from_dict p fresh raw) e (from_dict-IsValid p fresh raw) h

  -- An envelope is accepted exactly if it is what the constructor makes of the payload, its
  -- correlation id is a UUID, and the unit of each measurement whose type is in the registry is one
  -- of those listed there.
  pub validate-accepted :
      (raw : RawEnvelope V) (e : Envelope V)
      → (validate p fresh is_uuid known raw ≡ accepted e) ↔ (
          (from_dict p fresh raw ≡ ok e)
          × (is_uuid e.correlation_id ≡ true)
          × All (HasListedUnit known) e.measurements)
  unfolding validate validate_outcome
  validate-accepted raw e = by_outcome (from_dict p fresh raw)
    where
      by_outcome :
          (o : Outcome (Envelope V))
          → (validate_outcome is_uuid known o ≡ accepted e) ↔ (
              (o ≡ ok e)
              × (is_uuid e.correlation_id ≡ true)
              × All (HasListedUnit known) e.measurements)
      by_outcome (ok made) =
          let made_accepted = validate_envelope-accepted known is_uuid made e in
          (
            λ h.
                let (same, correlated, listed) = made_accepted.0 h in
                (ap ok same, correlated, listed),
            λ (same, correlated, listed). made_accepted.1 (cc, correlated, listed),
          )
      by_outcome (err reason) = (λ h. cc, λ h. cc)
