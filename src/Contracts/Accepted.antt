-- ===== src/Contracts/Accepted.antt =====
-- contracts/telemetry.py: the decoder against the contract, and the round trip of `to_dict`.
use diep_lab.Base.{
  String, ◌≡◌, refl, Bool, true, not, List, [], ◌∷◌, map, string_eq, All, arith, ◌&&◌,
  if◌then◌else◌,
}
use diep_lab.Base.Result.{ok, ◌>>=◌, guard, or_raise, Yields, ok-Yields, >>=-Yields, guard-eq-ok}
use diep_lab.Base.Float.{FloatOps, Parser}
use diep_lab.Contracts.Quality.{Quality, estimated, is_estimated, quality_of-value}
use diep_lab.Contracts.Error.{Scalar}
use diep_lab.Contracts.Measurement.{
  Measurement, RawMeasurement, numeric, as_quality, post_init, make_measurement,
  measurement_to_dict,
}
use diep_lab.Contracts.Envelope.{Envelope, RawEnvelope, as_sequence_number, envelope_post_init}
use diep_lab.Contracts.Decode.{make_measurements, make_envelope, from_dict, to_dict}
use diep_lab.Contracts.Validity.{IsValidMeasurement, IsValid}
use diep_lab.Contracts.Checks.{
  is_nonempty→ne, ne→is_nonempty, parse_utc-Yields, IsUtc→parse_utc, check_optional_time-Yields,
  IsUtcOrNone→check_optional_time, check_unique-eq-ok, IsFresh→check_unique, not-is_nil→ne,
  ne→not-is_nil, is_version_compatible_iff,
}

module _ {V : Type 0} ⦃F : FloatOps V⦄ where
  post_init-Yields :
      (t u : String) (v q : Scalar V) (b : Bool) → Yields IsValidMeasurement (post_init t u v q b)
  unfolding post_init is_estimated
  post_init-Yields t u v q b = >>=-Yields _ _ λ _ named. >>=-Yields _ _ λ _ has_unit.
      >>=-Yields _ _ λ x _. >>=-Yields _ _ λ f _. ok-Yields _ (record {
        named = is_nonempty→ne t (guard-eq-ok _ _ _ named);
        has_unit = is_nonempty→ne u (guard-eq-ok _ _ _ has_unit);
        flagged = ground arith;
      })

  make_measurement-Yields : (m : RawMeasurement V) → Yields IsValidMeasurement (make_measurement m)
  unfolding make_measurement
  make_measurement-Yields m = >>=-Yields _ _ λ _ _.
      >>=-Yields _ _ λ t _. >>=-Yields _ _ λ u _. >>=-Yields _ _ λ v _. post_init-Yields t u v _ _

  make_measurements-Yields :
      (ms : List (RawMeasurement V)) → Yields (All IsValidMeasurement) (make_measurements ms)
  unfolding make_measurements
  make_measurements-Yields [] = ok-Yields [] tt
  make_measurements-Yields (m ∷ ms) = >>=-Yields _ _ λ x made. >>=-Yields _ _ λ xs rest.
      ok-Yields (x ∷ xs)
        ((make_measurement-Yields m).at x made, (make_measurements-Yields ms).at xs rest)

  module _ (p : Parser) where
    envelope_post_init-Yields :
        (n : Scalar V) (e : Envelope V)
        → All IsValidMeasurement e.measurements
        → Yields (IsValid p) (envelope_post_init p n e)
    unfolding envelope_post_init
    envelope_post_init-Yields n e each = >>=-Yields _ _ λ _ tenant. >>=-Yields _ _ λ _ site.
        >>=-Yields _ _ λ _ device. >>=-Yields _ _ λ _ meter. >>=-Yields _ _ λ s captured.
          >>=-Yields _ _ λ u ingested. >>=-Yields _ _ λ _ source. >>=-Yields _ _ λ k _.
            >>=-Yields _ _ λ _ version. >>=-Yields _ _ λ _ nonempty. >>=-Yields _ _ λ _ unique.
              ok-Yields _ (record {
                tenant = is_nonempty→ne _ (guard-eq-ok _ _ _ tenant);
                site = is_nonempty→ne _ (guard-eq-ok _ _ _ site);
                device = is_nonempty→ne _ (guard-eq-ok _ _ _ device);
                meter = is_nonempty→ne _ (guard-eq-ok _ _ _ meter);
                captured = (parse_utc-Yields p _ _).at s captured;
                ingested = (check_optional_time-Yields p _).at u ingested;
                source = guard-eq-ok _ _ _ source;
                version = (is_version_compatible_iff _).0 (guard-eq-ok _ _ _ version);
                nonempty = not-is_nil→ne _ (guard-eq-ok _ _ _ nonempty);
                unique = check_unique-eq-ok [] e.measurements unique;
                each = each;
              })

module _ {V : Type 0} ⦃F : FloatOps V⦄ (p : Parser) (fresh_uuid : String) where
  from_dict-Yields : (d : RawEnvelope V) → Yields (IsValid p) (from_dict p fresh_uuid d)
  unfolding from_dict make_envelope
  from_dict-Yields d = >>=-Yields _ _ λ ms made. >>=-Yields _ _ λ _ _. >>=-Yields _ _ λ _ _.
      >>=-Yields _ _ λ _ _. >>=-Yields _ _ λ _ _. >>=-Yields _ _ λ _ _. >>=-Yields _ _ λ _ _.
        envelope_post_init-Yields p _ _ ((make_measurements-Yields d.measurements).at ms made)

  -- Whatever payload `from_dict` accepts, the envelope satisfies the whole contract: the four
  -- identifiers are not empty, both timestamps are UTC, the source is known, the major version is 1,
  -- there is a measurement, no measurement type occurs twice, and each measurement is valid.
  pub from_dict-IsValid :
      (d : RawEnvelope V) (e : Envelope V) → from_dict p fresh_uuid d ≡ ok e → IsValid p e
  from_dict-IsValid d e h = (from_dict-Yields d).at e h

estimated_kept :
    (f : Quality) (b : Bool)
    → (f ≡ estimated → b ≡ true)
    → (if is_estimated f && not b then true else b) ≡ b
unfolding is_estimated
estimated_kept f b h = ground arith

module _ {V : Type 0} ⦃F : FloatOps V⦄ where
  make_measurement-to_dict :
      (m : Measurement V) → IsValidMeasurement m → make_measurement (measurement_to_dict m) ≡ ok m
  unfolding make_measurement measurement_to_dict post_init numeric as_quality ◌>>=◌ guard or_raise
  make_measurement-to_dict m v = rw (
    ne→is_nonempty _ v.named,
    ne→is_nonempty _ v.has_unit,
    quality_of-value,
    estimated_kept _ _ v.flagged,
  )

  make_measurements-to_dict :
      (ms : List (Measurement V))
      → All IsValidMeasurement ms
      → make_measurements (map measurement_to_dict ms) ≡ ok ms
  unfolding make_measurements ◌>>=◌
  make_measurements-to_dict [] v = refl
  make_measurements-to_dict (m ∷ ms) (v, vs) =
      rw (make_measurement-to_dict m v, make_measurements-to_dict ms vs)

  -- A valid envelope is decoded again from its own dict, field by field.
  pub from_dict-to_dict :
      (p : Parser) (fresh_uuid : String) (e : Envelope V)
      → IsValid p e
      → from_dict p fresh_uuid (to_dict e) ≡ ok e
  unfolding from_dict make_envelope envelope_post_init to_dict as_sequence_number ◌>>=◌ guard
      or_raise
  from_dict-to_dict p fresh_uuid e v = rw (
    make_measurements-to_dict e.measurements v.each,
    ne→is_nonempty _ v.tenant,
    ne→is_nonempty _ v.site,
    ne→is_nonempty _ v.device,
    ne→is_nonempty _ v.meter,
    IsUtc→parse_utc p _ "timestamp_utc" v.captured,
    IsUtcOrNone→check_optional_time p _ v.ingested,
    v.source,
    (is_version_compatible_iff _).1 v.version,
    ne→not-is_nil _ v.nonempty,
    IsFresh→check_unique [] _ v.unique,
  )
