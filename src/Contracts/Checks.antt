-- ===== src/Contracts/Checks.antt =====
-- contracts/telemetry.py: each check of the constructors beside its part of the contract.
use diep_lab.Base.{
  zero, suc, String, ◌≡◌, ◌≢◌, refl, ◌↔◌, true, not, Option, none, some, List, [], ◌∷◌, string_eq,
  nat_eq, arith,
}
use diep_lab.Base.Int.{ℤ, pos, negsuc}
use diep_lab.Base.Result.{
  ok, ◌>>=◌, guard, or_raise, Yields, ok-Yields, >>=-Yields, guard-eq-ok, or_raise-eq-ok,
}
use diep_lab.Base.Float.{Stamp, Parser}
use diep_lab.Contracts.Measurement.{Measurement, is_nonempty, is_nil}
use diep_lab.Contracts.Envelope.{
  parse_utc, require_utc, check_optional_time, check_unique, major, schema_version,
  is_version_compatible,
}
use diep_lab.Contracts.Validity.{IsUtc, IsUtcOrNone, IsFresh}

pub is_nonempty→ne : (s : String) → is_nonempty s ≡ true → s ≢ ""
is_nonempty→ne String.[] h = cc
is_nonempty→ne (String.◌∷◌ c s) h = λ p. cc

pub ne→is_nonempty : (s : String) → s ≢ "" → is_nonempty s ≡ true
ne→is_nonempty String.[] h = absurd (h refl)
ne→is_nonempty (String.◌∷◌ c s) h = refl

require_utc-eq-ok :
    (ts : String) (s : Stamp) (o : Option ℤ) {t : Stamp}
    → require_utc ts s o ≡ ok t
    → o ≡ some (pos 0)
unfolding require_utc ◌>>=◌ guard
require_utc-eq-ok ts s none h = cc
require_utc-eq-ok ts s (some (pos zero)) h = refl
require_utc-eq-ok ts s (some (pos (suc n))) h = ground arith
require_utc-eq-ok ts s (some (negsuc n)) h = cc

module _ (p : Parser) where
  pub parse_utc-Yields : (ts field : String) → Yields (λ _. IsUtc p ts) (parse_utc p ts field)
  unfolding parse_utc
  parse_utc-Yields ts field = >>=-Yields _ _ λ _ nonempty. >>=-Yields _ _ λ stamp parsed. record {
    at = λ _ e. record {
      nonempty = is_nonempty→ne ts (guard-eq-ok _ _ _ nonempty);
      stamp = stamp;
      parsed = or_raise-eq-ok _ _ _ parsed;
      utc = require_utc-eq-ok ts stamp stamp.offset e;
    };
  }

  pub IsUtc→parse_utc : (ts field : String) (u : IsUtc p ts) → parse_utc p ts field ≡ ok u.stamp
  unfolding parse_utc require_utc nat_eq ◌>>=◌ guard or_raise
  IsUtc→parse_utc ts field u = rw (ne→is_nonempty ts u.nonempty, u.parsed, u.utc)

  pub check_optional_time-Yields :
      (o : Option String) → Yields (λ _. IsUtcOrNone p o) (check_optional_time p o)
  unfolding check_optional_time
  check_optional_time-Yields none = ok-Yields tt tt
  check_optional_time-Yields (some ts) =
      >>=-Yields _ _ λ s parsed. ok-Yields tt ((parse_utc-Yields ts _).at s parsed)

  pub IsUtcOrNone→check_optional_time :
      (o : Option String) → IsUtcOrNone p o → check_optional_time p o ≡ ok tt
  unfolding check_optional_time ◌>>=◌
  IsUtcOrNone→check_optional_time none u = refl
  IsUtcOrNone→check_optional_time (some ts) u = rw (IsUtc→parse_utc ts _ u)

module _ {V : Type 0} where
  pub check_unique-eq-ok :
      (seen : List String) (ms : List (Measurement V))
      → check_unique seen ms ≡ ok tt
      → IsFresh seen ms
  unfolding check_unique
  check_unique-eq-ok seen [] h = tt
  check_unique-eq-ok seen (m ∷ ms) h =
      ground (arith, check_unique-eq-ok (m.measurement_type ∷ seen) ms)

  pub IsFresh→check_unique :
      (seen : List String) (ms : List (Measurement V))
      → IsFresh seen ms
      → check_unique seen ms ≡ ok tt
  unfolding check_unique
  IsFresh→check_unique seen [] h = refl
  IsFresh→check_unique seen (m ∷ ms) (new, h) =
      rw new (IsFresh→check_unique (m.measurement_type ∷ seen) ms h)

  pub not-is_nil→ne : (ms : List (Measurement V)) → not (is_nil ms) ≡ true → ms ≢ []
  not-is_nil→ne [] h = cc
  not-is_nil→ne (m ∷ ms) h = λ p. cc

  pub ne→not-is_nil : (ms : List (Measurement V)) → ms ≢ [] → not (is_nil ms) ≡ true
  ne→not-is_nil [] h = absurd (h refl)
  ne→not-is_nil (m ∷ ms) h = refl

pub is_version_compatible_iff : (s : String) → (is_version_compatible s ≡ true) ↔ (major s ≡ "1")
unfolding is_version_compatible
is_version_compatible_iff s =
    let current : major schema_version ≡ "1" = unfold major nat_eq in refl in
    rw current (ground arith)
