-- ===== src/Mdm/Gaps.antt =====
-- services/mdm/gaps.py: `GapDetector`.
pub mod Events
pub mod Returns
use diep_lab.Base.{
  ℕ, String, Option, none, some, List, [], ◌∷◌, ◌++◌, string_eq, pair_eq, if◌then◌else◌,
}
use diep_lab.Base.Int.{ℤ, pos, pos_part, ◌-ℤ◌}
use diep_lab.Base.Dict.{Dict, lookup, insert}
use diep_lab.Base.Float.{FloatOps, Parser, divide}
use diep_lab.Contracts.Measurement.{Measurement, default}
use diep_lab.Contracts.Envelope.{Envelope}
use diep_lab.Mdm.Timestamps.{captured_at}

-- `GapEvent`; the two instants are kept as such, and not as the texts of `isoformat`.
pub record GapEvent (V : Type 0) : Type 0 where
  pub tenant_id : String
  pub device_id : String
  pub measurement_type : String
  pub last_seen_at : ℤ
  pub current_at : ℤ
  pub gap_seconds : V
  pub expected_interval_s : V
  pub estimated_missed_samples : ℕ

pub record GapConfig (V : Type 0) : Type 0 where
  pub expected_intervals : Dict String V
  pub default_interval_s : V
  pub tolerance_multiplier : V

-- (tenant_id, device_id, measurement_type) ↦ the instant of the last reading.
abbrev pub LastSeen : Type 0
LastSeen = Dict (String × (String × String)) ℤ

abbrev pub series : {V : Type 0} → Envelope V → String → String × (String × String)
series e measurement_type = (e.tenant_id, (e.device_id, measurement_type))

-- The events of one measurement before those of the rest; an exception ends the loop.
unfoldable pub and_events :
    {A S : Type 0} → Option (List A) → Option (List A × S) → Option (List A × S)
and_events none rest = none
and_events (some event) none = none
and_events (some event) (some (events, s)) = some (event ++ events, s)

module _ {V : Type 0} ⦃F : FloatOps V⦄ where
  unfoldable pub expected_interval : GapConfig V → String → V
  expected_interval c t = default c.default_interval_s (lookup t c.expected_intervals)

  -- `max(0, round(gap_seconds / expected) - 1)`. `none` is the error that Python raises for a zero
  -- divisor, or for a quotient that has no integer.
  unfoldable pub missed_samples : V → V → Option ℕ
  missed_samples gap expected = elim (divide gap expected) [
    | none ↦ none
    | some q ↦ elim (F.round q) [ none ↦ none | some n ↦ some (pos_part (n -ℤ pos 1)) ]
  ]

  unfoldable pub event_of :
      GapConfig V → ℤ → Envelope V → String → ℤ → Option ℕ → Option (List (GapEvent V))
  event_of c current e t last none = none
  event_of c current e t last (some missed) = some (
      record {
        tenant_id = e.tenant_id;
        device_id = e.device_id;
        measurement_type = t;
        last_seen_at = last;
        current_at = current;
        gap_seconds = F.total_seconds (current -ℤ last);
        expected_interval_s = expected_interval c t;
        estimated_missed_samples = missed;
      }
      ∷ [])

  -- The event of one measurement, where there is one.
  unfoldable pub gap_event :
      GapConfig V → ℤ → Envelope V → String → Option ℤ → Option (List (GapEvent V))
  gap_event c current e t none = some []
  gap_event c current e t (some last) =
      let gap = F.total_seconds (current -ℤ last) in
      let expected = expected_interval c t in
      if F.lt (F.mul expected c.tolerance_multiplier) gap
      then event_of c current e t last (missed_samples gap expected)
      else some []

  -- The loop of `check` over the measurements.
  unfoldable pub check_from :
      GapConfig V
      → ℤ
      → Envelope V
      → List (Measurement V)
      → LastSeen
      → Option (List (GapEvent V) × LastSeen)
  check_from c current e [] seen = some ([], seen)
  check_from c current e (m ∷ ms) seen =
      let t = m.measurement_type in
      and_events (gap_event c current e t (lookup (series e t) seen))
        (check_from c current e ms (insert (series e t) current seen))

  -- `GapDetector.check`
  unfoldable pub check :
      Parser → GapConfig V → Envelope V → LastSeen → Option (List (GapEvent V) × LastSeen)
  check fromisoformat c e seen = elim (captured_at fromisoformat e) [
    | none ↦ none
    | some current ↦ check_from c current e e.measurements seen
  ]
