-- ===== src/Mdm/Gaps/Returns.antt =====
-- `GapDetector.check` returns, and what it stores can be read again.
use mathlib.Core.Option.{some-injective, none-ne-some}
use diep_lab.Base.{
  String, ◌≡◌, ◌≢◌, refl, subst, false, Option, none, some, List, [], ◌∷◌, contains, string_eq,
  pair_eq, arith, map, Option-cases, Bool-cases, inl, inr,
}
use diep_lab.Base.Int.{ℤ, ◌-ℤ◌}
use diep_lab.Base.Dict.{lookup, insert, lookup-insert}
use diep_lab.Base.Float.{FloatOps, Parser, Stamp, divide}
use diep_lab.Contracts.Measurement.{Measurement}
use diep_lab.Contracts.Envelope.{Envelope, replace_z}
use diep_lab.Mdm.Timestamps.{captured_at}
use diep_lab.Mdm.Gaps.{
  GapEvent, GapConfig, LastSeen, series, expected_interval, missed_samples, and_events, event_of,
  gap_event, check_from, check,
}
use diep_lab.Mdm.Gaps.Events.{types, check_from-last_seen}

-- An instant that the parser reads from some text.
abbrev pub IsInstant : Parser → ℤ → Type 0
IsInstant p n = (text : String) × (s : Stamp) × (p text ≡ some s) × (s.micros ≡ n)

-- The stored instants are such.
abbrev pub AreInstants : Parser → LastSeen → Type 0
AreInstants p seen =
    (k : String × (String × String)) (n : ℤ) → lookup k seen ≡ some n → IsInstant p n

captured_at-IsInstant :
    {V : Type 0} (p : Parser) (e : Envelope V) (n : ℤ) → captured_at p e ≡ some n → IsInstant p n
unfolding captured_at
captured_at-IsInstant p e n h = elim (Option-cases (p (replace_z e.timestamp_utc))) [
  | inl fails ↦ absurd (none-ne-some _ (rw (fails, captured_at) at h))
  | inr (s, parsed) ↦
      (replace_z e.timestamp_utc, s, parsed, some-injective _ _ (rw (parsed, captured_at) at h))
]

AreInstants-insert :
    (p : Parser) (k : String × (String × String)) (n : ℤ) (seen : LastSeen)
    → IsInstant p n
    → AreInstants p seen
    → AreInstants p (insert k n seen)
AreInstants-insert p k n seen now read j m h = elim (pair_eq.dec j k) [
  | yes same ↦ subst (IsInstant p) (ground (arith, lookup-insert j k n seen)) now
  | no other ↦ read j m (ground (arith, lookup-insert j k n seen))
]

module _ {V : Type 0} ⦃F : FloatOps V⦄ (c : GapConfig V) where
  -- Every configured interval divides the gaps between two instants that the parser reads: it is not
  -- zero, and the quotient has a nearest integer.
  pub record IsSampling (p : Parser) : Type 0 where
    pub nonzero : (t : String) → F.is_zero (expected_interval c t) ≡ false
    pub rounds :
        (last current : ℤ) (t : String)
        → IsInstant p last
        → IsInstant p current
        → F.round (F.div (F.total_seconds (current -ℤ last)) (expected_interval c t)) ≢ none

  missed_samples-ne-none :
      (p : Parser) (last current : ℤ) (t : String)
      → IsSampling p
      → IsInstant p last
      → IsInstant p current
      → missed_samples (F.total_seconds (current -ℤ last)) (expected_interval c t) ≢ none
  unfolding missed_samples divide
  missed_samples-ne-none p last current t h before now =
      ground (arith, h.nonzero t, h.rounds last current t before now)

  gap_event-ne-none :
      (p : Parser) (current : ℤ) (e : Envelope V) (t : String) (o : Option ℤ)
      → IsSampling p
      → IsInstant p current
      → ((last : ℤ) → o ≡ some last → IsInstant p last)
      → gap_event c current e t o ≢ none
  unfolding gap_event event_of
  gap_event-ne-none p current e t none h now read = ground arith
  gap_event-ne-none p current e t (some last) h now read =
      ground (arith, missed_samples-ne-none p last current t h (read last refl) now)

  check_from-ne-none :
      (p : Parser) (current : ℤ) (e : Envelope V) (ms : List (Measurement V)) (seen : LastSeen)
      → IsSampling p
      → IsInstant p current
      → AreInstants p seen
      → check_from c current e ms seen ≢ none
  unfolding check_from and_events
  check_from-ne-none p current e [] seen h now read = ground arith
  check_from-ne-none p current e (m ∷ ms) seen h now read =
      let k = series e m.measurement_type in
      ground (
        arith,
        gap_event-ne-none p current e m.measurement_type (lookup k seen) h now (read k),
        check_from-ne-none p current e ms (insert k current seen) h now
            (AreInstants-insert p k current seen now read),
      )

  -- With intervals that divide, `check` raises nothing on an envelope whose timestamp parses.
  pub check-ne-none :
      (p : Parser) (e : Envelope V) (seen : LastSeen)
      → IsSampling p
      → AreInstants p seen
      → captured_at p e ≢ none
      → check p c e seen ≢ none
  unfolding check
  check-ne-none p e seen h read parses = elim (Option-cases (captured_at p e)) [
    | inl fails ↦ absurd (parses fails)
    | inr (current, parsed) ↦
        rw (parsed, check)
          (check_from-ne-none p current e e.measurements seen h
            (captured_at-IsInstant p e current parsed) read)
  ]

  -- So every instant that is stored after the call was read by the parser.
  pub check-AreInstants :
      (p : Parser) (e : Envelope V) (seen : LastSeen) {events : List (GapEvent V)}
      {after : LastSeen}
      → AreInstants p seen
      → check p c e seen ≡ some (events, after)
      → AreInstants p after
  unfolding check
  check-AreInstants p e seen read h k n at = elim (Option-cases (captured_at p e)) [
    | inl fails ↦ absurd (none-ne-some _ (rw (fails, check) at h))
    | inr (current, parsed) ↦
        let stored =
          check_from-last_seen c current e e.measurements seen k (rw (parsed, check) at h) in
        elim (Bool-cases (contains (map (series e) (types e.measurements)) k)) [
          | inl new ↦
              subst (IsInstant p) (ground (arith, stored))
                (captured_at-IsInstant p e current parsed)
          | inr old ↦ read k n (ground (arith, stored))
        ]
  ]
