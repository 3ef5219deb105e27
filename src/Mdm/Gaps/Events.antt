-- ===== src/Mdm/Gaps/Events.antt =====
-- `GapDetector`: the events of one envelope, the state after it, and the exceptions.
use mathlib.Core.Option.{some-injective}
use diep_lab.Base.{
  ℕ, String, ◌≡◌, refl, sym, ap, subst, true, false, Option, none, some, List, [], ◌∷◌, ◌++◌,
  All-append, contains, string_eq, pair_eq, arith, All, map, if◌then◌else◌, Bool-cases, inl, inr,
}
use diep_lab.Base.Int.{ℤ, ◌-ℤ◌}
use diep_lab.Base.Dict.{lookup, insert, lookup-insert}
use diep_lab.Base.Float.{FloatOps, Parser}
use diep_lab.Contracts.Measurement.{Measurement}
use diep_lab.Contracts.Envelope.{Envelope}
use diep_lab.Contracts.Validity.{IsFresh}
use diep_lab.Mdm.Timestamps.{captured_at}
use diep_lab.Mdm.Gaps.{
  GapEvent, GapConfig, LastSeen, series, expected_interval, and_events, event_of, gap_event,
  check_from, check,
}

abbrev pub types : {V : Type 0} → List (Measurement V) → List String
types ms = map (λ m. m.measurement_type) ms

record IsSplit {A S : Type 0} (ev : Option (List A)) (rest : Option (List A × S)) (all : List A)
    (s : S) : Type 0 where
  event : List A
  events : List A
  first : ev ≡ some event
  others : rest ≡ some (events, s)
  joined : all ≡ event ++ events

and_events-IsSplit :
    {A S : Type 0} (ev : Option (List A)) (rest : Option (List A × S)) {all : List A} {s : S}
    → and_events ev rest ≡ some (all, s)
    → IsSplit ev rest all s
unfolding and_events
and_events-IsSplit none rest h = cc
and_events-IsSplit (some event) none h = cc
and_events-IsSplit (some event) (some (events, s)) h = record {
  event = event;
  events = events;
  first = refl;
  others = cc;
  joined = cc;
}

module _ {V : Type 0} ⦃F : FloatOps V⦄ (c : GapConfig V) where
  -- After the call, the series of the envelope's measurements hold its instant, and no other series
  -- has changed.
  pub check_from-last_seen :
      (current : ℤ) (e : Envelope V) (ms : List (Measurement V)) (seen : LastSeen)
      {events : List (GapEvent V)} {after : LastSeen} (k : String × (String × String))
      → check_from c current e ms seen ≡ some (events, after)
      → lookup k after
        ≡ (if contains (map (series e) (types ms)) k then some current else lookup k seen)
  unfolding check_from
  check_from-last_seen current e [] seen k h = ground arith
  check_from-last_seen current e (m ∷ ms) seen k h =
      let parts = and_events-IsSplit _ _ h in
      let t = m.measurement_type in
      ground (
        arith,
        check_from-last_seen current e ms (insert (series e t) current seen) k parts.others,
        lookup-insert k (series e t) current seen,
      )

  -- What an event tells of the state before the call.
  pub record IsGap (current : ℤ) (e : Envelope V) (seen : LastSeen) (g : GapEvent V) : Type 0 where
    pub tenant : g.tenant_id ≡ e.tenant_id
    pub device : g.device_id ≡ e.device_id
    pub now : g.current_at ≡ current
    pub last : lookup (series e g.measurement_type) seen ≡ some g.last_seen_at
    pub seconds : g.gap_seconds ≡ F.total_seconds (current -ℤ g.last_seen_at)
    pub exceeds :
        F.lt (F.mul (expected_interval c g.measurement_type) c.tolerance_multiplier) g.gap_seconds
        ≡ true

  event_of-IsGap :
      (current : ℤ) (e : Envelope V) (seen : LastSeen) (t : String) (last : ℤ) (missed : Option ℕ)
      {events : List (GapEvent V)}
      → lookup (series e t) seen ≡ some last
      → F.lt
          (F.mul (expected_interval c t) c.tolerance_multiplier)
          (F.total_seconds (current -ℤ last))
        ≡ true
      → event_of c current e t last missed ≡ some events
      → All (IsGap current e seen) events
  unfolding event_of
  event_of-IsGap current e seen t last none l x h = cc
  event_of-IsGap current e seen t last (some missed) l x h =
      subst (All (IsGap current e seen)) (some-injective _ _ h) (
        record { tenant = refl; device = refl; now = refl; last = l; seconds = refl; exceeds = x },
        tt,
      )

  gap_event-IsGap :
      (current : ℤ) (e : Envelope V) (seen : LastSeen) (t : String) (o : Option ℤ)
      {events : List (GapEvent V)}
      → lookup (series e t) seen ≡ o
      → gap_event c current e t o ≡ some events
      → All (IsGap current e seen) events
  unfolding gap_event
  gap_event-IsGap current e seen t none l h =
      subst (All (IsGap current e seen)) (some-injective _ _ h) tt
  gap_event-IsGap current e seen t (some last) l h =
      elim (Bool-cases (
        F.lt (F.mul (expected_interval c t) c.tolerance_multiplier)
          (F.total_seconds (current -ℤ last)))) [
            | inl over ↦ event_of-IsGap current e seen t last _ l over (rw over at h)
            | inr within ↦
                subst (All (IsGap current e seen)) (some-injective _ _ (rw within at h)) tt
          ]

  still_same :
      (current : ℤ) (e : Envelope V) (start : LastSeen) (used : List String) (t : String)
      (seen : LastSeen) (u : String)
      → ((v : String)
          → contains used v ≡ false
          → lookup (series e v) seen ≡ lookup (series e v) start)
      → contains (t ∷ used) u ≡ false
      → lookup (series e u) (insert (series e t) current seen) ≡ lookup (series e u) start
  still_same current e start used t seen u same absent =
      ground (arith, lookup-insert (series e u) (series e t) current seen, same u)

  -- The loop, which has written the series of the types in `used` so far.
  check_from-IsGap :
      (current : ℤ) (e : Envelope V) (start : LastSeen) (used : List String)
      (ms : List (Measurement V)) (seen : LastSeen) {events : List (GapEvent V)} {after : LastSeen}
      → IsFresh used ms
      → ((t : String)
          → contains used t ≡ false
          → lookup (series e t) seen ≡ lookup (series e t) start)
      → check_from c current e ms seen ≡ some (events, after)
      → All (IsGap current e start) events
  unfolding check_from
  check_from-IsGap current e start used [] seen fresh same h =
      subst (All (IsGap current e start)) (ap (λ x. x.0) (some-injective _ _ h)) tt
  check_from-IsGap current e start used (m ∷ ms) seen (new, fresh) same h =
      let parts = and_events-IsSplit _ _ h in
      let t = m.measurement_type in
      rw parts.joined (
        All-append (IsGap current e start) parts.event parts.events
          (gap_event-IsGap current e start t _ (sym (same t new)) parts.first)
          (check_from-IsGap current e start (t ∷ used) ms (insert (series e t) current seen) fresh
            (λ u absent. still_same current e start used t seen u same absent) parts.others))

  -- In one call, an event is reported only for a series that was seen before the call, with the
  -- stored instant, and only if the gap exceeds the tolerated interval.
  pub check-IsGap :
      (p : Parser) (e : Envelope V) (seen : LastSeen) (current : ℤ) {events : List (GapEvent V)}
      {after : LastSeen}
      → IsFresh [] e.measurements
      → captured_at p e ≡ some current
      → check p c e seen ≡ some (events, after)
      → All (IsGap current e seen) events
  unfolding check
  check-IsGap p e seen current unique parsed h =
      check_from-IsGap current e seen [] e.measurements seen unique (λ t _. refl)
        (rw (parsed, check) at h)
