-- ===== src/Mdm/Timestamps/Order.antt =====
-- `TimestampNormalizer`: which envelopes are flagged as out of order.
use diep_lab.Base.{
  ℕ, String, ◌≡◌, refl, ◌∙◌, Bool, false, Option, none, some, List, [], ◌∷◌, ◌==◌, ◌&&◌, ◌||◌, ltb,
  string_eq, pair_eq, arith,
}
use diep_lab.Base.Int.{ℤ}
use diep_lab.Base.Dict.{lookup, insert, lookup-insert}
use diep_lab.Base.Float.{FloatOps}
use diep_lab.Contracts.Envelope.{Envelope}
use diep_lab.Mdm.Timestamps.{Sequences, is_behind, advance, device_key, assess_at}

-- An envelope with the instants of its receipt and of its capture.
pub record Arrival (V : Type 0) : Type 0 where
  pub received : ℤ
  pub captured : ℤ
  pub envelope : Envelope V

-- An earlier envelope of the same device had a larger sequence number.
abbrev pub was_overtaken : {V : Type 0} → Envelope V → List (Arrival V) → Bool
was_overtaken e [] = false
was_overtaken e (a ∷ earlier) =
    (device_key e == device_key a.envelope && ltb e.sequence_number a.envelope.sequence_number)
    || was_overtaken e earlier

behind_advanced :
    (o : Option ℕ) (m n : ℕ) → is_behind (some (advance o m)) n ≡ (ltb n m || is_behind o n)
unfolding is_behind advance
behind_advanced none m n = ground arith
behind_advanced (some last) m n = ground arith

module _ {V : Type 0} ⦃F : FloatOps V⦄ (isoformat : ℤ → String) (threshold : V) where
  -- The state after a run of calls of `assess`.
  unfoldable pub assess_all : List (Arrival V) → Sequences → Sequences
  assess_all [] s = s
  assess_all (a ∷ rest) s =
      assess_all rest (assess_at isoformat threshold a.received a.captured a.envelope s).2

  behind_all :
      (arrivals : List (Arrival V)) (e : Envelope V) (s : Sequences)
      → is_behind (lookup (device_key e) (assess_all arrivals s)) e.sequence_number
        ≡ (is_behind (lookup (device_key e) s) e.sequence_number || was_overtaken e arrivals)
  unfolding assess_all assess_at
  behind_all [] e s = ground arith
  behind_all (a ∷ rest) e s =
      let x = a.envelope in
      let last = lookup (device_key x) s in
      ground (
        arith,
        behind_all rest e (insert (device_key x) (advance last x.sequence_number) s),
        lookup-insert (device_key e) (device_key x) (advance last x.sequence_number) s,
        behind_advanced last x.sequence_number e.sequence_number,
      )

  -- From an empty state, an envelope is flagged exactly when an earlier one of the same tenant and
  -- device had a larger sequence number, however late it arrived and whatever stands between.
  pub assess_at-out_of_order :
      (arrivals : List (Arrival V)) (received captured : ℤ) (e : Envelope V)
      → (assess_at isoformat threshold received captured e
          (assess_all arrivals [])).0.is_out_of_order
        ≡ was_overtaken e arrivals
  unfolding assess_at
  assess_at-out_of_order arrivals received captured e =
      behind_all arrivals e [] ∙ unfold lookup is_behind in refl
