-- ===== src/Mdm/Timestamps.antt =====
-- services/mdm/timestamps.py: `TimestampNormalizer`.
pub mod Order
use diep_lab.Base.{ℕ, String, Bool, true, false, Option, none, some, max, ltb, string_eq, pair_eq}
use diep_lab.Base.Int.{ℤ, ◌-ℤ◌}
use diep_lab.Base.Dict.{Dict, lookup, insert}
use diep_lab.Base.Float.{FloatOps, Stamp, Parser}
use diep_lab.Contracts.Envelope.{Envelope, replace_z}

pub record TimestampAssessment (V : Type 0) : Type 0 where
  pub ingestion_timestamp : String
  pub drift_seconds : V
  pub is_drifted : Bool
  pub is_out_of_order : Bool

-- (tenant_id, device_id) ↦ the highest sequence number seen.
abbrev pub Sequences : Type 0
Sequences = Dict (String × String) ℕ

-- `last_seq is not None and envelope.sequence_number < last_seq`
unfoldable pub is_behind : Option ℕ → ℕ → Bool
is_behind none n = false
is_behind (some last) n = ltb n last

-- `max(last_seq or 0, envelope.sequence_number)`
unfoldable pub advance : Option ℕ → ℕ → ℕ
advance none n = max 0 n
advance (some last) n = max last n

-- `datetime.fromisoformat(envelope.timestamp_utc.replace("Z", "+00:00"))`, as an instant. `none` is
-- the ValueError of a text that does not parse.
unfoldable pub captured_at : {V : Type 0} → Parser → Envelope V → Option ℤ
captured_at fromisoformat e = elim (fromisoformat (replace_z e.timestamp_utc)) [
  | none ↦ none
  | some s ↦ some s.micros
]

abbrev pub device_key : {V : Type 0} → Envelope V → String × String
device_key e = (e.tenant_id, e.device_id)

module _ {V : Type 0} ⦃F : FloatOps V⦄ (isoformat : ℤ → String) (drift_threshold_s : V) where
  -- `assess` once both instants are known: the assessment, the stamped envelope and the new state.
  unfoldable pub assess_at :
      ℤ → ℤ → Envelope V → Sequences → TimestampAssessment V × Envelope V × Sequences
  assess_at received captured e sequences =
      let drift = F.total_seconds (received -ℤ captured) in
      let last_seq = lookup (device_key e) sequences in
      let stamped = isoformat received in
      (
        record {
          ingestion_timestamp = stamped;
          drift_seconds = drift;
          is_drifted = F.lt drift_threshold_s (F.abs drift);
          is_out_of_order = is_behind last_seq e.sequence_number;
        },
        record e { ingestion_timestamp = some stamped },
        insert (device_key e) (advance last_seq e.sequence_number) sequences,
      )

  -- `TimestampNormalizer.assess`; the receipt time is an instant, as the pipeline passes it.
  unfoldable pub assess :
      Parser → ℤ → Envelope V → Sequences → Option (TimestampAssessment V × Envelope V × Sequences)
  assess fromisoformat received e sequences = elim (captured_at fromisoformat e) [
    | none ↦ none
    | some captured ↦ some (assess_at received captured e sequences)
  ]
