-- ===== src/Ingest.antt =====
-- ingestor/telemetry_ingestor.py: what the ingestor makes of a message, and its queue. Logging and the
-- latency histogram are left out; what is posted to the API is a log, and the answer of the API, which
-- is only counted, is left out.
pub mod Native
pub mod Finite
pub mod Kept
use diep_lab.Base.{
  ℕ, ◌+◌, String, Bool, true, false, not, Option, none, some, List, [], ◌∷◌, ◌++◌, ◌&&◌, ◌||◌, ◌==◌,
  contains, string_eq, nat_eq, pair_eq, length, ltb, if◌then◌else◌,
}
use diep_lab.Base.Dict.{Dict, lookup, insert}
use diep_lab.Base.Result.{ok, err}
use diep_lab.Base.Float.{FloatOps, Parser}
use diep_lab.Contracts.Error.{Outcome, Scalar, integer, float, boolean, text, null}
use diep_lab.Contracts.Measurement.{Measurement, is_nonempty}
use diep_lab.Contracts.Envelope.{Envelope, RawEnvelope}
use diep_lab.Contracts.Decode.{from_dict, dedup_key}
use diep_lab.Mdm.Duplicates.{Key, pop_first}
use diep_lab.Ingest.Native.{
  canonical_fields, extended_numeric, extra_fields, FieldQuality, withheld, withheld_measurement,
  flags, Out, Reading, zeros, read_numbers, long_tail, resolve_device_id,
}

-- The fields of the envelope that go along in `extra`.
pub record Provenance : Type 0 where
  pub tenant_id : String
  pub site_id : String
  pub meter_id : String
  pub schema_version : String
  pub correlation_id : String
  pub sequence_number : ℕ
  pub source_protocol : String
  pub timestamp_source : String

-- A body for POST /telemetry: its numeric fields, and the rest.
pub record Body (V : Type 0) : Type 0 where
  pub fields : Dict String V
  pub device_id : String
  pub time : Option (Scalar V)
  pub state : Option String
  pub long_tail : Reading V
  pub provenance : Option Provenance
  pub quality : Dict String FieldQuality

abbrev pub is_flattened : String → Bool
is_flattened t = contains canonical_fields t || contains extended_numeric t

module _ {V : Type 0} ⦃F : FloatOps V⦄ where
  -- The body of the loop over the measurements.
  unfoldable pub flatten : Measurement V → Out V → Out V
  flatten m o =
      if is_flattened m.measurement_type && not (F.is_finite m.value)
      then record o {
        rejections =
            insert m.measurement_type (withheld_measurement m.estimated m.quality) o.rejections;
      }
      else record o {
        fields =
            if is_flattened m.measurement_type
            then insert m.measurement_type m.value o.fields
            else o.fields;
        rejections = insert m.measurement_type (flags m.quality m.estimated) o.rejections;
      }

  unfoldable pub flatten_all : List (Measurement V) → Out V → Out V
  flatten_all [] o = o
  flatten_all (m ∷ ms) o = flatten_all ms (flatten m o)

  -- `envelope_to_legacy_body`
  unfoldable pub envelope_to_legacy_body : Envelope V → Body V
  envelope_to_legacy_body e =
      let o =
        flatten_all e.measurements (record { fields = zeros canonical_fields; rejections = [] }) in
      record {
        fields = o.fields;
        device_id = e.device_id;
        time = some (text e.timestamp_utc);
        state = none;
        long_tail = [];
        provenance = some (record {
          tenant_id = e.tenant_id;
          site_id = e.site_id;
          meter_id = e.meter_id;
          schema_version = e.schema_version;
          correlation_id = e.correlation_id;
          sequence_number = e.sequence_number;
          source_protocol = e.source_protocol;
          timestamp_source = e.timestamp_source;
        });
        quality = o.rejections;
      }

  -- Whether a JSON value is true in an `if`.
  unfoldable pub is_truthy : Scalar V → Bool
  is_truthy (integer n) = not (F.is_zero (F.of_int n))
  is_truthy (float v) = not (F.is_zero v)
  is_truthy (boolean b) = b
  is_truthy (text s) = is_nonempty s
  is_truthy null = false

  unfoldable pub capture_time : Option (Scalar V) → Option (Scalar V)
  capture_time none = none
  capture_time (some s) = if is_truthy s then some s else none

  module _ (str : Scalar V → String) where
    -- `str(payload["state"])`, unless it is missing or null.
    unfoldable pub state_of : Option (Scalar V) → Option String
    state_of none = none
    state_of (some null) = none
    state_of (some s) = some (str s)

    -- `normalize`, with the two writes to its result of `_handle_message`.
    unfoldable pub flat_body : String → Reading V → Body V
    flat_body topic payload =
        let o = read_numbers payload in
        record {
          fields = o.fields;
          device_id = resolve_device_id topic payload;
          time = capture_time (lookup "time" payload);
          state = state_of (lookup "state" payload);
          long_tail = long_tail payload extra_fields;
          provenance = none;
          quality = o.rejections;
        }

-- A message as `json.loads` returns it: not JSON, not an object, an object with `schema_version` and
-- `measurements`, or another one. The key `mdm` of an envelope is dropped before it is read.
pub data Payload (V : Type 0) : Type 0 where
  unparseable not_object : Payload V
  enveloped : RawEnvelope V → Payload V
  flat : Reading V → Payload V

-- The deduplication cache, the counters of refused messages, and what was posted.
pub record State (V : Type 0) : Type 0 where
  pub seen : List Key
  pub rejected : List String
  pub posted : List (Body V)

abbrev pub seen_max : ℕ
seen_max = 10000

-- `_is_duplicate_envelope`, whose lock makes it one step.
unfoldable pub is_duplicate_envelope : Key → List Key → Bool × List Key
is_duplicate_envelope key seen =
    let longer = seen ++ key ∷ [] in
    if contains seen key
    then (true, seen)
    else (false, if ltb seen_max (length longer) then pop_first longer else longer)

module _ {V : Type 0} ⦃F : FloatOps V⦄ where
  unfoldable pub count : String → State V → State V
  count reason s = record s { rejected = s.rejected ++ reason ∷ [] }

  -- `_persist`
  unfoldable pub persist : Body V → State V → State V
  persist b s = record s { posted = s.posted ++ b ∷ [] }

  unfoldable pub accept_envelope : Envelope V → Bool × List Key → State V → State V
  accept_envelope e (true, seen) s = count "duplicate" (record s { seen = seen })
  accept_envelope e (false, seen) s = persist (envelope_to_legacy_body e) (record s { seen = seen })

  unfoldable pub take_envelope : Outcome (Envelope V) → State V → State V
  take_envelope (err e) s = count "invalid_envelope" s
  take_envelope (ok e) s = accept_envelope e (is_duplicate_envelope (dedup_key e) s.seen) s

  module _ (fromisoformat : Parser) (fresh_uuid : String) (str : Scalar V → String) where
    -- `_handle_message`
    unfoldable pub handle_message : String → Payload V → State V → State V
    handle_message topic unparseable s = count "unparseable_json" s
    handle_message topic not_object s = s
    handle_message topic (enveloped d) s = take_envelope (from_dict fromisoformat fresh_uuid d) s
    handle_message topic (flat payload) s = persist (flat_body str topic payload) s

    -- The messages that the workers take, in the order of their effects.
    unfoldable pub handle_all : List (String × Payload V) → State V → State V
    handle_all [] s = s
    handle_all ((topic, p) ∷ ms) s = handle_all ms (handle_message topic p s)
