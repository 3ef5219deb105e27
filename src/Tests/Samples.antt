-- ===== src/Tests/Samples.antt =====
-- Concrete inputs: numbers with six decimals, a parser that knows three texts, and one payload.
use diep_lab.Base.{
  ℕ, ◌+◌, ◌*◌, ◌-◌, ◌/◌, ◌^◌, String, false, Option, none, some, [], ◌∷◌, ◌==◌, string_eq,
  if◌then◌else◌, ltb, leb, nat_eqb,
}
use diep_lab.Base.Int.{ℤ, pos, pos_part, neg_part, sub_ℕ, ◌+ℤ◌, ◌-ℤ◌, ◌*ℤ◌, ltb_ℤ, leb_ℤ}
use diep_lab.Base.Float.{FloatOps, Parser}
use diep_lab.Contracts.Error.{integer, float, text}
use diep_lab.Contracts.Measurement.{RawMeasurement}
use diep_lab.Contracts.Envelope.{RawEnvelope}
use diep_lab.Mdm.Validation.{known_units}
use diep_lab.Mdm.Gaps.{GapConfig}
use diep_lab.Mdm.Enrichment.{GridNode}
use diep_lab.Mdm.Pipeline.{Config, State, Clocks}

abbrev pub micro : ℕ
micro = 1000000

-- Division towards zero.
abbrev pub quotient : ℤ → ℤ → ℤ
quotient a b =
    let n = pos_part a + neg_part a in
    let d = pos_part b + neg_part b in
    if leb (pos_part a * neg_part b + neg_part a * pos_part b) 0
    then pos (n / d)
    else sub_ℕ 0 (n / d)

instance unfoldable pub fixed_point : FloatOps ℤ
fixed_point = record {
  decimal = λ n d. pos (n * 10 ^ (6 - d));
  of_int = λ n. n *ℤ pos micro;
  is_finite = λ v. ltb (pos_part v + neg_part v) (micro * micro);
  le = leb_ℤ;
  lt = ltb_ℤ;
  add = λ a b. a +ℤ b;
  sub = λ a b. a -ℤ b;
  mul = λ a b. quotient (a *ℤ b) (pos micro);
  div = λ a b. quotient (a *ℤ pos micro) b;
  is_zero = λ v. nat_eqb (pos_part v + neg_part v) 0;
  abs = λ v. pos (pos_part v + neg_part v);
  neg = λ v. pos 0 -ℤ v;
  round = λ v. some (quotient v (pos micro));
  round2 = λ v. v;
  total_seconds = λ n. n;
}

abbrev pub noon : String
noon = "2024-01-01T12:00:00Z"

-- Seconds of the day, at noon and an hour later.
unfoldable pub parser : Parser
parser s =
    if s == "2024-01-01T12:00:00+00:00"
    then some (record { micros = pos (43200 * micro); offset = some (pos 0) })
    else if s == "2024-01-01T13:00:00+00:00"
    then some (record { micros = pos (46800 * micro); offset = some (pos 0) })
    else none

abbrev pub kilovolts : RawMeasurement ℤ
kilovolts = record {
  measurement_type = some "voltage";
  unit = some "kV";
  value = some (float (pos 240000));
  quality = none;
  estimated = none;
  unexpected = [];
}

abbrev pub load : RawMeasurement ℤ
load = record {
  measurement_type = some "power_kw";
  unit = some "kW";
  value = some (integer (pos 900));
  quality = some (text "GOOD");
  estimated = some false;
  unexpected = [];
}

abbrev pub payload : RawEnvelope ℤ
payload = record {
  tenant_id = some "t1";
  site_id = some "s1";
  device_id = some "m1";
  meter_id = some "m1";
  timestamp_utc = some noon;
  measurements = kilovolts ∷ load ∷ [];
  timestamp_source = none;
  source_protocol = none;
  source_system = none;
  sequence_number = some (integer (pos 7));
  schema_version = none;
  ingestion_timestamp = none;
  correlation_id = some "c1";
  unexpected = [];
}

abbrev pub gap_config : GapConfig ℤ
gap_config = record {
  expected_intervals = [];
  default_interval_s = pos (60 * micro);
  tolerance_multiplier = pos 1500000;
}

-- A meter below a transformer, which stands below a feeder.
unfoldable pub grid : String → Option GridNode
grid id =
    if id == "m1"
    then some (record { node_id = "m1"; node_type = "meter"; parent_id = some "tr1" })
    else if id == "tr1"
    then some (record { node_id = "tr1"; node_type = "transformer"; parent_id = some "f1" })
    else if id == "f1"
    then some (record { node_id = "f1"; node_type = "feeder"; parent_id = none })
    else none

abbrev pub config : Config ℤ
config = record {
  fromisoformat = parser;
  isoformat = λ _. "2024-01-01T12:00:01+00:00";
  is_uuid = λ s. s == "c1";
  fresh_uuid = "c1";
  known_units = known_units;
  drift_threshold_s = pos (30 * micro);
  gaps = gap_config;
  range_limits =
      ("voltage", (pos (180 * micro), pos (280 * micro)))
      ∷ ("power_kw", (pos 0, pos (500 * micro)))
      ∷ [];
  fetch_device_row = λ _. none;
  fetch_grid_node = grid;
  max_hops = 10;
  ttl_s = pos (300 * micro);
  trusted_topic_suffix = "telemetry/trusted";
}

abbrev pub start : State ℤ
start = record {
  detector = record { policy = "any"; cache_size = 2; keys = []; correlation_ids = [] };
  sequences = [];
  last_seen = [];
  cache = [];
}

abbrev pub clocks : Clocks ℤ
clocks = record {
  received_at = pos (43201 * micro);
  enrich_now = pos 0;
  enrich_stored = pos 0;
  processed_at = "2024-01-01T12:00:01+00:00";
}
