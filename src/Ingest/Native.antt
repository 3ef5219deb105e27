-- ===== src/Ingest/Native.antt =====
-- ingestor/telemetry_ingestor.py: the flat telemetry of the drivers, onto the fields of the API.
use Prim.Native.Char.{code}
use diep_lab.Base.{
  String, Bool, false, Option, none, some, List, [], ◌∷◌, ◌==◌, ◌||◌, string_eq, nat_eq,
  if◌then◌else◌,
}
use diep_lab.Base.Dict.{Dict, lookup, insert}
use diep_lab.Base.Float.{FloatOps}
use diep_lab.Contracts.Error.{Scalar, integer, float, text}
use diep_lab.Contracts.Measurement.{is_nonempty, default}
use diep_lab.Contracts.Quality.{Quality}

abbrev pub canonical_fields : List String
canonical_fields =
    "voltage" ∷ "current" ∷ "power_kw" ∷ "frequency" ∷ "solar_kw" ∷ "battery_soc" ∷ "grid_import_kw"
    ∷ "grid_export_kw" ∷ []

abbrev pub extended_numeric : List String
extended_numeric =
    "power_factor" ∷ "energy_import_kwh" ∷ "energy_export_kwh" ∷ "temperature" ∷ "soh" ∷ []

abbrev pub extra_fields : List String
extra_fields =
    "vehicle_soc" ∷ "connector_status" ∷ "session_energy_kwh" ∷ "load_kw" ∷ "setpoint_kw"
    ∷ "grid_connected" ∷ "mode" ∷ []

-- An entry of the `quality` that goes along: a value that was withheld, of a flat reading or of a
-- measurement, or the flags of one that was kept.
pub data FieldQuality : Type 0 where
  withheld : FieldQuality
  withheld_measurement : Bool → Quality → FieldQuality
  flags : Quality → Bool → FieldQuality

-- The numeric fields so far, and the rejections.
pub record Out (V : Type 0) : Type 0 where
  pub fields : Dict String V
  pub rejections : Dict String FieldQuality

abbrev pub Reading : Type 0 → Type 0
Reading V = Dict String (Scalar V)

module _ {V : Type 0} ⦃F : FloatOps V⦄ where
  -- `{field: 0.0 for field in CANONICAL_FIELDS}`
  unfoldable pub zeros : List String → Dict String V
  zeros [] = []
  zeros (f ∷ fs) = (f, F.decimal 0 1) ∷ zeros fs

  -- `_num`
  unfoldable pub num : Option (Scalar V) → Option V
  num (some (integer n)) = some (F.of_int n)
  num (some (float v)) = some v
  num _ = none

  -- `out[field] = v`
  unfoldable pub put : String → V → Out V → Out V
  put field v o = record o { fields = insert field v o.fields }

  -- `_reject_non_finite`
  unfoldable pub reject : List String → Out V → Out V
  reject [] o = o
  reject (f ∷ fs) o = reject fs (record o { rejections = insert f withheld o.rejections })

  -- `_accept_or_reject`
  unfoldable pub accept_or_reject : String → Option V → Out V → Out V
  accept_or_reject field none o = o
  accept_or_reject field (some v) o = if F.is_finite v then put field v o else reject (field ∷ []) o

  -- `max(0.0, v)`
  unfoldable pub positive_part : V → V
  positive_part v = if F.lt (F.decimal 0 1) v then v else F.decimal 0 1

  -- The loops over the canonical and over the extended fields.
  unfoldable pub read_fields : Reading V → List String → Out V → Out V
  read_fields payload [] o = o
  read_fields payload (f ∷ fs) o =
      read_fields payload fs (accept_or_reject f (num (lookup f payload)) o)

  -- A solar inverter's generation.
  unfoldable pub read_output : Option V → Out V → Out V
  read_output none o = o
  read_output (some v) o =
      if F.is_finite v
      then put "grid_export_kw" (positive_part v) (put "power_kw" v (put "solar_kw" v o))
      else reject ("solar_kw" ∷ "power_kw" ∷ "grid_export_kw" ∷ []) o

  -- A microgrid's point of common coupling.
  unfoldable pub read_pcc : Option V → Out V → Out V
  read_pcc none o = o
  read_pcc (some v) o =
      if F.is_finite v
      then put "grid_export_kw" (positive_part (F.neg v))
          (put "grid_import_kw" (positive_part v) (put "power_kw" v o))
      else reject ("power_kw" ∷ "grid_import_kw" ∷ "grid_export_kw" ∷ []) o

  -- The numeric part of `normalize`.
  unfoldable pub read_numbers : Reading V → Out V
  read_numbers payload =
      let start : Out V = record { fields = zeros canonical_fields; rejections = [] } in
      let canonical = read_fields payload canonical_fields start in
      let charged = accept_or_reject "battery_soc" (num (lookup "soc" payload)) canonical in
      let generated = read_output (num (lookup "output_kw" payload)) charged in
      let coupled = read_pcc (num (lookup "pcc_kw" payload)) generated in
      read_fields payload extended_numeric coupled

module _ {V : Type 0} where
  -- `{k: payload[k] for k in EXTRA_FIELDS if k in payload}`
  unfoldable pub long_tail : Reading V → List String → Reading V
  long_tail payload [] = []
  long_tail payload (k ∷ ks) =
      let rest = long_tail payload ks in
      elim (lookup k payload) [ none ↦ rest | some v ↦ (k, v) ∷ rest ]

-- The text behind the last slash.
unfoldable pub has_slash : String → Bool
has_slash String.[] = false
has_slash (String.◌∷◌ c s) = code c == b'/' || has_slash s

unfoldable pub last_segment : String → String
unfolding has_slash
last_segment String.[] = String.[]
last_segment (String.◌∷◌ c s) =
    let rest = last_segment s in
    if has_slash s then rest else if code c == b'/' then s else String.◌∷◌ c s

abbrev pub topic_id_overrides : Dict String String
topic_id_overrides = ("meter1", "METER001") ∷ []

unfoldable pub topic_id : String → String
unfolding last_segment
topic_id topic =
    let segment = last_segment topic in default segment (lookup segment topic_id_overrides)

-- `resolve_device_id`
unfoldable pub resolve_device_id : {V : Type 0} → String → Reading V → String
unfolding topic_id
resolve_device_id topic payload = elim (lookup "device_id" payload) [
  | none ↦ topic_id topic
  | some s ↦ elim s [ text id ↦ if is_nonempty id then id else topic_id topic | _ ↦ topic_id topic ]
]
