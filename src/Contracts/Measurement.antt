-- ===== src/Contracts/Measurement.antt =====
-- contracts/telemetry.py: `Measurement`, its constructor from keyword arguments, and `to_dict`.
use diep_lab.Base.{
  String, Bool, true, false, not, Option, none, some, List, [], ◌∷◌, ◌&&◌, if◌then◌else◌,
}
use diep_lab.Base.Result.{ok, err, ◌>>=◌, ◌>>◌, guard, or_raise}
use diep_lab.Base.Float.{FloatOps}
use diep_lab.Contracts.Quality.{Quality, good, value, quality_of, is_estimated}
use diep_lab.Contracts.Error.{
  Outcome, Scalar, integer, float, boolean, text, null, type_error, required, not_numeric,
  invalid_quality,
}

pub record Measurement (V : Type 0) : Type 0 where
  pub measurement_type : String
  pub unit : String
  pub value : V
  pub quality : Quality
  pub estimated : Bool

-- The keyword arguments of `Measurement(**m)`: absent ones are `none`, and `unexpected` holds the
-- keys that are no field.
pub record RawMeasurement (V : Type 0) : Type 0 where
  pub measurement_type : Option String
  pub unit : Option String
  pub value : Option (Scalar V)
  pub quality : Option (Scalar V)
  pub estimated : Option Bool
  pub unexpected : List String

-- Truth of a str.
abbrev pub is_nonempty : String → Bool
is_nonempty String.[] = false
is_nonempty (String.◌∷◌ _ _) = true

abbrev pub is_nil {ℓ} : {A : Type ℓ} → List A → Bool
is_nil [] = true
is_nil (_ ∷ _) = false

-- A default of the constructor.
abbrev pub default {ℓ} : {A : Type ℓ} → A → Option A → A
default d none = d
default d (some a) = a

module _ {V : Type 0} ⦃F : FloatOps V⦄ where
  -- `isinstance(value, (int, float)) and not isinstance(value, bool)`
  unfoldable pub numeric : Scalar V → Outcome V
  numeric (integer n) = ok (F.of_int n)
  numeric (float v) = ok v
  numeric (boolean _) = err not_numeric
  numeric (text _) = err not_numeric
  numeric null = err not_numeric

module _ {V : Type 0} where
  -- `Quality(self.quality)`
  unfoldable pub as_quality : Scalar V → Outcome Quality
  as_quality (text s) = or_raise (quality_of s) invalid_quality
  as_quality _ = err invalid_quality

module _ {V : Type 0} ⦃F : FloatOps V⦄ where
  -- `Measurement.__post_init__`
  unfoldable pub post_init : String → String → Scalar V → Scalar V → Bool → Outcome (Measurement V)
  post_init measurement_type unit v q estimated = do
    guard (is_nonempty measurement_type) (required "measurement_type")
    guard (is_nonempty unit) (required "unit")
    number ← numeric v
    flag ← as_quality q
    ok (record {
      measurement_type = measurement_type;
      unit = unit;
      value = number;
      quality = flag;
      estimated = if is_estimated flag && not estimated then true else estimated;
    })

  -- `Measurement(**m)`
  unfoldable pub make_measurement : RawMeasurement V → Outcome (Measurement V)
  make_measurement m = do
    guard (is_nil m.unexpected) type_error
    measurement_type ← or_raise m.measurement_type type_error
    unit ← or_raise m.unit type_error
    v ← or_raise m.value type_error
    post_init measurement_type unit v (default (text (value good)) m.quality)
        (default false m.estimated)

-- `Measurement.to_dict`
unfoldable pub measurement_to_dict : {V : Type 0} → Measurement V → RawMeasurement V
measurement_to_dict m = record {
  measurement_type = some m.measurement_type;
  unit = some m.unit;
  value = some (float m.value);
  quality = some (text (value m.quality));
  estimated = some m.estimated;
  unexpected = [];
}
