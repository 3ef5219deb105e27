-- ===== src/Mdm/Units.antt =====
-- services/mdm/units.py: `UnitNormalizer`.
pub mod Conversion
pub mod Coverage
use diep_lab.Base.{
  String, Bool, true, false, Option, none, some, List, [], ◌∷◌, ◌==◌, ◌&&◌, ◌||◌, string_eq,
  pair_eq, if◌then◌else◌,
}
use diep_lab.Base.Dict.{Dict, lookup}
use diep_lab.Base.Float.{FloatOps}
use diep_lab.Contracts.Measurement.{Measurement}

abbrev pub canonical_units : Dict String String
canonical_units =
    ("voltage", "V")
    ∷ ("current", "A")
    ∷ ("power_kw", "kW")
    ∷ ("frequency", "Hz")
    ∷ ("active_power", "kW")
    ∷ ("energy_import_kwh", "kWh")
    ∷ ("energy_export_kwh", "kWh")
    ∷ ("temperature", "C")
    ∷ []

module _ {V : Type 0} ⦃F : FloatOps V⦄ where
  -- `_CONVERSIONS`: (measurement_type, from_unit) ↦ factor
  abbrev pub conversions : Dict (String × String) V
  conversions =
      (("voltage", "kV"), F.decimal 1000 0)
      ∷ (("current", "mA"), F.decimal 1 3)
      ∷ (("power_kw", "W"), F.decimal 1 3)
      ∷ (("power_kw", "MW"), F.decimal 1000 0)
      ∷ (("active_power", "W"), F.decimal 1 3)
      ∷ (("active_power", "MW"), F.decimal 1000 0)
      ∷ (("energy_import_kwh", "Wh"), F.decimal 1 3)
      ∷ (("energy_import_kwh", "MWh"), F.decimal 1000 0)
      ∷ (("energy_export_kwh", "Wh"), F.decimal 1 3)
      ∷ (("energy_export_kwh", "MWh"), F.decimal 1000 0)
      ∷ []

pub record ConversionRecord (V : Type 0) : Type 0 where
  pub measurement_type : String
  pub original_unit : String
  pub original_value : V
  pub canonical_unit : String
  pub canonical_value : V

module _ {V : Type 0} ⦃F : FloatOps V⦄ where
  -- (value - 32.0) * 5.0 / 9.0
  unfoldable pub fahrenheit : V → V
  fahrenheit v = F.div (F.mul (F.sub v (F.decimal 320 1)) (F.decimal 50 1)) (F.decimal 90 1)

  -- The value in the canonical unit, or `none` for a unit that the table does not know.
  unfoldable pub converted_value : String → String → V → Option V
  converted_value t u v =
      if t == "temperature" && (u == "F" || u == "K")
      then some (if u == "F" then fahrenheit v else F.sub v (F.decimal 27315 2))
      else elim (lookup (t, u) conversions) [ none ↦ none | some factor ↦ some (F.mul v factor) ]

  unfoldable pub convert :
      String → Option V → Measurement V → Measurement V × Option (ConversionRecord V)
  convert canonical none m = (m, none)
  convert canonical (some v) m = (
    record m { unit = canonical; value = v },
    some (record {
      measurement_type = m.measurement_type;
      original_unit = m.unit;
      original_value = m.value;
      canonical_unit = canonical;
      canonical_value = v;
    }),
  )

  unfoldable pub normalize_to :
      Option String → Measurement V → Measurement V × Option (ConversionRecord V)
  normalize_to none m = (m, none)
  normalize_to (some canonical) m =
      if m.unit == canonical
      then (m, none)
      else convert canonical (converted_value m.measurement_type m.unit m.value) m

  -- `UnitNormalizer.normalize`
  unfoldable pub normalize : Measurement V → Measurement V × Option (ConversionRecord V)
  normalize m = normalize_to (lookup m.measurement_type canonical_units) m
