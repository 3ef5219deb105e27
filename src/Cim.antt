-- ===== src/Cim.antt =====
-- services/cim/units.py: the unit registry of the CIM service.
use diep_lab.Base.{
  ℕ, ◌*◌, String, ◌≡◌, ◌≢◌, refl, false, Option, none, some, [], ◌∷◌, string_eq, arith,
}
use diep_lab.Base.Dict.{Dict, lookup}
use diep_lab.Base.Float.{FloatOps}
use diep_lab.Base.Result.{Result, ok, err, or_raise, ◌>>=◌}
use diep_lab.Contracts.Measurement.{Measurement}
use diep_lab.Mdm.Units
use diep_lab.Mdm.Units.{normalize}
use diep_lab.Mdm.Units.Coverage.{normalize-canonical}
use diep_lab.Mdm.Validation.{known_units, is_bad_unit}

pub data Error : Type 0 where
  unit_error : Error

-- canonical unit ↦ (CIM unit_symbol, CIM unit_multiplier, by which power of ten it is scaled)
abbrev pub canonical_units : Dict String (String × (String × ℕ))
canonical_units =
    ("V", ("V", ("none", 1)))
    ∷ ("A", ("A", ("none", 1)))
    ∷ ("kW", ("W", ("k", 1000)))
    ∷ ("Hz", ("Hz", ("none", 1)))
    ∷ ("kWh", ("Wh", ("k", 1000)))
    ∷ ("C", ("Cel", ("none", 1)))
    ∷ ("%", ("PerCent", ("none", 1)))
    ∷ ("", ("1", ("none", 1)))
    ∷ []

abbrev pub measurement_type_units : Dict String String
measurement_type_units =
    ("voltage", "V")
    ∷ ("current", "A")
    ∷ ("power_kw", "kW")
    ∷ ("frequency", "Hz")
    ∷ ("solar_kw", "kW")
    ∷ ("battery_soc", "%")
    ∷ ("grid_import_kw", "kW")
    ∷ ("grid_export_kw", "kW")
    ∷ ("power_factor", "")
    ∷ ("energy_import_kwh", "kWh")
    ∷ ("energy_export_kwh", "kWh")
    ∷ ("temperature", "C")
    ∷ ("soh", "%")
    ∷ []

-- `to_cim_unit`
unfoldable pub to_cim_unit : String → Result Error (String × (String × ℕ))
to_cim_unit unit = or_raise (lookup unit canonical_units) unit_error

-- `base_unit_value`
unfoldable pub base_unit_value : {V : Type 0} ⦃F : FloatOps V⦄ → V → String → Result Error V
base_unit_value ⦃F⦄ value unit =
    to_cim_unit unit >>= λ u. ok (F.mul value (F.decimal (u.1.1 * 10) 1))

-- The registry has the unit of every measurement type of the table.
typed_units :
    (t u : String) → lookup t measurement_type_units ≡ some u → lookup u canonical_units ≢ none
unfolding lookup
typed_units t u h = ground arith

-- The registry has every canonical unit of the meter data management.
mdm_units :
    (t c : String) → lookup t Units.canonical_units ≡ some c → lookup c canonical_units ≢ none
unfolding lookup
mdm_units t c h = ground arith

-- A measurement whose type has a canonical unit in the meter data management, and whose unit passes
-- the validation engine, has a value in CIM base units after the unit stage; so has every
-- measurement type of the CIM table in the unit of that table.
pub base_unit_value-returns :
    {V : Type 0} ⦃F : FloatOps V⦄
    → ((m : Measurement V) (c : String)
        → lookup m.measurement_type Units.canonical_units ≡ some c
        → is_bad_unit (lookup m.measurement_type known_units) m.unit ≡ false
        → base_unit_value (normalize m).0.value (normalize m).0.unit ≢ err unit_error)
      × ((v : V) (t u : String)
          → lookup t measurement_type_units ≡ some u
          → base_unit_value v u ≢ err unit_error)
unfolding base_unit_value to_cim_unit or_raise ◌>>=◌
base_unit_value-returns = (
  λ m c known fine. rw (normalize-canonical m c known fine) (
      returns (normalize m).0.value (lookup c canonical_units)
        (mdm_units m.measurement_type c known)),
  λ v t u h. returns v (lookup u canonical_units) (typed_units t u h),
)
  where
    returns :
        {V : Type 0} ⦃F : FloatOps V⦄ (v : V) (o : Option (String × (String × ℕ)))
        → o ≢ none
        → (or_raise o unit_error >>= λ u. ok (F.mul v (F.decimal (u.1.1 * 10) 1))) ≢ err unit_error
    returns v none h = λ e. absurd (h refl)
    returns v (some u) h = λ e. cc
