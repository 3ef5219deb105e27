-- ===== src/Dms/Reports/CrossCheck.antt =====
-- fastapi/dms/outage_validation.py: `cross_check`.
pub mod Consistent
use diep_lab.Base.{
  ℕ, ◌+◌, String, Bool, true, false, not, Option, none, some, List, [], ◌∷◌, ◌++◌, ◌||◌, ◌==◌,
  contains, string_eq, length, ltb, if◌then◌else◌,
}
use diep_lab.Base.Dict.{Dict, lookup}
use diep_lab.Contracts.Measurement.{is_nil}
use diep_lab.Dms.Reports.{Outage, Contingency, by_element}

abbrev pub count_mismatch : String
count_mismatch = "customer_count_mismatch"

abbrev pub not_in_model : String
not_in_model = "inferred_device_not_in_n1_model"

-- The flag, where the test holds.
abbrev pub flag_if : Bool → String → List String
flag_if test flag = if test then flag ∷ [] else []

-- `abs(a - b) > tol`
abbrev pub differ_by : ℕ → ℕ → ℕ → Bool
differ_by tol a b = ltb (b + tol) a || ltb (a + tol) b

unfoldable pub model_flags : ℕ → ℕ → Contingency → List String
model_flags tol customers n1 =
    flag_if (differ_by tol customers n1.lost_customers) count_mismatch
    ++ (flag_if (not (is_nil n1.restored_by)) "restorable_via_tie"
        ++ (flag_if (contains ("unserved" ∷ "partial" ∷ []) n1.classification)
              "n1_confirms_unserved"
            ++ flag_if (ltb 0 n1.post_violations) "post_contingency_violation"))

unfoldable pub device_flags : ℕ → ℕ → Option Contingency → List String
device_flags tol customers none = not_in_model ∷ []
device_flags tol customers (some n1) = model_flags tol customers n1

-- The contingency of the device, where there is a device and the model has it.
unfoldable pub found_element : Dict String Contingency → Option String → Option Contingency
found_element model none = none
found_element model (some eid) = lookup eid model

unfoldable pub flags_of : ℕ → Dict String Contingency → ℕ → Option String → List String
flags_of tol model customers none = "whole_feeder_outage_no_single_element" ∷ []
flags_of tol model customers (some eid) = device_flags tol customers (lookup eid model)

pub record Check : Type 0 where
  pub section_node : String
  pub inferred_device : Option String
  pub inferred_customers : ℕ
  pub n1 : Option Contingency
  pub flags : List String
  pub mismatch : Bool

-- `any(f in (...) for f in flags)`
unfoldable pub is_mismatch : List String → Bool
is_mismatch [] = false
is_mismatch (f ∷ fs) = (f == count_mismatch || f == not_in_model) || is_mismatch fs

unfoldable pub check_of : ℕ → Dict String Contingency → Outage → Check
check_of tol model o =
    let flags = flags_of tol model o.estimated_customers_affected o.probable_device in
    record {
      section_node = o.section_node;
      inferred_device = o.probable_device;
      inferred_customers = o.estimated_customers_affected;
      n1 = found_element model o.probable_device;
      flags = flags;
      mismatch = is_mismatch flags;
    }

unfoldable pub checks_of : ℕ → Dict String Contingency → List Outage → List Check
checks_of tol model [] = []
checks_of tol model (o ∷ os) = check_of tol model o ∷ checks_of tol model os

-- `[c for c in checks if c["mismatch"]]`
unfoldable pub mismatches_of : List Check → List Check
mismatches_of [] = []
mismatches_of (c ∷ cs) = let rest = mismatches_of cs in if c.mismatch then c ∷ rest else rest

pub record Report : Type 0 where
  pub checks : List Check
  pub consistent : Bool
  pub mismatch_count : ℕ
  pub mismatches : List Check

-- `cross_check`
unfoldable pub cross_check : ℕ → List Outage → List Contingency → Report
cross_check tol outages contingencies =
    let checks = checks_of tol (by_element contingencies) outages in
    record {
      checks = checks;
      consistent = is_nil (mismatches_of checks);
      mismatch_count = length (mismatches_of checks);
      mismatches = mismatches_of checks;
    }
