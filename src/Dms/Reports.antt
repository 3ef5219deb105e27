-- ===== src/Dms/Reports.antt =====
-- fastapi/dms/outage_validation.py: `cross_check`, and fastapi/dms/crew_dispatch.py: `recommend`. Both
-- read the outages that fastapi/dms/outage_inference.py infers and the contingencies that
-- fastapi/dms/contingency.py lists; an outage's device is its edge id. Fields that are only passed on
-- are left out.
pub mod CrossCheck
pub mod Dispatch
use diep_lab.Base.{ℕ, String, Bool, Option, none, some, List, [], ◌∷◌, string_eq}
use diep_lab.Base.Dict.{Dict, insert}

pub record Outage : Type 0 where
  pub section_node : String
  pub probable_device : Option String
  pub estimated_customers_affected : ℕ

pub record Contingency : Type 0 where
  pub element : String
  pub restored_by : List String
  pub classification : String
  pub lost_customers : ℕ
  pub post_violations : ℕ

-- `{c["element"]: c for c in contingencies}`, from a dict that is there.
unfoldable pub index_onto : Dict String Contingency → List Contingency → Dict String Contingency
index_onto d [] = d
index_onto d (c ∷ cs) = index_onto (insert c.element c d) cs

unfoldable pub by_element : List Contingency → Dict String Contingency
by_element cs = index_onto [] cs
