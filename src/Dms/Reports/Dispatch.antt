-- ===== src/Dms/Reports/Dispatch.antt =====
-- fastapi/dms/crew_dispatch.py: `recommend`.
pub mod Ranked
use diep_lab.Base.{
  ℕ, suc, ◌+◌, String, Bool, true, false, not, Option, none, some, List, [], ◌∷◌, ◌&&◌, ◌||◌,
  string_eq, ltb, if◌then◌else◌,
}
use diep_lab.Base.Dict.{Dict, lookup}
use diep_lab.Contracts.Measurement.{is_nil, is_nonempty}
use diep_lab.Dms.Reports.{Outage, Contingency, by_element}

pub record Item : Type 0 where
  pub section_node : String
  pub probable_device : Option String
  pub estimated_customers_affected : ℕ
  pub restorable_via_tie : Bool
  pub restoration_path : List String
  -- whether `recommended_action` is dispatch_crew, and not remote_switch
  pub needs_crew : Bool

-- `by_elem.get(eid) if eid else None`
unfoldable pub element_of : Dict String Contingency → Option String → Option Contingency
element_of model none = none
element_of model (some eid) = if is_nonempty eid then lookup eid model else none

unfoldable pub path_of : Option Contingency → List String
path_of none = []
path_of (some n1) = n1.restored_by

unfoldable pub item_of : Dict String Contingency → Outage → Item
item_of model o =
    let path = path_of (element_of model o.probable_device) in
    record {
      section_node = o.section_node;
      probable_device = o.probable_device;
      estimated_customers_affected = o.estimated_customers_affected;
      restorable_via_tie = not (is_nil path);
      restoration_path = path;
      needs_crew = is_nil path;
    }

unfoldable pub items_of : Dict String Contingency → List Outage → List Item
items_of model [] = []
items_of model (o ∷ os) = item_of model o ∷ items_of model os

-- The sort key of `a` is greater than that of `b`.
unfoldable pub outranks : Item → Item → Bool
outranks a b =
    if a.needs_crew
    then not b.needs_crew || ltb b.estimated_customers_affected a.estimated_customers_affected
    else not b.needs_crew && ltb b.estimated_customers_affected a.estimated_customers_affected

-- `items.sort(key=..., reverse=True)`: a stable sort, the greatest key first.
unfoldable pub insert_item : Item → List Item → List Item
insert_item x [] = x ∷ []
insert_item x (y ∷ ys) =
    let later = insert_item x ys in if outranks y x then y ∷ later else x ∷ y ∷ ys

unfoldable pub sort_items : List Item → List Item
sort_items [] = []
sort_items (x ∷ xs) = insert_item x (sort_items xs)

-- `enumerate(items, 1)`
unfoldable pub rank_from : ℕ → List Item → List (ℕ × Item)
rank_from i [] = []
rank_from i (x ∷ xs) = (i, x) ∷ rank_from (suc i) xs

unfoldable pub count_crew : Bool → List Item → ℕ
count_crew crew [] = 0
count_crew crew (x ∷ xs) =
    (if (if crew then x.needs_crew else not x.needs_crew) then 1 else 0) + count_crew crew xs

pub record Ranking : Type 0 where
  pub candidates : List (ℕ × Item)
  pub crew_dispatch_count : ℕ
  pub remote_switch_count : ℕ

-- `recommend`
unfoldable pub rank_outages : List Outage → List Contingency → Ranking
rank_outages outages contingencies =
    let items = sort_items (items_of (by_element contingencies) outages) in
    record {
      candidates = rank_from 1 items;
      crew_dispatch_count = count_crew true items;
      remote_switch_count = count_crew false items;
    }
