-- ===== src/Dms/Contingency.antt =====
-- fastapi/dms/contingency.py: `analyze`, the N-1 analysis over the elements in service. The power flow
-- is a function of the edges. A set is a list, and a sum over it adds in the order of the list.
pub mod Loads
pub mod Truthful
use diep_lab.Base.{
  ℕ, ◌+◌, String, Bool, true, false, not, Option, none, some, List, [], ◌∷◌, ◌&&◌, ◌||◌, ◌==◌,
  contains, string_eq, ltb, nat_eqb, if◌then◌else◌,
}
use Prim.Native.String.{compare}
use Prim.Native.Nat.{Ordering}
use diep_lab.Base.Dict.{Dict, lookup}
use diep_lab.Base.Float.{FloatOps}
use diep_lab.Base.Result.{Result, ok, err}
use diep_lab.Dms.Network.{Node, Edge, closed}
use diep_lab.Dms.Search.{Search, found, key_error, out_of_fuel, energized}
use diep_lab.Dms.Restore.{Error, missing_key, no_rounds, minus, Plan, restore}
use diep_lab.Dms.Reconfiguration.{Flow}
use diep_lab.Dms.Contingency.Loads.{
  Demand, customers, gen_kw, classif_load, demanding, total, classify, severity_of,
}

-- An entry of `results`.
pub record Outcome (V : Type 0) : Type 0 where
  pub element : String
  pub element_type : String
  pub lost_load_kw : V
  pub lost_generation_kw : V
  pub lost_customers : ℕ
  pub restored_by : List String
  pub unserved_load_kw : V
  pub unserved_customers : ℕ
  pub unserved_nodes : List String
  pub post_violations : ℕ
  pub converged : Bool
  pub classification : String
  pub severity : V

pub record Analysis (V : Type 0) : Type 0 where
  pub base : Flow V
  pub n1_secure : Bool
  pub contingencies : List (Outcome V)

-- The set of a search, or the error that leaves the analysis.
unfoldable pub set_found : Search → Result Error (List String)
set_found (found live) = ok live
set_found key_error = err missing_key
set_found out_of_fuel = err no_rounds

abbrev pub has_id : String → List Edge → Bool
has_id id [] = false
has_id id (e ∷ es) = e.edge_id == id || has_id id es

-- `cbi[id]["is_closed"] = False`: the last edge with the id, as the dict keeps that one.
unfoldable pub take_out : String → List Edge → List Edge
take_out id [] = []
take_out id (e ∷ es) =
    if has_id id es
    then e ∷ take_out id es
    else if e.edge_id == id
    then record e { is_closed = some false } ∷ es
    else e ∷ es

unfoldable pub candidates : List Edge → List Edge
candidates [] = []
candidates (e ∷ es) =
    let rest = candidates es in
    if closed e && contains ("line" ∷ "transformer" ∷ "switch" ∷ "tie" ∷ []) e.edge_type
    then e ∷ rest
    else rest

-- `sorted` of texts.
abbrev pub precedes : String → String → Bool
precedes a b = elim (compare a b) [ Ordering.gt ↦ false | _ ↦ true ]

unfoldable pub insert_name : String → List String → List String
insert_name a [] = a ∷ []
insert_name a (b ∷ bs) = if precedes a b then a ∷ b ∷ bs else b ∷ insert_name a bs

unfoldable pub sort_names : List String → List String
sort_names [] = []
sort_names (a ∷ as') = insert_name a (sort_names as')

module _ {V : Type 0} ⦃F : FloatOps V⦄ where
  module _ (d : Demand V) where
    -- The entry of one element, from what it loses, its plan, what stays out, and the flow after.
    unfoldable pub outcome_of : Edge → List String → List String → List String → Flow V → Outcome V
    outcome_of ce lost restored_by still_out flow =
        let lost_load = total (classif_load d) lost in
        let unserved_load = total (classif_load d) still_out in
        record {
          element = ce.edge_id;
          element_type = ce.edge_type;
          lost_load_kw = lost_load;
          lost_generation_kw = total (gen_kw d.loads) lost;
          lost_customers = customers d.customers_by_node lost;
          restored_by = restored_by;
          unserved_load_kw = unserved_load;
          unserved_customers = customers d.customers_by_node still_out;
          unserved_nodes = sort_names (demanding d still_out);
          post_violations = flow.violation_count;
          converged = flow.converged;
          classification = classify unserved_load flow.violation_count restored_by;
          severity = severity_of unserved_load flow.violation_count lost_load restored_by;
        }

    module _ (solve : List Edge → Flow V) (nodes : List Node) (edges : List Edge) where
      unfoldable pub after_restore :
          List String
          → Edge
          → List String
          → Plan
          → Result Error (List String)
          → Result Error (Outcome V)
      after_restore base ce lost plan (err e) = err e
      after_restore base ce lost plan (ok live) =
          ok (outcome_of ce lost plan.closed_ties (minus base live) (solve plan.edges))

      unfoldable pub with_plan :
          List String → Edge → List String → Result Error Plan → Result Error (Outcome V)
      with_plan base ce lost (err e) = err e
      with_plan base ce lost (ok plan) =
          after_restore base ce lost plan (set_found (energized nodes plan.edges))

      unfoldable pub with_outage :
          List String → Edge → Result Error (List String) → Result Error (Outcome V)
      with_outage base ce (err e) = err e
      with_outage base ce (ok live) =
          let lost = minus base live in
          with_plan base ce lost (restore nodes (take_out ce.edge_id edges) ce.edge_id lost)

      -- The body of the loop over the candidates.
      unfoldable pub contingency : List String → Edge → Result Error (Outcome V)
      contingency base ce =
          with_outage base ce (set_found (energized nodes (take_out ce.edge_id edges)))

      unfoldable pub and_outcomes :
          Result Error (Outcome V)
          → Result Error (List (Outcome V))
          → Result Error (List (Outcome V))
      and_outcomes (err e) rest = err e
      and_outcomes (ok o) (err e) = err e
      and_outcomes (ok o) (ok os) = ok (o ∷ os)

      unfoldable pub outcomes : List String → List Edge → Result Error (List (Outcome V))
      outcomes base [] = ok []
      outcomes base (ce ∷ ces) = and_outcomes (contingency base ce) (outcomes base ces)

  -- `results.sort(key=severity, reverse=True)`, which keeps the order of equal ones.
  unfoldable pub insert_severe : Outcome V → List (Outcome V) → List (Outcome V)
  insert_severe o [] = o ∷ []
  insert_severe o (p ∷ ps) =
      let rest = insert_severe o ps in if F.lt o.severity p.severity then p ∷ rest else o ∷ p ∷ ps

  unfoldable pub sort_severe : List (Outcome V) → List (Outcome V)
  sort_severe [] = []
  sort_severe (o ∷ os) = insert_severe o (sort_severe os)

  unfoldable pub is_served : Outcome V → Bool
  is_served o = F.is_zero o.unserved_load_kw && nat_eqb o.post_violations 0

  unfoldable pub all_served : List (Outcome V) → Bool
  all_served [] = true
  all_served (o ∷ os) = is_served o && all_served os

  unfoldable pub summary : Flow V → Result Error (List (Outcome V)) → Result Error (Analysis V)
  summary base (err e) = err e
  summary base (ok os) = ok (record {
    base = base;
    n1_secure = all_served (sort_severe os);
    contingencies = sort_severe os;
  })

  unfoldable pub with_base :
      Demand V
      → (List Edge → Flow V)
      → List Node
      → List Edge
      → Result Error (List String)
      → Result Error (Analysis V)
  with_base d solve nodes edges (err e) = err e
  with_base d solve nodes edges (ok base) =
      summary (solve edges) (outcomes d solve nodes edges base (candidates edges))

  -- `analyze`
  unfoldable pub analyze :
      Demand V → (List Edge → Flow V) → List Node → List Edge → Result Error (Analysis V)
  analyze d solve nodes edges = with_base d solve nodes edges (set_found (energized nodes edges))
