-- ===== src/Tests/Dms.antt =====
-- Runs of the network model.
use diep_lab.Base.{
  ℕ, ◌+◌, ◌≡◌, ◌↔◌, refl, String, true, false, none, some, List, [], ◌∷◌, contains, string_eq,
  if◌then◌else◌,
}
use diep_lab.Base.Int.{ℤ, pos}
use diep_lab.Base.Result.{ok}
use diep_lab.Base.Dict.{lookup, insert}
use diep_lab.Dms.Network.{
  Node, Edge, closed, node_ids, sources, Adjacency, empty_adjacency, append_to, link, link_closed,
}
use diep_lab.Dms.Search.{
  found, visit, set_of, search, search_from, energized, count_inside, is_radial,
}
use diep_lab.Dms.Search.Closure.{IsReached}
use diep_lab.Dms.Search.Total.{AreWired}
use diep_lab.Dms.Search.Reach.{energized-IsReached}
use diep_lab.Dms.Restore.{
  Plan, set_closed, openable, meets, minus, judge, try_tie, sweep_rest, sweep, restore_rounds,
  restore,
}
use diep_lab.Dms.Restore.Step.{IsSound}
use diep_lab.Dms.Restore.Sweep.{restore-IsSound}
use diep_lab.Dms.Reconfiguration.{
  Flow, Recommendation, reconfigurable, all_served, feasible_at, radial_feasible, states, combos,
  combo_map, assign, differs, count_changes, plan_of, plan_from, metrics_of, evaluate, is_better,
  tally, consider, recommend,
}
use diep_lab.Dms.Reconfiguration.Chosen.{IsChosen, recommend-IsChosen}
use diep_lab.Base.{All}
use diep_lab.Dms.Reports.{Outage, Contingency, by_element}
use diep_lab.Dms.Reports.CrossCheck.{cross_check}
use diep_lab.Dms.Reports.CrossCheck.Consistent.{IsAgreeing, cross_check-consistent}
use diep_lab.Dms.Reports.Dispatch.{items_of, rank_outages}
use diep_lab.Dms.Reports.Dispatch.Ranked.{IsRanking, rank_outages-IsRanking}
use diep_lab.Dms.Contingency
use diep_lab.Dms.Contingency.Loads.{Demand}
use diep_lab.Dms.Contingency.{Analysis, candidates, analyze}
use diep_lab.Dms.Contingency.Truthful.{AreTruthful, analyze-AreTruthful}
use mathlib.Core.List.{Perm}
use diep_lab.Tests.Samples.{fixed_point}
use diep_lab.Dms.Network.Links.{linked}

abbrev edges : List Edge
edges =
    record {
      edge_id = "e1";
      from_node = "a";
      to_node = "b";
      edge_type = "line";
      is_closed = none;
      is_switchable = none;
      role = none;
    }
    ∷ record {
      edge_id = "e2";
      from_node = "a";
      to_node = "c";
      edge_type = "tie";
      is_closed = some false;
      is_switchable = some true;
      role = none;
    }
    ∷ []

abbrev adjacency : Adjacency
adjacency = ("c", []) ∷ ("b", "a" ∷ []) ∷ ("a", "b" ∷ []) ∷ []

edges_linked : link_closed edges (empty_adjacency ("a" ∷ "b" ∷ "c" ∷ [])) ≡ some adjacency
unfolding link_closed link append_to empty_adjacency lookup insert string_eq
edges_linked = refl

abbrev nodes : List Node
nodes =
    record { node_id = "a"; node_type = "substation" }
    ∷ record { node_id = "b"; node_type = "load" }
    ∷ record { node_id = "c"; node_type = "meter" }
    ∷ []

edges-AreWired : AreWired (node_ids nodes) edges
unfolding string_eq
edges-AreWired = ((refl, refl), ((refl, refl), tt))

energized-IsReached_example :
    (live : List String) × (energized nodes edges ≡ found live)
    × ((x : String) → (contains live x ≡ true) ↔ IsReached (sources nodes) (linked edges) x)
energized-IsReached_example = energized-IsReached nodes edges edges-AreWired

-- The meter is lost, and the tie to it can be closed.
restore-IsSound_example :
    (p : Plan) × (restore nodes edges "e9" ("c" ∷ []) ≡ ok p) × IsSound nodes "e9" edges p
restore-IsSound_example = restore-IsSound nodes edges "e9" ("c" ∷ []) edges-AreWired

tie_closed :
    restore nodes edges "e9" ("c" ∷ [])
    ≡ ok (record {
      edges = set_closed 1 true edges;
      closed_ties = "e2" ∷ [];
      lost = [];
      progress = true;
    })
unfolding restore restore_rounds sweep sweep_rest try_tie judge openable set_closed meets minus
    is_radial count_inside energized search_from search visit set_of sources link_closed link
    append_to empty_adjacency lookup insert string_eq
tie_closed = refl

-- A power flow whose loss is the number of the closed edges.
abbrev count_closed : List Edge → ℕ
count_closed [] = 0
count_closed (e ∷ es) = (if closed e then 1 else 0) + count_closed es

abbrev flow : List Node → List Edge → Flow ℤ
flow ns es = record { converged = true; total_loss_kw = pos (count_closed es); violation_count = 0 }

abbrev advice : Recommendation ℤ
advice = record {
  switches = "e2" ∷ [];
  evaluated = 2;
  feasible_count = 1;
  current = none;
  recommended = some (record {
    metrics = record { loss_kw = pos 2; violations = 0; switch_state = ("e2", true) ∷ [] };
    combo = ("e2", true) ∷ [];
    changes = 1;
  });
  switching_plan = ("e2", true) ∷ [];
}

advice_given : recommend flow nodes edges ≡ some advice
unfolding recommend consider tally is_better evaluate metrics_of states reconfigurable combos
    combo_map assign differs count_changes plan_of plan_from radial_feasible feasible_at all_served
    fixed_point set_closed is_radial count_inside energized search_from search visit set_of sources
    link_closed link append_to empty_adjacency lookup insert string_eq
advice_given = refl

recommend-IsChosen_example : IsChosen flow nodes edges advice
recommend-IsChosen_example = recommend-IsChosen flow nodes edges advice edges-AreWired advice_given

abbrev outages : List Outage
outages =
    record { section_node = "b"; probable_device = some "e1"; estimated_customers_affected = 5 }
    ∷ record { section_node = "c"; probable_device = some "e2"; estimated_customers_affected = 3 }
    ∷ record { section_node = "a"; probable_device = none; estimated_customers_affected = 9 }
    ∷ []

abbrev contingencies : List Contingency
contingencies =
    record {
      element = "e1";
      restored_by = "e2" ∷ [];
      classification = "partial";
      lost_customers = 6;
      post_violations = 0;
    }
    ∷ []

cross_check-consistent_example :
    ((cross_check 1 outages contingencies).consistent ≡ true)
    ↔ All
        (λ o.
          IsAgreeing 1 (by_element contingencies) o.estimated_customers_affected o.probable_device)
        outages
cross_check-consistent_example = cross_check-consistent 1 outages contingencies

rank_outages-IsRanking_example :
    IsRanking (items_of (by_element contingencies) outages) (rank_outages outages contingencies)
rank_outages-IsRanking_example = rank_outages-IsRanking outages contingencies

abbrev demand : Demand ℤ
demand = record {
  loads = ("b", pos 2000000 ∷ []) ∷ [];
  customers_by_node = ("c", 3) ∷ [];
  load_floor = [];
}

analyze-AreTruthful_example :
    (a : Analysis ℤ) × (analyze demand (flow nodes) nodes edges ≡ ok a)
    × ((os : List (Contingency.Outcome ℤ)) × Perm os a.contingencies
        × AreTruthful demand (flow nodes) nodes edges (candidates edges) os)
analyze-AreTruthful_example = analyze-AreTruthful demand (flow nodes) nodes edges edges-AreWired
