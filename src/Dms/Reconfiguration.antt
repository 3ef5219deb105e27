-- ===== src/Dms/Reconfiguration.antt =====
-- fastapi/dms/reconfiguration.py: `_reconfigurable`, `_radial_feasible`, `_evaluate`, `recommend`.
-- The power flow of fastapi/dms/powerflow.py is a parameter. Rounded percentages are left out, and an
-- edge is found by its id, which is unique in the table.
pub mod Feasible
pub mod Chosen
use diep_lab.Base.{
  ℕ, zero, suc, ◌+◌, String, Bool, true, false, not, Option, none, some, List, [], ◌∷◌, ◌++◌, ◌&&◌,
  ◌||◌, ◌==◌, contains, string_eq, map, length, ltb, if◌then◌else◌,
}
use diep_lab.Base.Dict.{Dict, lookup, insert}
use diep_lab.Base.Float.{FloatOps}
use diep_lab.Contracts.Measurement.{default, is_nil}
use diep_lab.Dms.Network.{Node, Edge, node_ids, sources, and_then}
use diep_lab.Dms.Search.{Search, found, key_error, out_of_fuel, energized, is_radial}

-- The result of `pf.solve`, as far as it is read.
pub record Flow (V : Type 0) : Type 0 where
  pub converged : Bool
  pub total_loss_kw : V
  pub violation_count : ℕ

pub record Metrics (V : Type 0) : Type 0 where
  pub loss_kw : V
  pub violations : ℕ
  pub switch_state : Dict String Bool

abbrev pub is_reconfigurable : Edge → Bool
is_reconfigurable e =
    default false e.is_switchable
    && (contains ("switch" ∷ "tie" ∷ []) e.edge_type
        && not (default "" e.role == "islanding_breaker"))

-- `_reconfigurable`
unfoldable pub reconfigurable : List Edge → List Edge
reconfigurable [] = []
reconfigurable (e ∷ es) =
    let rest = reconfigurable es in if is_reconfigurable e then e ∷ rest else rest

abbrev pub edge_ids : List Edge → List String
edge_ids [] = []
edge_ids (e ∷ es) = e.edge_id ∷ edge_ids es

-- Every load and every meter is energized.
unfoldable pub all_served : List Node → List String → Bool
all_served [] live = true
all_served (n ∷ ns) live =
    (not (contains ("load" ∷ "meter" ∷ []) n.node_type) || contains live n.node_id)
    && all_served ns live

unfoldable pub feasible_at : List Node → List Edge → Search → Option (Bool × List String)
feasible_at nodes edges key_error = none
feasible_at nodes edges out_of_fuel = none
feasible_at nodes edges (found live) =
    some (is_radial nodes edges live && all_served nodes live, live)

-- `_radial_feasible`, with `none` for KeyError.
unfoldable pub radial_feasible : List Node → List Edge → Option (Bool × List String)
radial_feasible nodes edges =
    if is_nil (sources nodes)
    then some (false, [])
    else feasible_at nodes edges (energized nodes edges)

-- `{e["edge_id"]: bool(e["is_closed"]) for e in switches}`; `is_closed` must be there.
unfoldable pub states : List Edge → Option (Dict String Bool)
states [] = some []
states (e ∷ es) = and_then e.is_closed (λ b. and_then (states es) (λ d. some ((e.edge_id, b) ∷ d)))

-- `itertools.product([False, True], repeat=n)`
unfoldable pub combos : ℕ → List (List Bool)
combos zero = [] ∷ []
combos (suc n) = map (λ c. false ∷ c) (combos n) ++ map (λ c. true ∷ c) (combos n)

-- `dict(zip(ids, combo))`
unfoldable pub combo_map : List String → List Bool → Dict String Bool
combo_map (i ∷ ids) (b ∷ bs) = (i, b) ∷ combo_map ids bs
combo_map [] bs = []
combo_map (i ∷ ids) [] = []

-- The copy of the edges with the switches as the combination tells.
unfoldable pub assign : Dict String Bool → List Edge → List Edge
assign combo [] = []
assign combo (e ∷ es) =
    (elim (lookup e.edge_id combo) [ none ↦ e | some b ↦ record e { is_closed = some b } ])
    ∷ assign combo es

-- `a != b` of two values that may be None.
unfoldable pub differs : Option Bool → Option Bool → Bool
differs none none = false
differs none (some b) = true
differs (some a) none = true
differs (some a) (some b) = if a then not b else b

unfoldable pub count_changes : List String → Dict String Bool → Dict String Bool → ℕ
count_changes [] combo current = 0
count_changes (i ∷ ids) combo current =
    (if differs (lookup i combo) (lookup i current) then 1 else 0) + count_changes ids combo current

pub record Best (V : Type 0) : Type 0 where
  pub metrics : Metrics V
  pub combo : Dict String Bool
  pub changes : ℕ

-- The variables of the loop.
pub record Tally (V : Type 0) : Type 0 where
  pub best : Option (Best V)
  pub evaluated : ℕ
  pub feasible_count : ℕ

pub record Recommendation (V : Type 0) : Type 0 where
  pub switches : List String
  pub evaluated : ℕ
  pub feasible_count : ℕ
  pub current : Option (Metrics V)
  pub recommended : Option (Best V)
  pub switching_plan : List (String × Bool)

-- The switches to be moved; `true` is the action close.
unfoldable pub plan_of : List String → Dict String Bool → Dict String Bool → List (String × Bool)
plan_of [] combo current = []
plan_of (i ∷ ids) combo current =
    let rest = plan_of ids combo current in
    elim (lookup i combo) [
      | none ↦ rest
      | some b ↦ if differs (some b) (lookup i current) then (i, b) ∷ rest else rest
    ]

unfoldable pub plan_from :
    {V : Type 0} → List String → Option (Best V) → Dict String Bool → List (String × Bool)
plan_from ids none current = []
plan_from ids (some b) current = plan_of ids b.combo current

module _ {V : Type 0} where
  unfoldable pub metrics_of : List Edge → Flow V → Option (Option (Metrics V))
  metrics_of candidate flow =
      if flow.converged
      then and_then (states (reconfigurable candidate)) (λ s. some (
          some (record {
            loss_kw = flow.total_loss_kw;
            violations = flow.violation_count;
            switch_state = s;
          })))
      else some none

module _ {V : Type 0} (solve : List Node → List Edge → Flow V) (nodes : List Node) where
  -- `_evaluate`: the outer `none` is KeyError, the inner one the None of an infeasible configuration.
  unfoldable pub evaluate : List Edge → Option (Option (Metrics V))
  evaluate candidate =
      and_then (radial_feasible nodes candidate)
        (λ r. if r.0 then metrics_of candidate (solve nodes candidate) else some none)

module _ {V : Type 0} ⦃F : FloatOps V⦄ where
  -- The comparison with the best configuration so far; eps is 1e-6.
  unfoldable pub is_better : Metrics V → ℕ → Option (Best V) → Bool
  is_better m changes none = true
  is_better m changes (some b) =
      F.lt m.loss_kw (F.sub b.metrics.loss_kw (F.decimal 1 6))
      || (F.le (F.abs (F.sub m.loss_kw b.metrics.loss_kw)) (F.decimal 1 6) && ltb changes b.changes)

  unfoldable pub tally : Dict String Bool → ℕ → Option (Metrics V) → Tally V → Tally V
  tally combo changes none t = record t { evaluated = suc t.evaluated }
  tally combo changes (some m) t = record {
    best =
        if is_better m changes t.best
        then some (record { metrics = m; combo = combo; changes = changes })
        else t.best;
    evaluated = suc t.evaluated;
    feasible_count = suc t.feasible_count;
  }

module _ {V : Type 0} ⦃F : FloatOps V⦄ (solve : List Node → List Edge → Flow V) (nodes : List Node)
    (edges : List Edge) where
  -- The loop over the combinations.
  unfoldable pub consider :
      List String → Dict String Bool → List (List Bool) → Tally V → Option (Tally V)
  consider ids current [] t = some t
  consider ids current (c ∷ cs) t =
      let combo = combo_map ids c in
      and_then (evaluate solve nodes (assign combo edges))
        (λ m. consider ids current cs (tally combo (count_changes ids combo current) m t))

  -- `recommend`
  unfoldable pub recommend : Option (Recommendation V)
  recommend =
      let ids = edge_ids (reconfigurable edges) in
      and_then (states (reconfigurable edges)) (λ current.
        and_then (evaluate solve nodes edges) (λ now.
          and_then
            (consider ids current (combos (length ids))
              (record { best = none; evaluated = 0; feasible_count = 0 }))
            (λ t. some (record {
              switches = ids;
              evaluated = t.evaluated;
              feasible_count = t.feasible_count;
              current = now;
              recommended = t.best;
              switching_plan = plan_from ids t.best current;
            }))))
