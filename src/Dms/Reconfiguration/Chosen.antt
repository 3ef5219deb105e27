-- ===== src/Dms/Reconfiguration/Chosen.antt =====
-- `recommend`: what the loop over the combinations has chosen.
use mathlib.Core.Option.{some-injective, none-ne-some}
use diep_lab.Base.{
  ℕ, zero, suc, ◌+◌, ◌^◌, String, ◌≡◌, ◌≢◌, refl, sym, ◌∙◌, ap, subst, Bool, true, false, Option,
  none, some, List, [], ◌∷◌, map, length, length-append, length-map, string_eq, All, arith, inl,
  inr, Bool-cases,
}
use diep_lab.Base.Dict.{Dict}
use diep_lab.Base.Float.{FloatOps}
use diep_lab.Dms.Network.{Node, Edge, node_ids}
use diep_lab.Dms.Network.Links.{and_then-eq-some}
use diep_lab.Dms.Search.Total.{AreWired}
use diep_lab.Dms.Reconfiguration.{
  Flow, Metrics, Best, Tally, Recommendation, edge_ids, reconfigurable, states, combos, combo_map,
  assign, count_changes, evaluate, is_better, tally, consider, recommend,
}
use diep_lab.Dms.Reconfiguration.Feasible.{IsServed, evaluate-IsServed, AreWired-assign}

length-combos : (n : ℕ) → length (combos n) ≡ 2 ^ n
unfolding combos
length-combos zero = refl
length-combos (suc n) = omega (
  arith,
  length-append (map (λ (c : List Bool). false ∷ c) (combos n)) (map (λ c. true ∷ c) (combos n)),
  length-map (λ (c : List Bool). false ∷ c) (combos n),
  length-map (λ (c : List Bool). true ∷ c) (combos n),
  length-combos n,
)

module _ {V : Type 0} ⦃F : FloatOps V⦄ (solve : List Node → List Edge → Flow V) (nodes : List Node)
    (edges : List Edge) where
  -- The configuration has been evaluated, with these metrics.
  abbrev pub IsEvaluated : Best V → Type 0
  IsEvaluated b = evaluate solve nodes (assign b.combo edges) ≡ some (some b.metrics)

  abbrev IsInfeasible : List String → List Bool → Type 0
  IsInfeasible ids c = evaluate solve nodes (assign (combo_map ids c) edges) ≡ some none

  -- The loop from the state `t` to the state `t'`.
  record IsRun (ids : List String) (cs : List (List Bool)) (t t' : Tally V) : Type 0 where
    counted : t'.evaluated ≡ t.evaluated + length cs
    chosen :
        ((b : Best V) → t.best ≡ some b → IsEvaluated b)
        → (b : Best V) → t'.best ≡ some b
        → IsEvaluated b
    nothing : t'.best ≡ none → (t.best ≡ none) × All (IsInfeasible ids) cs

  has_best :
      (m : Metrics V) (changes : ℕ) (o : Option (Best V)) → o ≡ none → is_better m changes o ≢ false
  unfolding is_better
  has_best m changes none e w = cc
  has_best m changes (some b) e w = cc

  -- One round.
  IsRun-tally :
      (ids : List String) (c : List Bool) (changes : ℕ) (m : Option (Metrics V)) (t : Tally V)
      → evaluate solve nodes (assign (combo_map ids c) edges) ≡ some m
      → IsRun ids (c ∷ []) t (tally (combo_map ids c) changes m t)
  unfolding tally
  IsRun-tally ids c changes none t h = record {
    counted = omega arith;
    chosen = λ given b e. given b e;
    nothing = λ e. (e, (h, tt));
  }
  IsRun-tally ids c changes (some m) t h = elim (Bool-cases (is_better m changes t.best)) [
    | inl better ↦ record {
      counted = omega arith;
      chosen = λ given b e. subst IsEvaluated (some-injective _ _ (rw better at e)) h;
      nothing = λ e. absurd (none-ne-some _ (sym (rw better at e)));
    }
    | inr worse ↦ record {
      counted = omega arith;
      chosen = λ given b e. given b (rw worse at e);
      nothing = λ e. absurd (has_best m changes t.best (rw worse at e) worse);
    }
  ]

  consider-IsRun :
      (ids : List String) (current : Dict String Bool) (cs : List (List Bool)) (t t' : Tally V)
      → consider solve nodes edges ids current cs t ≡ some t'
      → IsRun ids cs t t'
  unfolding consider
  consider-IsRun ids current [] t t' h =
      let same = some-injective _ _ h in
      record {
        counted = omega (arith, ap (λ (x : Tally V). x.evaluated) same);
        chosen = λ given b e. given b (ap (λ (x : Tally V). x.best) same ∙ e);
        nothing = λ e. (ap (λ (x : Tally V). x.best) same ∙ e, tt);
      }
  consider-IsRun ids current (c ∷ cs) t t' h =
      let combo = combo_map ids c in
      let changes = count_changes ids combo current in
      let (m, evaluated, rest) = and_then-eq-some (evaluate solve nodes (assign combo edges)) _ h in
      let first = IsRun-tally ids c changes m t evaluated in
      let others = consider-IsRun ids current cs (tally combo changes m t) t' rest in
      record {
        counted = omega (arith, first.counted, others.counted);
        chosen = λ given b e. others.chosen (first.chosen given) b e;
        nothing = λ e.
            let (before, all) = others.nothing e in
            let (empty, one) = first.nothing before in (empty, (one.0, all));
      }

  -- What a recommendation tells.
  pub record IsChosen (r : Recommendation V) : Type 0 where
    pub switches : r.switches ≡ edge_ids (reconfigurable edges)
    pub exhaustive : r.evaluated ≡ 2 ^ length r.switches
    pub evaluated : (b : Best V) → r.recommended ≡ some b → IsEvaluated b
    pub served : (b : Best V) → r.recommended ≡ some b → IsServed nodes (assign b.combo edges)
    pub infeasible :
        r.recommended ≡ none
        → All
            (λ c. evaluate solve nodes (assign (combo_map r.switches c) edges) ≡ some none)
            (combos (length r.switches))

  pub recommend-IsChosen :
      (r : Recommendation V)
      → AreWired (node_ids nodes) edges
      → recommend solve nodes edges ≡ some r
      → IsChosen r
  unfolding recommend
  recommend-IsChosen r wired h =
      let ids = edge_ids (reconfigurable edges) in
      let (current, read, h1) = and_then-eq-some (states (reconfigurable edges)) _ h in
      let (now, _, h2) = and_then-eq-some (evaluate solve nodes edges) _ h1 in
      let (t, ran, h3) =
        and_then-eq-some
          (consider solve nodes edges ids current (combos (length ids))
            (record { best = none; evaluated = 0; feasible_count = 0 }))
          _ h2 in
      let run = consider-IsRun ids current (combos (length ids)) _ t ran in
      let chosen = run.chosen (λ b e. absurd (none-ne-some b e)) in
      subst IsChosen (some-injective _ _ h3) (record {
        switches = refl;
        exhaustive = omega (arith, run.counted, length-combos (length ids));
        evaluated = chosen;
        served = λ b e.
            evaluate-IsServed solve nodes (assign b.combo edges) b.metrics
              (AreWired-assign (node_ids nodes) b.combo edges wired) (chosen b e);
        infeasible = λ e. (run.nothing e).1;
      })
