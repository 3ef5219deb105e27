-- ===== src/Dms/Contingency/Truthful.antt =====
-- What the N-1 analysis says of each element, against the network.
use mathlib.Core.List.{Perm}
use mathlib.Core.List.Perm
use diep_lab.Base.{
  String, Bool, true, not, List, [], ◌∷◌, ◌&&◌, ◌||◌, ◌≡◌, ◌↔◌, inl, inr, refl, contains, string_eq,
  ◌==◌, Bool-cases, arith,
}
use diep_lab.Base.Float.{FloatOps}
use diep_lab.Base.Result.{ok}
use diep_lab.Dms.Network.{Node, Edge, node_ids, sources}
use diep_lab.Dms.Network.Links.{linked}
use diep_lab.Dms.Search.Closure.{IsReached}
use diep_lab.Dms.Search.Total.{AreWired}
use diep_lab.Dms.Search.Reach.{energized-IsReached}
use diep_lab.Dms.Restore.{minus, Plan}
use diep_lab.Dms.Restore.Step.{IsSound}
use diep_lab.Dms.Restore.Sweep.{restore-IsSound}
use diep_lab.Dms.Reconfiguration.{Flow}
use diep_lab.Dms.Contingency.Loads.{Demand, is_demand, demanding}
use diep_lab.Dms.Contingency.{
  Outcome, Analysis, set_found, has_id, take_out, candidates, insert_name, sort_names, outcome_of,
  after_restore, with_plan, with_outage, contingency, and_outcomes, outcomes, insert_severe,
  sort_severe, all_served, summary, with_base, analyze,
}

contains-minus :
    (xs ys : List String) (x : String)
    → contains (minus xs ys) x ≡ (contains xs x && not (contains ys x))
unfolding minus
contains-minus [] ys x = refl
contains-minus (z ∷ xs) ys x = elim (string_eq.dec x z) [
  | yes same ↦ rw same (ground (arith, contains-minus xs ys z))
  | no other ↦ ground (arith, contains-minus xs ys x)
]

contains-insert_name :
    (a : String) (bs : List String) (x : String)
    → contains (insert_name a bs) x ≡ (x == a || contains bs x)
unfolding insert_name
contains-insert_name a [] x = refl
contains-insert_name a (b ∷ bs) x = ground (arith, contains-insert_name a bs x)

contains-sort_names : (xs : List String) (x : String) → contains (sort_names xs) x ≡ contains xs x
unfolding sort_names
contains-sort_names [] x = refl
contains-sort_names (a ∷ xs) x =
    ground (arith, contains-sort_names xs x, contains-insert_name a (sort_names xs) x)

AreWired-take_out :
    (ids : List String) (id : String) (es : List Edge)
    → AreWired ids es
    → AreWired ids (take_out id es)
unfolding take_out
AreWired-take_out ids id [] w = tt
AreWired-take_out ids id (e ∷ es) (w, ws) = elim (Bool-cases (has_id id es)) [
  | inl later ↦ rw later (w, AreWired-take_out ids id es ws)
  | inr last ↦ elim (string_eq.dec e.edge_id id) [
    | yes same ↦ ground (arith)
    | no other ↦ ground (arith)
  ]
]

left_without_iff :
    {P Q : Type 0} (b l m c : Bool)
    → c ≡ ((b && not l) && m)
    → (b ≡ true) ↔ P
    → (l ≡ true) ↔ Q
    → (c ≡ true) ↔ (P × (¬ Q) × (m ≡ true))
left_without_iff b l m c e p q = (
  (λ h. (p.0 (ground arith), (λ reached. ground (arith, q.1 reached)), ground arith)),
  (λ (reached, cut, demand). elim (Bool-cases l) [
    | inl fed ↦ absurd (cut (q.0 fed))
    | inr unfed ↦ ground (arith, p.1 reached)
  ]),
)

module _ {V : Type 0} ⦃F : FloatOps V⦄ where
  insert-Perm : (o : Outcome V) (ps : List (Outcome V)) → Perm (o ∷ ps) (insert_severe o ps)
  unfolding insert_severe
  insert-Perm o [] = Perm.refl (o ∷ [])
  insert-Perm o (p ∷ ps) = elim (Bool-cases (F.lt o.severity p.severity)) [
    | inl after ↦ rw after (Perm.trans (Perm.swap p o ps) (Perm.cons p (insert-Perm o ps)))
    | inr before ↦ rw before (Perm.refl (o ∷ p ∷ ps))
  ]

  sort-Perm : (os : List (Outcome V)) → Perm os (sort_severe os)
  unfolding sort_severe
  sort-Perm [] = Perm.refl []
  sort-Perm (o ∷ os) = Perm.trans (Perm.cons o (sort-Perm os)) (insert-Perm o (sort_severe os))

module _ {V : Type 0} ⦃F : FloatOps V⦄ (d : Demand V) where
  contains-demanding :
      (ns : List String) (x : String)
      → contains (demanding d ns) x ≡ (contains ns x && is_demand d x)
  unfolding demanding
  contains-demanding [] x = refl
  contains-demanding (n ∷ ns) x = elim (string_eq.dec x n) [
    | yes same ↦ rw same (ground (arith, contains-demanding ns n))
    | no other ↦ ground (arith, contains-demanding ns x)
  ]

  module _ (solve : List Edge → Flow V) (nodes : List Node) (edges : List Edge) where
    -- The entry of an element tells of a sound plan to restore service with the element out, and lists
    -- as unserved exactly the nodes with a load or customers that a substation feeds in the base case
    -- and none feeds after the plan.
    pub record IsTruthful (ce : Edge) (o : Outcome V) : Type 0 where
      pub plan : Plan
      pub sound : IsSound nodes ce.edge_id (take_out ce.edge_id edges) plan
      pub named : o.element ≡ ce.edge_id
      pub closes : o.restored_by ≡ plan.closed_ties
      pub unserved :
          (x : String)
          → (contains o.unserved_nodes x ≡ true) ↔ (
              IsReached (sources nodes) (linked edges) x
              × (¬ IsReached (sources nodes) (linked plan.edges) x)
              × (is_demand d x ≡ true))

    -- The set of the nodes that a substation feeds.
    abbrev IsLive : List Edge → List String → Type 0
    IsLive es live =
        (x : String) → (contains live x ≡ true) ↔ IsReached (sources nodes) (linked es) x

    contains-unserved :
        (ce : Edge) (lost ties base live : List String) (flow : Flow V) (x : String)
        → contains (outcome_of d ce lost ties (minus base live) flow).unserved_nodes x
          ≡ ((contains base x && not (contains live x)) && is_demand d x)
    unfolding outcome_of
    contains-unserved ce lost ties base live flow x = ground (
      arith,
      contains-sort_names (demanding d (minus base live)) x,
      contains-demanding (minus base live) x,
      contains-minus base live x,
    )

    contingency-IsTruthful :
        (base : List String) (ce : Edge)
        → AreWired (node_ids nodes) edges
        → IsLive edges base
        → (o : Outcome V) × (contingency d solve nodes edges base ce ≡ ok o) × IsTruthful ce o
    unfolding contingency with_outage with_plan after_restore set_found outcome_of
    contingency-IsTruthful base ce wired based =
        let es = take_out ce.edge_id edges in
        let (out, out_found, out_live) =
          energized-IsReached nodes es
            (AreWired-take_out (node_ids nodes) ce.edge_id edges wired) in
        let lost = minus base out in
        let (plan, planned, sound) =
          restore-IsSound nodes es ce.edge_id lost
            (AreWired-take_out (node_ids nodes) ce.edge_id edges wired) in
        let (live, live_found, lives) = energized-IsReached nodes plan.edges sound.wired in
        (
          outcome_of d ce lost plan.closed_ties (minus base live) (solve plan.edges),
          rw (out_found, planned, live_found) refl,
          record {
            plan = plan;
            sound = sound;
            named = refl;
            closes = refl;
            unserved = λ x.
                left_without_iff (contains base x) (contains live x) (is_demand d x) _
                  (contains-unserved ce lost plan.closed_ties base live (solve plan.edges) x)
                  (based x) (lives x);
          },
        )

    -- The entries tell of the elements, one by one.
    abbrev pub AreTruthful : List Edge → List (Outcome V) → Type 0
    AreTruthful [] [] = Unit
    AreTruthful [] (o ∷ os) = ⊥
    AreTruthful (ce ∷ ces) [] = ⊥
    AreTruthful (ce ∷ ces) (o ∷ os) = IsTruthful ce o × AreTruthful ces os

    outcomes-AreTruthful :
        (base : List String) (ces : List Edge)
        → AreWired (node_ids nodes) edges
        → IsLive edges base
        → (os : List (Outcome V)) × (outcomes d solve nodes edges base ces ≡ ok os)
          × AreTruthful ces os
    unfolding outcomes and_outcomes
    outcomes-AreTruthful base [] wired based = ([], refl, tt)
    outcomes-AreTruthful base (ce ∷ ces) wired based =
        let (o, one, truthful) = contingency-IsTruthful base ce wired based in
        let (os, rest, all) = outcomes-AreTruthful base ces wired based in
        (o ∷ os, rw (one, rest, and_outcomes) refl, (truthful, all))

    pub analyze-AreTruthful :
        AreWired (node_ids nodes) edges
        → (a : Analysis V) × (analyze d solve nodes edges ≡ ok a)
          × ((os : List (Outcome V)) × Perm os a.contingencies × AreTruthful (candidates edges) os)
    unfolding analyze with_base summary set_found
    analyze-AreTruthful wired =
        let (base, base_found, based) = energized-IsReached nodes edges wired in
        let (os, all_found, truthful) = outcomes-AreTruthful base (candidates edges) wired based in
        (
          record {
            base = solve edges;
            n1_secure = all_served (sort_severe os);
            contingencies = sort_severe os;
          },
          rw (base_found, all_found, with_base, summary) refl,
          (os, sort-Perm os, truthful),
        )
