-- ===== src/Dms/Reconfiguration/Feasible.antt =====
-- `_radial_feasible` and `_evaluate`: what a configuration that has metrics satisfies.
use mathlib.Core.Option.{some-injective, none-ne-some}
use diep_lab.Base.{
  String, ◌≡◌, ◌≢◌, refl, sym, ◌∙◌, ap, Bool, true, false, Option, none, some, List, [], ◌∷◌,
  contains, string_eq, inl, inr, Bool-cases, All, arith,
}
use diep_lab.Base.Dict.{Dict, lookup}
use diep_lab.Contracts.Measurement.{is_nil}
use diep_lab.Dms.Network.{Node, Edge, node_ids, sources}
use diep_lab.Dms.Network.Links.{linked, and_then-eq-some}
use diep_lab.Dms.Search.{Search, found, key_error, out_of_fuel, energized, is_radial}
use diep_lab.Dms.Search.Closure.{IsReached, found-injective}
use diep_lab.Dms.Search.Total.{AreWired}
use diep_lab.Dms.Search.Reach.{energized-IsReached}
use diep_lab.Dms.Reconfiguration.{
  Flow, Metrics, all_served, feasible_at, radial_feasible, assign, evaluate,
}

-- A load or a meter is fed by a substation over closed edges.
abbrev pub IsFed : List Node → List Edge → Node → Type 0
IsFed nodes edges n =
    contains ("load" ∷ "meter" ∷ []) n.node_type ≡ true
    → IsReached (sources nodes) (linked edges) n.node_id

-- There is a substation, the network that it feeds is radial, and every load and meter is fed.
pub record IsServed (nodes : List Node) (edges : List Edge) : Type 0 where
  pub live : List String
  pub ends : energized nodes edges ≡ found live
  pub sourced : sources nodes ≢ []
  pub radial : is_radial nodes edges live ≡ true
  pub fed : All (IsFed nodes edges) nodes

all_served-IsFed :
    (all : List Node) (edges : List Edge) (live : List String) (nodes : List Node)
    → ((x : String) → contains live x ≡ true → IsReached (sources all) (linked edges) x)
    → all_served nodes live ≡ true
    → All (IsFed all edges) nodes
unfolding all_served
all_served-IsFed all edges live [] sound h = tt
all_served-IsFed all edges live (n ∷ nodes) sound h = (
  λ kind. sound n.node_id (ground arith),
  all_served-IsFed all edges live nodes sound (ground arith),
)

-- What the verdict tells of the search.
record IsJudged (nodes : List Node) (edges : List Edge) (s : Search) : Type 0 where
  live : List String
  ends : s ≡ found live
  radial : is_radial nodes edges live ≡ true
  served : all_served nodes live ≡ true

feasible_at-IsJudged :
    (nodes : List Node) (edges : List Edge) (s : Search) (r : Bool × List String)
    → feasible_at nodes edges s ≡ some r
    → r.0 ≡ true
    → IsJudged nodes edges s
unfolding feasible_at
feasible_at-IsJudged nodes edges key_error r h t = absurd (none-ne-some r h)
feasible_at-IsJudged nodes edges out_of_fuel r h t = absurd (none-ne-some r h)
feasible_at-IsJudged nodes edges (found live) r h t =
    let both = ap (λ (x : Bool × List String). x.0) (some-injective _ _ h) ∙ t in
    record { live = live; ends = refl; radial = ground arith; served = ground arith }

nil_sources : (xs : List String) → is_nil xs ≡ false → xs ≢ []
nil_sources xs h e = ground arith

radial_feasible-IsServed :
    (nodes : List Node) (edges : List Edge) (r : Bool × List String)
    → AreWired (node_ids nodes) edges
    → radial_feasible nodes edges ≡ some r
    → r.0 ≡ true
    → IsServed nodes edges
unfolding radial_feasible
radial_feasible-IsServed nodes edges r wired h t = elim (Bool-cases (is_nil (sources nodes))) [
  | inl nothing ↦ absurd (
      false-ne-true
        (ap (λ (x : Bool × List String). x.0) (some-injective _ _ (rw nothing at h)) ∙ t))
  | inr sourced ↦
      let j = feasible_at-IsJudged nodes edges (energized nodes edges) r (rw sourced at h) t in
      let (live, ends, reached) = energized-IsReached nodes edges wired in
      let same : j.live ≡ live = found-injective j.live live (sym j.ends ∙ ends) in
      record {
        live = j.live;
        ends = j.ends;
        sourced = nil_sources (sources nodes) sourced;
        radial = j.radial;
        fed =
            all_served-IsFed nodes edges j.live nodes (λ x m. (reached x).0 (rw same at m))
              j.served;
      }
]
  where
    false-ne-true : false ≢ true
    false-ne-true e = cc

module _ {V : Type 0} (solve : List Node → List Edge → Flow V) (nodes : List Node) where
  -- A configuration that has metrics is feasible.
  pub evaluate-IsServed :
      (candidate : List Edge) (m : Metrics V)
      → AreWired (node_ids nodes) candidate
      → evaluate solve nodes candidate ≡ some (some m)
      → IsServed nodes candidate
  unfolding evaluate
  evaluate-IsServed candidate m wired h =
      let (r, judged, rest) = and_then-eq-some (radial_feasible nodes candidate) _ h in
      elim (Bool-cases r.0) [
        | inl yes_feasible ↦ radial_feasible-IsServed nodes candidate r wired judged yes_feasible
        | inr infeasible ↦ absurd (none-ne-some m (some-injective _ _ (rw infeasible at rest)))
      ]

pub AreWired-assign :
    (ids : List String) (combo : Dict String Bool) (es : List Edge)
    → AreWired ids es
    → AreWired ids (assign combo es)
unfolding assign
AreWired-assign ids combo [] w = tt
AreWired-assign ids combo (e ∷ es) (w, ws) =
    (ends_kept (lookup e.edge_id combo), AreWired-assign ids combo es ws)
  where
    ends_kept :
        (o : Option Bool)
        → let e' : Edge = elim o [ none ↦ e | some b ↦ record e { is_closed = some b } ] in
          (contains ids e'.from_node ≡ true) × (contains ids e'.to_node ≡ true)
    ends_kept none = w
    ends_kept (some b) = w
