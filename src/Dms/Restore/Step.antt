-- ===== src/Dms/Restore/Step.antt =====
-- One trial of `_restore`.
use diep_lab.Base.{
  ◌<◌, String, ◌≡◌, refl, subst, true, false, List, [], ◌∷◌, ◌++◌, ◌&&◌, ◌⊎◌, inl, inr, Bool-cases,
  contains, contains-append, string_eq, arith,
}
use diep_lab.Base.Result.{ok}
use diep_lab.Dms.Network.{Node, Edge, node_ids}
use diep_lab.Dms.Search.{found, energized, is_radial}
use diep_lab.Dms.Search.Visit.{unseen, unseen_lt, unseen_ext}
use diep_lab.Dms.Search.Total.{AreWired}
use diep_lab.Dms.Search.Reach.{energized-IsReached}
use diep_lab.Dms.Restore.{Tie, Plan, set_closed, meets, minus, judge, try_tie}
use diep_lab.Dms.Restore.Ties.{
  IsTieAt, AreRestored, set_closed_back, AreRestored-set_closed, AreWired-set_closed,
}

-- The search ends, and what it finds has as many closed edges as a tree from each source.
pub record IsRadial (nodes : List Node) (edges : List Edge) : Type 0 where
  pub live : List String
  pub ends : energized nodes edges ≡ found live
  pub radial : is_radial nodes edges live ≡ true

-- The edges are the given ones but for the ties of the plan, and once there is a tie the network is
-- radial.
pub record IsSound (nodes : List Node) (failed : String) (edges : List Edge) (p : Plan)
    : Type 0 where
  pub restored : AreRestored failed p.closed_ties edges p.edges
  pub wired : AreWired (node_ids nodes) p.edges
  pub radial : (p.closed_ties ≡ []) ⊎ IsRadial nodes p.edges

-- Either nothing but the edges has been written, or a tie of `ids` has been closed that was not.
abbrev pub IsStep : List String → Plan → Plan → Type 0
IsStep ids p p' =
    ((p'.progress ≡ p.progress) × (p'.closed_ties ≡ p.closed_ties))
    ⊎ ((p'.progress ≡ true) × (unseen ids p'.closed_ties < unseen ids p.closed_ties))

unseen-append :
    (ids ties : List String) (id : String)
    → contains ids id ≡ true
    → contains ties id ≡ false
    → unseen ids (ties ++ id ∷ []) < unseen ids ties
unseen-append ids ties id known new =
    let same =
      unseen_ext ids (ties ++ id ∷ []) (id ∷ ties)
        (λ x. ground (arith, contains-append ties (id ∷ []) x)) in
    rw same (unseen_lt ids ties id known new)

module _ (nodes : List Node) (failed : String) (edges : List Edge) (ids : List String) where
  -- A trial on a tie that is not closed yet.
  judge-IsSound :
      (t : Tie) (p : Plan) (live : List String)
      → IsTieAt failed edges t
      → contains ids t.1 ≡ true
      → contains p.closed_ties t.1 ≡ false
      → energized nodes (set_closed t.0 true p.edges) ≡ found live
      → IsSound nodes failed edges p
      → (p' : Plan) × (judge nodes t p (set_closed t.0 true p.edges) (found live) ≡ ok p')
        × IsSound nodes failed edges p'
        × IsStep ids p p'
  unfolding judge
  judge-IsSound (i, id) p live at known new ends s =
      let trial = set_closed i true p.edges in
      let fresh : contains p.closed_ties at.edge.edge_id ≡ false = rw at.named new in
      elim (Bool-cases (meets p.lost live && is_radial nodes trial live)) [
        | inl taken ↦ (
          record {
            edges = trial;
            closed_ties = p.closed_ties ++ id ∷ [];
            lost = minus p.lost live;
            progress = true;
          },
          rw taken refl,
          record {
            restored =
                subst (λ n. AreRestored failed (p.closed_ties ++ n ∷ []) edges trial) at.named
                  (AreRestored-set_closed failed i s.restored at.at at.tie fresh);
            wired = AreWired-set_closed (node_ids nodes) i true p.edges s.wired;
            radial = inr (record { live = live; ends = ends; radial = ground arith });
          },
          inr (refl, unseen-append ids p.closed_ties id known new),
        )
        | inr refused ↦
            let back = set_closed_back failed i s.restored at.at at.tie fresh in
            (
              record p { edges = set_closed i false trial },
              rw refused refl,
              record {
                restored = rw back s.restored;
                wired = rw back s.wired;
                radial = rw back s.radial;
              },
              inl (refl, refl),
            )
      ]

  pub try_tie-IsSound :
      (t : Tie) (p : Plan)
      → IsTieAt failed edges t
      → contains ids t.1 ≡ true
      → IsSound nodes failed edges p
      → (p' : Plan) × (try_tie nodes t p ≡ ok p') × IsSound nodes failed edges p' × IsStep ids p p'
  unfolding try_tie
  try_tie-IsSound (i, id) p at known s = elim (Bool-cases (contains p.closed_ties id)) [
    | inl old ↦ (p, rw old refl, s, inl (refl, refl))
    | inr new ↦
        let trial = set_closed i true p.edges in
        let (live, ends, _) =
          energized-IsReached nodes trial
            (AreWired-set_closed (node_ids nodes) i true p.edges s.wired) in
        let (p', judged, sound, step) = judge-IsSound (i, id) p live at known new ends s in
        (p', rw (new, ends) judged, sound, step)
  ]
