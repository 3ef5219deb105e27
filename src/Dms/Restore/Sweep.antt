-- ===== src/Dms/Restore/Sweep.antt =====
-- `_restore`: its loops, and the plan behind them.
use diep_lab.Base.{
  ℕ, zero, suc, ◌≤◌, ◌<◌, String, ◌≡◌, refl, ◌∙◌, ap, true, false, not, List, [], ◌∷◌, ◌&&◌, inl,
  inr, Bool-cases, contains, string_eq, arith, All, length, length-map, map, if◌then◌else◌,
}
use diep_lab.Base.Result.{ok}
use diep_lab.Contracts.Measurement.{is_nil}
use diep_lab.Dms.Network.{Node, Edge, node_ids}
use diep_lab.Dms.Search.Visit.{unseen, unseen-length}
use diep_lab.Dms.Search.Total.{AreWired}
use diep_lab.Dms.Restore.{Tie, Plan, openable, sweep, sweep_rest, restore_rounds, restore}
use diep_lab.Dms.Restore.Ties.{IsTieAt, AreRestored-refl, openable-IsTieAt}
use diep_lab.Dms.Restore.Step.{IsSound, IsStep, try_tie-IsSound}

abbrev names : List Tie → List String
names ts = map (λ t. t.1) ts

-- Every id of the list is one of `ids`.
AreNamed : List String → List Tie → Type 0
AreNamed ids ts = All (λ t. contains ids t.1 ≡ true) ts

names_known :
    (ids : List String) (ts : List Tie)
    → ((x : String) → contains (names ts) x ≡ true → contains ids x ≡ true)
    → AreNamed ids ts
unfolding AreNamed
names_known ids [] h = tt
names_known ids ((i, id) ∷ ts) h =
    (h id (ground arith), names_known ids ts (λ x m. h x (ground arith)))

IsStep-trans : (ids : List String) (p q r : Plan) → IsStep ids p q → IsStep ids q r → IsStep ids p r
IsStep-trans ids p q r (inl (a, b)) (inl (c, d)) = inl (c ∙ a, d ∙ b)
IsStep-trans ids p q r (inl (a, b)) (inr (c, d)) = inr (c, omega (arith, d, ap (unseen ids) b))
IsStep-trans ids p q r (inr (a, b)) (inl (c, d)) = inr (c ∙ a, omega (arith, b, ap (unseen ids) d))
IsStep-trans ids p q r (inr (a, b)) (inr (c, d)) = inr (c, omega (arith, b, d))

module _ (nodes : List Node) (failed : String) (edges : List Edge) (ids : List String) where
  sweep-IsSound :
      (ts : List Tie) (p : Plan)
      → All (IsTieAt failed edges) ts
      → AreNamed ids ts
      → IsSound nodes failed edges p
      → (p' : Plan) × (sweep nodes ts p ≡ ok p') × IsSound nodes failed edges p' × IsStep ids p p'
  unfolding sweep sweep_rest AreNamed
  sweep-IsSound [] p at known s = (p, refl, s, inl (refl, refl))
  sweep-IsSound (t ∷ ts) p (at, ats) (known, others) s =
      let (q, tried, q_sound, first) = try_tie-IsSound nodes failed edges ids t p at known s in
      let (r, swept, r_sound, rest) = sweep-IsSound ts q ats others q_sound in
      (r, rw (tried, sweep) swept, r_sound, IsStep-trans ids p q r first rest)

  -- The rounds that the plan can still take.
  abbrev rounds : Plan → ℕ
  rounds p = if p.progress then suc (unseen ids p.closed_ties) else 0

  rounds_step :
      (p q : Plan)
      → p.progress ≡ true
      → IsStep ids (record p { progress = false }) q
      → suc (rounds q) ≤ rounds p
  rounds_step p q going (inl (a, b)) = ground arith
  rounds_step p q going (inr (a, b)) = ground arith

  restore_rounds-IsSound :
      (fuel : ℕ) (ts : List Tie) (p : Plan)
      → All (IsTieAt failed edges) ts
      → AreNamed ids ts
      → rounds p < fuel
      → IsSound nodes failed edges p
      → (p' : Plan) × (restore_rounds nodes fuel ts p ≡ ok p') × IsSound nodes failed edges p'
  unfolding restore_rounds sweep_rest
  restore_rounds-IsSound zero ts p at known h s = elim h [ ]
  restore_rounds-IsSound (suc fuel) ts p at known h s =
      elim (Bool-cases (p.progress && not (is_nil p.lost))) [
        | inr over ↦ (p, rw over refl, s)
        | inl going ↦
            let start = record p { progress = false } in
            let start_sound : IsSound nodes failed edges start = record {
              restored = s.restored;
              wired = s.wired;
              radial = s.radial;
            } in
            let (q, swept, q_sound, step) = sweep-IsSound ts start at known start_sound in
            let (r, rest, r_sound) =
              restore_rounds-IsSound fuel ts q at known
                (omega (arith, h, rounds_step p q (ground arith) step)) q_sound in
            (r, rw (going, swept, restore_rounds) rest, r_sound)
      ]

-- On a network whose edges join nodes of it, the restoration ends without an error, whatever element
-- has failed and whatever nodes are lost. It leaves every edge as it was but for the ties of its
-- plan, which were open, can be switched and are not the failed element, and which are closed now.
-- If the plan closes any tie, the network that it leaves is radial.
pub restore-IsSound :
    (nodes : List Node) (edges : List Edge) (failed : String) (lost : List String)
    → AreWired (node_ids nodes) edges
    → (p : Plan) × (restore nodes edges failed lost ≡ ok p) × IsSound nodes failed edges p
unfolding restore
restore-IsSound nodes edges failed lost wired =
    let ties = openable failed edges in
    let ids = names ties in
    let start : Plan = record { edges = edges; closed_ties = []; lost = lost; progress = true } in
    restore_rounds-IsSound nodes failed edges ids (suc (suc (length ties))) ties start
      (openable-IsTieAt failed edges) (names_known ids ties (λ x h. h))
      (omega (arith, unseen-length ids [], length-map (λ (t : Tie). t.1) ties))
      (record { restored = AreRestored-refl failed [] edges; wired = wired; radial = inl refl })
