-- ===== src/Dms/Restore/Ties.antt =====
-- What `_restore` may do to the edges, and the taking back of a trial.
use diep_lab.Base.{
  ℕ, zero, suc, String, ◌≡◌, ◌≢◌, refl, sym, ap, Bool, true, false, not, Option, none, some, inl,
  inr, Bool-cases, List, [], ◌∷◌, ◌++◌, ◌&&◌, ◌==◌, contains, contains-append, string_eq, map,
  arith, All,
}
use diep_lab.Contracts.Measurement.{default}
use diep_lab.Dms.Network.{Edge, closed}
use diep_lab.Dms.Search.Total.{AreWired}
use diep_lab.Dms.Restore.{Tie, set_closed, shift, openable}

-- The edge stands at that position.
pub data IsAt (e : Edge) : ℕ → List Edge → Type 0 where
  here : {es : List Edge} → IsAt e zero (e ∷ es)
  there : {i : ℕ} {d : Edge} {es : List Edge} → IsAt e i es → IsAt e (suc i) (d ∷ es)

-- An edge that the restoration may close.
pub record IsTie (failed : String) (e : Edge) : Type 0 where
  pub parted : e.is_closed ≡ some false
  pub switchable : default false e.is_switchable ≡ true
  pub other : e.edge_id ≢ failed

pub record IsTieAt (failed : String) (edges : List Edge) (t : Tie) : Type 0 where
  pub edge : Edge
  pub at : IsAt edge t.0 edges
  pub named : edge.edge_id ≡ t.1
  pub tie : IsTie failed edge

-- Edge by edge: it is as it was, or it is a tie that has been closed and is in the list.
pub data AreRestored (failed : String) (ties : List String) : List Edge → List Edge → Type 0 where
  none_left : AreRestored failed ties [] []
  kept :
      {e : Edge} {es es' : List Edge}
      → AreRestored failed ties es es'
      → AreRestored failed ties (e ∷ es) (e ∷ es')
  shut :
      {e : Edge} {es es' : List Edge}
      → IsTie failed e
      → contains ties e.edge_id ≡ true
      → AreRestored failed ties es es'
      → AreRestored failed ties (e ∷ es) (record e { is_closed = some true } ∷ es')

module _ (failed : String) where
  pub AreRestored-refl : (ties : List String) (es : List Edge) → AreRestored failed ties es es
  AreRestored-refl ties [] = none_left
  AreRestored-refl ties (e ∷ es) = kept (AreRestored-refl ties es)

  AreRestored-more :
      {ties : List String} {es es' : List Edge} (id : String)
      → AreRestored failed ties es es'
      → AreRestored failed (ties ++ id ∷ []) es es'
  AreRestored-more id none_left = none_left
  AreRestored-more id (kept r) = kept (AreRestored-more id r)
  AreRestored-more {ties} id (shut {e} t h r) =
      shut t (ground (arith, contains-append ties (id ∷ []) e.edge_id)) (AreRestored-more id r)

  reopened : (e : Edge) → e.is_closed ≡ some false → record e { is_closed = some false } ≡ e
  reopened e h = ap (λ c. record e { is_closed = c }) (sym h)

  -- A tie that is not in the list is open: to close it and to open it again changes nothing.
  pub set_closed_back :
      {ties : List String} {es es' : List Edge} {e : Edge} (i : ℕ)
      → AreRestored failed ties es es'
      → IsAt e i es
      → IsTie failed e
      → contains ties e.edge_id ≡ false
      → set_closed i false (set_closed i true es') ≡ es'
  unfolding set_closed
  set_closed_back i none_left a t new = elim a [ ]
  set_closed_back zero (kept {e} {es} {es'} r) here t new = ap (λ d. d ∷ es') (reopened e t.parted)
  set_closed_back zero (shut s h r) here t new = cc
  set_closed_back (suc i) (kept {e} r) (there a) t new =
      ap (λ l. e ∷ l) (set_closed_back i r a t new)
  set_closed_back (suc i) (shut {e} s h r) (there a) t new =
      ap (λ l. record e { is_closed = some true } ∷ l) (set_closed_back i r a t new)

  pub AreRestored-set_closed :
      {ties : List String} {es es' : List Edge} {e : Edge} (i : ℕ)
      → AreRestored failed ties es es'
      → IsAt e i es
      → IsTie failed e
      → contains ties e.edge_id ≡ false
      → AreRestored failed (ties ++ e.edge_id ∷ []) es (set_closed i true es')
  unfolding set_closed
  AreRestored-set_closed i none_left a t new = elim a [ ]
  AreRestored-set_closed {ties} {e = e} zero (kept r) here t new =
      shut t (ground (arith, contains-append ties (e.edge_id ∷ []) e.edge_id))
        (AreRestored-more e.edge_id r)
  AreRestored-set_closed zero (shut s h r) here t new = cc
  AreRestored-set_closed (suc i) (kept r) (there a) t new =
      kept (AreRestored-set_closed i r a t new)
  AreRestored-set_closed {ties} {e = e} (suc i) (shut {e = d} s h r) (there a) t new =
      shut s (ground (arith, contains-append ties (e.edge_id ∷ []) d.edge_id))
        (AreRestored-set_closed i r a t new)

pub AreWired-set_closed :
    (ids : List String) (i : ℕ) (b : Bool) (es : List Edge)
    → AreWired ids es
    → AreWired ids (set_closed i b es)
unfolding set_closed
AreWired-set_closed ids i b [] w = tt
AreWired-set_closed ids zero b (e ∷ es) w = w
AreWired-set_closed ids (suc i) b (e ∷ es) (w, ws) = (w, AreWired-set_closed ids i b es ws)

-- The ties that are offered are open switchable edges at their positions, and not the failed one.
shift-IsTieAt :
    (failed : String) (e : Edge) (es : List Edge) (ts : List Tie)
    → All (IsTieAt failed es) ts
    → All (IsTieAt failed (e ∷ es)) (map shift ts)
shift-IsTieAt failed e es [] h = tt
shift-IsTieAt failed e es (t ∷ ts) (h, hs) = (
  record { edge = h.edge; at = there h.at; named = h.named; tie = h.tie },
  shift-IsTieAt failed e es ts hs,
)

offered :
    (failed : String) (e : Edge)
    → (not (closed e) && (default false e.is_switchable && not (e.edge_id == failed))) ≡ true
    → IsTie failed e
offered failed e h = record {
  parted = parted e.is_closed (ground arith);
  switchable = ground arith;
  other = ground arith;
}
  where
    parted : (c : Option Bool) → default true c ≡ false → c ≡ some false
    parted none h = cc
    parted (some c) h = ap some h

pub openable-IsTieAt :
    (failed : String) (es : List Edge) → All (IsTieAt failed es) (openable failed es)
unfolding openable
openable-IsTieAt failed [] = tt
openable-IsTieAt failed (e ∷ es) =
    let rest = shift-IsTieAt failed e es (openable failed es) (openable-IsTieAt failed es) in
    elim (Bool-cases
      (not (closed e) && (default false e.is_switchable && not (e.edge_id == failed)))) [
        | inl tie ↦
            rw tie (record { edge = e; at = here; named = refl; tie = offered failed e tie }, rest)
        | inr passed ↦ rw passed rest
      ]
