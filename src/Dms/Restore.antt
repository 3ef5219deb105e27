-- ===== src/Dms/Restore.antt =====
-- fastapi/dms/contingency.py: `_restore`. The edges are dicts that the caller shares with the list
-- `openable`; a tie is its position in the list of the edges, with its id.
pub mod Ties
pub mod Step
pub mod Sweep
use diep_lab.Base.{
  ℕ, zero, suc, String, Bool, true, false, not, some, List, [], ◌∷◌, ◌++◌, ◌&&◌, ◌||◌, ◌==◌,
  contains, string_eq, map, length, if◌then◌else◌,
}
use diep_lab.Base.Result.{Result, ok, err}
use diep_lab.Contracts.Measurement.{default, is_nil}
use diep_lab.Dms.Network.{Node, Edge, closed}
use diep_lab.Dms.Search.{Search, found, key_error, out_of_fuel, energized, is_radial}

-- KeyError; `no_rounds` is the model's own.
pub data Error : Type 0 where
  missing_key no_rounds : Error

abbrev pub Tie : Type 0
Tie = ℕ × String

-- `e["is_closed"] = b` on the edge at that position.
unfoldable pub set_closed : ℕ → Bool → List Edge → List Edge
set_closed i b [] = []
set_closed zero b (e ∷ es) = record e { is_closed = some b } ∷ es
set_closed (suc i) b (e ∷ es) = e ∷ set_closed i b es

abbrev pub shift : Tie → Tie
shift (i, id) = (suc i, id)

-- The open switchable edges, but for the failed one.
unfoldable pub openable : String → List Edge → List Tie
openable failed [] = []
openable failed (e ∷ es) =
    let rest = map shift (openable failed es) in
    if not (closed e) && (default false e.is_switchable && not (e.edge_id == failed))
    then (zero, e.edge_id) ∷ rest
    else rest

-- Whether the sets have a common member, `a & b`.
unfoldable pub meets : List String → List String → Bool
meets [] live = false
meets (x ∷ lost) live = contains live x || meets lost live

-- `a - b`
unfoldable pub minus : List String → List String → List String
minus [] live = []
minus (x ∷ lost) live = let rest = minus lost live in if contains live x then rest else x ∷ rest

-- The variables of `_restore`, and the edges as they have been changed so far.
pub record Plan : Type 0 where
  pub edges : List Edge
  pub closed_ties : List String
  pub lost : List String
  pub progress : Bool

module _ (nodes : List Node) where
  -- The verdict on a tie, by what is energized with it closed.
  unfoldable pub judge : Tie → Plan → List Edge → Search → Result Error Plan
  judge (i, id) p trial key_error = err missing_key
  judge (i, id) p trial out_of_fuel = err no_rounds
  judge (i, id) p trial (found live) =
      if meets p.lost live && is_radial nodes trial live
      then ok (record {
        edges = trial;
        closed_ties = p.closed_ties ++ id ∷ [];
        lost = minus p.lost live;
        progress = true;
      })
      else ok (record p { edges = set_closed i false trial })

  -- One round of the `for` loop.
  unfoldable pub try_tie : Tie → Plan → Result Error Plan
  try_tie (i, id) p =
      let trial = set_closed i true p.edges in
      if contains p.closed_ties id then ok p else judge (i, id) p trial (energized nodes trial)

  unfoldable pub sweep_rest : (Plan → Result Error Plan) → Result Error Plan → Result Error Plan
  sweep_rest f (err e) = err e
  sweep_rest f (ok p) = f p

  -- The `for` loop over the ties.
  unfoldable pub sweep : List Tie → Plan → Result Error Plan
  sweep [] p = ok p
  sweep (t ∷ ts) p = sweep_rest (sweep ts) (try_tie t p)

  -- The `while` loop. Each round that makes progress closes a tie for good, so two rounds more than
  -- there are ties are enough.
  unfoldable pub restore_rounds : ℕ → List Tie → Plan → Result Error Plan
  restore_rounds zero ties p = err no_rounds
  restore_rounds (suc fuel) ties p =
      let next =
        sweep_rest (restore_rounds fuel ties) (sweep ties (record p { progress = false })) in
      if p.progress && not (is_nil p.lost) then next else ok p

  -- `_restore`: the plan with the edges as they are left to the caller.
  unfoldable pub restore : List Edge → String → List String → Result Error Plan
  restore edges failed lost =
      let ties = openable failed edges in
      restore_rounds (suc (suc (length ties))) ties
        (record { edges = edges; closed_ties = []; lost = lost; progress = true })
