-- ===== src/Dms/Network.antt =====
-- The rows of the network model that the DMS functions take, and the adjacency that
-- fastapi/dms/contingency.py and fastapi/dms/reconfiguration.py build from them.
pub mod Links
use diep_lab.Base.{
  ℕ, String, Bool, true, false, not, Option, none, some, List, [], ◌∷◌, ◌++◌, ◌&&◌, ◌||◌, ◌==◌,
  contains, string_eq, if◌then◌else◌,
}
use diep_lab.Base.Dict.{Dict, lookup, insert}
use diep_lab.Contracts.Measurement.{default}

pub record Node : Type 0 where
  pub node_id : String
  pub node_type : String

-- An edge row; `is_closed`, `is_switchable` and the role of `attrs` may be absent.
pub record Edge : Type 0 where
  pub edge_id : String
  pub from_node : String
  pub to_node : String
  pub edge_type : String
  pub is_closed : Option Bool
  pub is_switchable : Option Bool
  pub role : Option String

-- `e.get("is_closed", True)`
abbrev pub closed : Edge → Bool
closed e = default true e.is_closed

abbrev pub node_ids : List Node → List String
node_ids [] = []
node_ids (n ∷ ns) = n.node_id ∷ node_ids ns

-- `[n["node_id"] for n in nodes if n["node_type"] == "substation"]`
unfoldable pub sources : List Node → List String
sources [] = []
sources (n ∷ ns) =
    let rest = sources ns in if n.node_type == "substation" then n.node_id ∷ rest else rest

abbrev pub Adjacency : Type 0
Adjacency = Dict String (List String)

-- `{nid: [] for nid in node_ids}`
unfoldable pub empty_adjacency : List String → Adjacency
empty_adjacency [] = []
empty_adjacency (n ∷ ns) = insert n [] (empty_adjacency ns)

-- `adj[k].append(v)`, with `none` for KeyError.
unfoldable pub append_to : String → String → Adjacency → Option Adjacency
append_to k v adj = elim (lookup k adj) [ none ↦ none | some l ↦ some (insert k (l ++ v ∷ []) adj) ]

abbrev pub and_then {ℓ κ} : {A : Type ℓ} {B : Type κ} → Option A → (A → Option B) → Option B
and_then none f = none
and_then (some a) f = f a

unfoldable pub link : Edge → Adjacency → Option Adjacency
link e adj = and_then (append_to e.from_node e.to_node adj) (append_to e.to_node e.from_node)

-- The loop over the edges; open ones are passed over.
unfoldable pub link_closed : List Edge → Adjacency → Option Adjacency
link_closed [] adj = some adj
link_closed (e ∷ es) adj = and_then (if closed e then link e adj else some adj) (link_closed es)

-- The neighbours that the adjacency lists.
abbrev pub neighbours : Adjacency → String → List String
neighbours adj a = default [] (lookup a adj)
