-- ===== src/Dms/Inference.antt =====
-- fastapi/dms/outage_inference.py: the walks in the feeder tree. The tree is given by the edge to the
-- parent of each node, as `build_radial` of fastapi/dms/state_estimation.py returns it.
pub mod Deepest
use diep_lab.Base.{
  ℕ, zero, suc, String, Bool, true, false, Option, none, some, List, [], ◌∷◌, ◌&&◌, ◌==◌, contains,
  string_eq, length, ltb, if◌then◌else◌,
}
use diep_lab.Base.Dict.{Dict, lookup, insert}
use diep_lab.Dms.Network.{Node, Edge}

-- `_parent_node_map`: the other end of the edge to the parent.
unfoldable pub parent_node_map : Dict String Edge → Dict String String
parent_node_map [] = []
parent_node_map ((nid, e) ∷ d) =
    (nid, (if e.to_node == nid then e.from_node else e.to_node)) ∷ parent_node_map d

module _ (parent_node : Dict String String) (root : String) where
  -- The loop of `_ancestors`, by the rounds that its guard leaves.
  unfoldable pub ancestors_from : ℕ → Option String → List String
  ancestors_from zero cur = []
  ancestors_from (suc guard) none = []
  ancestors_from (suc guard) (some cur) =
      let up = ancestors_from guard (lookup cur parent_node) in
      cur ∷ (if cur == root then [] else up)

  -- `_ancestors`
  unfoldable pub ancestors : String → List String
  ancestors nid = ancestors_from 1000 (some nid)

  abbrev pub depth : String → ℕ
  depth n = length (ancestors n)

  -- Whether the node is an ancestor of each of the others.
  unfoldable pub is_common : List String → String → Bool
  is_common [] n = true
  is_common (d ∷ ds) n = contains (ancestors d) n && is_common ds n

  -- The intersection of the sets of ancestors, in the order of the first one.
  unfoldable pub common_of : List String → List String → List String
  common_of [] ds = []
  common_of (n ∷ ns) ds = let rest = common_of ns ds in if is_common ds n then n ∷ rest else rest

  -- `max(common, key=...)`: the first of the greatest, of `best` and the rest.
  unfoldable pub deepest : String → List String → String
  deepest best [] = best
  deepest best (n ∷ ns) = deepest (if ltb (depth best) (depth n) then n else best) ns

  unfoldable pub deepest_of : List String → Option String
  deepest_of [] = none
  deepest_of (n ∷ ns) = some (deepest n ns)

  -- `_lca`, with `none` for the ValueError of an empty intersection.
  unfoldable pub lca : List String → Option String
  lca [] = some root
  lca (d ∷ ds) = deepest_of (common_of (ancestors d) ds)

  -- `_nearest_transformer`
  unfoldable pub first_transformer : Dict String Node → List String → Option String
  first_transformer by_id [] = none
  first_transformer by_id (n ∷ ns) =
      let rest = first_transformer by_id ns in
      elim (lookup n by_id) [
        | none ↦ rest
        | some node ↦ if node.node_type == "transformer" then some n else rest
      ]

  unfoldable pub nearest_transformer : Dict String Node → String → Option String
  nearest_transformer by_id nid = first_transformer by_id (ancestors nid)
