-- ===== src/Dms/Search.antt =====
-- fastapi/dms/contingency.py: `_energized` and `_is_radial`; the same search stands in
-- `_radial_feasible` of fastapi/dms/reconfiguration.py.
pub mod Visit
pub mod Closure
pub mod Total
pub mod Reach
use diep_lab.Base.{
  ℕ, zero, suc, ◌+◌, ◌-◌, String, Bool, Option, none, some, List, [], ◌∷◌, ◌&&◌, contains,
  string_eq, length, leb, if◌then◌else◌,
}
use diep_lab.Base.Dict.{lookup}
use diep_lab.Dms.Network.{
  Node, Edge, closed, node_ids, sources, Adjacency, empty_adjacency, link_closed,
}

-- How a search ends: with the set of the nodes seen, or with KeyError. `out_of_fuel` is the model's.
pub data Search : Type 0 where
  found : List String → Search
  key_error out_of_fuel : Search

-- The loop over the neighbours of one node: the new `seen` and `stack`. The head of the list is the
-- top of the stack.
unfoldable pub visit : List String → List String → List String → List String × List String
visit [] seen stack = (seen, stack)
visit (n ∷ ns) seen stack =
    let old = contains seen n in
    visit ns (if old then seen else n ∷ seen) (if old then stack else n ∷ stack)

-- `set(xs)`
unfoldable pub set_of : List String → List String
set_of xs = (visit xs [] []).0

abbrev pub reverse_onto : List String → List String → List String
reverse_onto [] ys = ys
reverse_onto (x ∷ xs) ys = reverse_onto xs (x ∷ ys)

-- The `while` loop. A round takes one node off the stack, and every node is put there once, so the
-- sources and the nodes together are rounds enough.
unfoldable pub search : ℕ → Adjacency → List String → List String → Search
search zero adj seen stack = out_of_fuel
search (suc fuel) adj seen [] = found seen
search (suc fuel) adj seen (c ∷ stack) = elim (lookup c adj) [
  | none ↦ key_error
  | some ns ↦ let (seen', stack') = visit ns seen stack in search fuel adj seen' stack'
]

unfoldable pub search_from : List Node → Option Adjacency → Search
search_from nodes none = key_error
search_from nodes (some adj) =
    search (suc (length (sources nodes) + length (node_ids nodes))) adj (set_of (sources nodes))
      (reverse_onto (sources nodes) [])

-- `_energized`
unfoldable pub energized : List Node → List Edge → Search
energized nodes edges = search_from nodes (link_closed edges (empty_adjacency (node_ids nodes)))

-- The closed edges with both ends among the energized nodes.
unfoldable pub count_inside : List Edge → List String → ℕ
count_inside [] live = 0
count_inside (e ∷ es) live =
    (if closed e && (contains live e.from_node && contains live e.to_node) then 1 else 0)
    + count_inside es live

-- `ec <= len(energized) - len(sources)`, without a negative number.
unfoldable pub is_radial : List Node → List Edge → List String → Bool
is_radial nodes edges live = leb (count_inside edges live + length (sources nodes)) (length live)
