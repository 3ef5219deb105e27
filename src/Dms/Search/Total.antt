-- ===== src/Dms/Search/Total.antt =====
-- `_energized` on a network whose edges join nodes of it: the rounds of the search.
use diep_lab.Base.{
  ℕ, zero, suc, ◌+◌, ◌<◌, String, ◌≡◌, ◌≢◌, refl, true, none, some, List, [], ◌∷◌, ◌++◌, contains,
  string_eq, arith, inl, inr, Bool-cases, Option-cases, All, length,
}
use diep_lab.Base.Dict.{lookup, insert, lookup-insert}
use diep_lab.Dms.Network.{
  Node, Edge, closed, node_ids, sources, Adjacency, empty_adjacency, append_to, link, link_closed,
}
use diep_lab.Dms.Network.Links.{linked}
use diep_lab.Dms.Search.{found, visit, search}
use diep_lab.Dms.Search.Visit.{contains-visit_stack, unseen, measure-visit}
use diep_lab.Dms.Search.Closure.{lists}

-- Both ends of every edge are nodes, as the foreign keys of the table `grid_edges` tell.
abbrev pub AreWired : List String → List Edge → Type 0
AreWired ids es = All (λ e. (contains ids e.from_node ≡ true) × (contains ids e.to_node ≡ true)) es

abbrev pub AreKeys : List String → Adjacency → Type 0
AreKeys ids adj = (x : String) → contains ids x ≡ true → lookup x adj ≢ none

pub empty_adjacency-AreKeys : (ids : List String) → AreKeys ids (empty_adjacency ids)
unfolding empty_adjacency
empty_adjacency-AreKeys [] x h = cc
empty_adjacency-AreKeys (i ∷ ids) x h =
    ground (arith, lookup-insert x i [] (empty_adjacency ids), empty_adjacency-AreKeys ids x)

append_to-AreKeys :
    (ids : List String) (k v : String) (adj : Adjacency)
    → contains ids k ≡ true
    → AreKeys ids adj
    → (adj' : Adjacency) × (append_to k v adj ≡ some adj') × AreKeys ids adj'
unfolding append_to
append_to-AreKeys ids k v adj h keys = elim (Option-cases (lookup k adj)) [
  | inl absent ↦ absurd (keys k h absent)
  | inr (l, present) ↦ (
    insert k (l ++ v ∷ []) adj,
    rw (present, append_to) refl,
    λ x known. ground (arith, lookup-insert x k (l ++ v ∷ []) adj, keys x known),
  )
]

link-AreKeys :
    (ids : List String) (e : Edge) (adj : Adjacency)
    → contains ids e.from_node ≡ true
    → contains ids e.to_node ≡ true
    → AreKeys ids adj
    → (adj' : Adjacency) × (link e adj ≡ some adj') × AreKeys ids adj'
unfolding link
link-AreKeys ids e adj from to keys =
    let (mid, first, mid_keys) = append_to-AreKeys ids e.from_node e.to_node adj from keys in
    let (end, second, end_keys) = append_to-AreKeys ids e.to_node e.from_node mid to mid_keys in
    (end, rw (first, link) second, end_keys)

pub link_closed-AreKeys :
    (ids : List String) (es : List Edge) (adj : Adjacency)
    → AreWired ids es
    → AreKeys ids adj
    → (adj' : Adjacency) × (link_closed es adj ≡ some adj') × AreKeys ids adj'
unfolding link_closed
link_closed-AreKeys ids [] adj wired keys = (adj, refl, keys)
link_closed-AreKeys ids (e ∷ es) adj ((from, to), wired) keys = elim (Bool-cases (closed e)) [
  | inr parted ↦
      let (end, built, end_keys) = link_closed-AreKeys ids es adj wired keys in
      (end, rw (parted, link_closed) built, end_keys)
  | inl shut ↦
      let (mid, first, mid_keys) = link-AreKeys ids e adj from to keys in
      let (end, built, end_keys) = link_closed-AreKeys ids es mid wired mid_keys in
      (end, rw (shut, first, link_closed) built, end_keys)
]

pub linked_known :
    (ids : List String) (es : List Edge) (a b : String)
    → AreWired ids es
    → linked es a b ≡ true
    → contains ids b ≡ true
linked_known ids [] a b wired h = cc
linked_known ids (e ∷ es) a b ((from, to), wired) h =
    let rest = linked_known ids es a b wired in ground (arith, rest)

pub sources_known :
    (nodes : List Node) (x : String)
    → contains (sources nodes) x ≡ true
    → contains (node_ids nodes) x ≡ true
unfolding sources
sources_known [] x h = cc
sources_known (n ∷ nodes) x h = let rest = sources_known nodes x in ground (arith, rest)

module _ (ids : List String) (adj : Adjacency) where
  -- The stack holds nodes, and so do the lists of neighbours.
  pub record IsInside (stack : List String) : Type 0 where
    pub keys : AreKeys ids adj
    pub closed : (a b : String) → lists adj a b ≡ true → contains ids b ≡ true
    pub stacked : (x : String) → contains stack x ≡ true → contains ids x ≡ true

  pub search-found :
      (fuel : ℕ) (seen stack : List String)
      → IsInside stack
      → length stack + unseen ids seen < fuel
      → (s : List String) × (search fuel adj seen stack ≡ found s)
  unfolding search
  search-found zero seen stack i h = elim h [ ]
  search-found (suc fuel) seen [] i h = (seen, refl)
  search-found (suc fuel) seen (c ∷ stack) i h = elim (Option-cases (lookup c adj)) [
    | inl absent ↦ absurd (i.keys c (i.stacked c (ground arith)) absent)
    | inr (ns, key) ↦
        let known : (x : String) → contains ns x ≡ true → contains ids x ≡ true =
          λ x n. i.closed c x (rw key n) in
        let inside : IsInside (visit ns seen stack).1 = record {
          keys = i.keys;
          closed = i.closed;
          stacked = λ x t.
              let old = i.stacked x in
              let new = known x in ground (arith, contains-visit_stack ns seen stack x, old, new);
        } in
        let (s, rest) =
          search-found fuel (visit ns seen stack).0 (visit ns seen stack).1 inside
            (omega (arith, measure-visit ids ns seen stack known)) in
        (s, rw (key, search) rest)
  ]
