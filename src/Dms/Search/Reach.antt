-- ===== src/Dms/Search/Reach.antt =====
-- `_energized` against the nodes that a substation feeds.
use diep_lab.Base.{
  suc, ◌+◌, String, ◌≡◌, ◌↔◌, refl, sym, ◌∙◌, Bool, true, List, [], ◌∷◌, ◌||◌, ◌≢◌, none, some,
  contains, string_eq, arith, length,
}
use diep_lab.Base.Dict.{lookup}
use diep_lab.Dms.Network.{Node, Edge, node_ids, sources, Adjacency, empty_adjacency, link_closed}
use diep_lab.Dms.Network.Links.{linked, neighbours-linked}
use diep_lab.Dms.Search.{found, set_of, reverse_onto, search_from, energized}
use diep_lab.Dms.Search.Visit.{contains-visit_seen, unseen-length}
use diep_lab.Dms.Search.Closure.{
  IsReached, start, walk, IsPartial, search-IsPartial, IsPartial-complete,
}
use diep_lab.Dms.Search.Total.{
  AreWired, empty_adjacency-AreKeys, link_closed-AreKeys, linked_known, sources_known, search-found,
}

contains-reverse_onto :
    (xs ys : List String) (x : String)
    → contains (reverse_onto xs ys) x ≡ (contains xs x || contains ys x)
contains-reverse_onto [] ys x = refl
contains-reverse_onto (z ∷ xs) ys x = ground (arith, contains-reverse_onto xs (z ∷ ys) x)

length-reverse_onto : (xs ys : List String) → length (reverse_onto xs ys) ≡ length xs + length ys
length-reverse_onto [] ys = omega arith
length-reverse_onto (z ∷ xs) ys = omega (arith, length-reverse_onto xs (z ∷ ys))

contains-set_of : (xs : List String) (x : String) → contains (set_of xs) x ≡ contains xs x
unfolding set_of
contains-set_of xs x = contains-visit_seen xs [] [] x

IsReached-map :
    {starts : List String} {r q : String → String → Bool}
    → ((a b : String) → r a b ≡ true → q a b ≡ true)
    → {x : String} → IsReached starts r x
    → IsReached starts q x
IsReached-map f (start h) = start h
IsReached-map f (walk {a} {b} p link) = walk (IsReached-map f p) (f a b link)

start-IsPartial :
    (starts : List String) (adj : Adjacency)
    → IsPartial starts adj (set_of starts) (reverse_onto starts [])
start-IsPartial starts adj = record {
  reached = λ x h. start (sym (contains-set_of starts x) ∙ h);
  stacked = λ x h. ground (arith, contains-set_of starts x, contains-reverse_onto starts [] x);
  started = λ x h. contains-set_of starts x ∙ h;
  done = λ a seen off.
      absurd (ground (arith, contains-set_of starts a, contains-reverse_onto starts [] a));
}

module _ (nodes : List Node) (edges : List Edge) where
  -- What the search returns from a built adjacency.
  search_from-IsReached :
      (adj : Adjacency)
      → AreWired (node_ids nodes) edges
      → link_closed edges (empty_adjacency (node_ids nodes)) ≡ some adj
      → ((x : String) → contains (node_ids nodes) x ≡ true → lookup x adj ≢ none)
      → (s : List String) × (search_from nodes (some adj) ≡ found s)
        × IsPartial (sources nodes) adj s []
  unfolding search_from
  search_from-IsReached adj wired built keys =
      let ids = node_ids nodes in
      let starts = sources nodes in
      let (s, ends) =
        search-found ids adj (suc (length starts + length ids)) (set_of starts)
          (reverse_onto starts [])
          (record {
            keys = keys;
            closed = λ a b l.
                linked_known ids edges a b wired (sym (neighbours-linked ids edges a b built) ∙ l);
            stacked =
                λ x h. sources_known nodes x (ground (arith, contains-reverse_onto starts [] x));
          })
          (omega (arith, length-reverse_onto starts [], unseen-length ids (set_of starts))) in
      (
        s,
        ends,
        search-IsPartial starts adj (suc (length starts + length ids)) (set_of starts)
            (reverse_onto starts []) s (start-IsPartial starts adj) ends,
      )

  -- On a network whose edges join nodes of it, the search ends, without KeyError, and the set that it
  -- returns holds exactly the nodes that can be reached from a substation over closed edges, in
  -- either direction of each edge.
  pub energized-IsReached :
      AreWired (node_ids nodes) edges
      → (live : List String) × (energized nodes edges ≡ found live)
        × ((x : String) → (contains live x ≡ true) ↔ IsReached (sources nodes) (linked edges) x)
  unfolding energized
  energized-IsReached wired =
      let ids = node_ids nodes in
      let (adj, built, keys) =
        link_closed-AreKeys ids edges (empty_adjacency ids) wired (empty_adjacency-AreKeys ids) in
      let (s, ends, p) = search_from-IsReached adj wired built keys in
      let same = λ (a : String) (b : String). neighbours-linked ids edges {adj = adj} a b built in
      (
        s,
        rw built ends,
        λ x. (
          λ h. IsReached-map (λ a b l. sym (same a b) ∙ l) (p.reached x h),
          λ r.
              IsPartial-complete (sources nodes) adj s p x
                (IsReached-map (λ a b l. same a b ∙ l) r),
        ),
      )
