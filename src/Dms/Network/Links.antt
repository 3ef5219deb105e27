-- ===== src/Dms/Network/Links.antt =====
-- The adjacency against the closed edges.
use mathlib.Core.Option.{some-injective}
use diep_lab.Base.{
  String, ◌≡◌, refl, sym, Bool, true, false, Option, none, some, List, [], ◌∷◌, ◌++◌, ◌&&◌, ◌||◌,
  ◌==◌, contains, contains-append, string_eq, arith, inl, inr, Option-cases, Bool-cases,
  if◌then◌else◌,
}
use diep_lab.Base.Dict.{lookup, lookup-insert}
use diep_lab.Dms.Network.{
  Edge, closed, Adjacency, empty_adjacency, append_to, and_then, link, link_closed, neighbours,
}

-- A closed edge joins `a` and `b`.
abbrev pub joins : Edge → String → String → Bool
joins e a b =
    closed e && ((a == e.from_node && b == e.to_node) || (a == e.to_node && b == e.from_node))

abbrev pub linked : List Edge → String → String → Bool
linked [] a b = false
linked (e ∷ es) a b = joins e a b || linked es a b

neighbours-empty : (ids : List String) (a : String) → neighbours (empty_adjacency ids) a ≡ []
unfolding empty_adjacency lookup
neighbours-empty [] a = refl
neighbours-empty (n ∷ ids) a =
    ground (arith, neighbours-empty ids a, lookup-insert a n [] (empty_adjacency ids))

contains-append_to :
    (k v : String) (adj : Adjacency) {adj' : Adjacency} (a b : String)
    → append_to k v adj ≡ some adj'
    → contains (neighbours adj' a) b ≡ (contains (neighbours adj a) b || (a == k && b == v))
unfolding append_to
contains-append_to k v adj a b h = elim (Option-cases (lookup k adj)) [
  | inl absent ↦ cc absent
  | inr (l, present) ↦
      rw (sym (some-injective _ _ (rw (present, append_to) at h)))
        (ground (arith, lookup-insert a k (l ++ v ∷ []) adj, contains-append l (v ∷ []) b, present))
]

-- A step that may fail has succeeded.
pub and_then-eq-some :
    {A B : Type 0} (o : Option A) (f : A → Option B) {b : B}
    → and_then o f ≡ some b
    → (a : A) × (o ≡ some a) × (f a ≡ some b)
and_then-eq-some none f h = cc
and_then-eq-some (some a) f h = (a, refl, h)

contains-link :
    (e : Edge) (adj : Adjacency) {adj' : Adjacency} (a b : String)
    → closed e ≡ true
    → link e adj ≡ some adj'
    → contains (neighbours adj' a) b ≡ (contains (neighbours adj a) b || joins e a b)
unfolding link
contains-link e adj a b c h =
    let (mid, first, second) = and_then-eq-some (append_to e.from_node e.to_node adj) _ h in
    ground (
      arith,
      contains-append_to e.from_node e.to_node adj a b first,
      contains-append_to e.to_node e.from_node mid a b second,
    )

contains-link_closed :
    (es : List Edge) (adj : Adjacency) {adj' : Adjacency} (a b : String)
    → link_closed es adj ≡ some adj'
    → contains (neighbours adj' a) b ≡ (contains (neighbours adj a) b || linked es a b)
unfolding link_closed
contains-link_closed [] adj a b h = ground (arith, some-injective _ _ h)
contains-link_closed (e ∷ es) adj a b h =
    let (mid, first, rest) = and_then-eq-some (if closed e then link e adj else some adj) _ h in
    elim (Bool-cases (closed e)) [
      | inl c ↦
          ground
            (arith, contains-link e adj a b c (rw c at first), contains-link_closed es mid a b rest)
      | inr o ↦
          ground (arith, contains-link_closed es mid a b rest, some-injective _ _ (rw o at first))
    ]

-- Where the adjacency is built, `b` is listed at `a` exactly if a closed edge joins them.
pub neighbours-linked :
    (ids : List String) (es : List Edge) {adj : Adjacency} (a b : String)
    → link_closed es (empty_adjacency ids) ≡ some adj
    → contains (neighbours adj a) b ≡ linked es a b
neighbours-linked ids es a b h =
    ground (arith, contains-link_closed es (empty_adjacency ids) a b h, neighbours-empty ids a)
