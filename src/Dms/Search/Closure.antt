-- ===== src/Dms/Search/Closure.antt =====
-- The search against reachability.
use diep_lab.Base.{
  ℕ, zero, suc, String, ◌≡◌, ◌≢◌, refl, subst, Bool, true, false, some, List, [], ◌∷◌, contains,
  string_eq, arith, inl, inr, Bool-cases, Option-cases,
}
use diep_lab.Base.Dict.{lookup}
use diep_lab.Dms.Network.{Adjacency, neighbours}
use diep_lab.Dms.Search.{found, key_error, visit, search}
use diep_lab.Dms.Search.Visit.{contains-visit_seen, contains-visit_stack}

-- A walk from one of the starts along the links.
pub data IsReached (starts : List String) (linked : String → String → Bool) : String → Type 0 where
  start : {a : String} → contains starts a ≡ true → IsReached starts linked a
  walk : {a b : String} → IsReached starts linked a → linked a b ≡ true → IsReached starts linked b

pub found-injective : (s t : List String) → found s ≡ found t → s ≡ t
found-injective s t h = cc

pub key_error-ne-found : (s : List String) → key_error ≢ found s
key_error-ne-found s h = cc

abbrev pub lists : Adjacency → String → String → Bool
lists adj a b = contains (neighbours adj a) b

module _ (starts : List String) (adj : Adjacency) where
  -- All that is seen is reached, and what is seen and not on the stack has all its neighbours seen.
  pub record IsPartial (seen stack : List String) : Type 0 where
    pub reached : (x : String) → contains seen x ≡ true → IsReached starts (lists adj) x
    pub stacked : (x : String) → contains stack x ≡ true → contains seen x ≡ true
    pub started : (x : String) → contains starts x ≡ true → contains seen x ≡ true
    pub done :
        (a : String)
        → contains seen a ≡ true
        → contains stack a ≡ false
        → (b : String) → lists adj a b ≡ true
        → contains seen b ≡ true

  reached-visit :
      (c : String) (ns seen stack : List String)
      → lookup c adj ≡ some ns
      → IsPartial seen (c ∷ stack)
      → (x : String) → contains (visit ns seen stack).0 x ≡ true
      → IsReached starts (lists adj) x
  reached-visit c ns seen stack key p x h = elim (Bool-cases (contains seen x)) [
    | inl old ↦ p.reached x old
    | inr new ↦
        walk (p.reached c (p.stacked c (ground arith)))
          (rw key (ground (arith, contains-visit_seen ns seen stack x)))
  ]

  done-visit :
      (c : String) (ns seen stack : List String)
      → lookup c adj ≡ some ns
      → IsPartial seen (c ∷ stack)
      → (a : String) → contains (visit ns seen stack).0 a ≡ true
      → contains (visit ns seen stack).1 a ≡ false
      → (b : String) → lists adj a b ≡ true
      → contains (visit ns seen stack).0 b ≡ true
  done-visit c ns seen stack key p a sa ta b link =
      let old : contains seen a ≡ true =
        ground (arith, contains-visit_seen ns seen stack a, contains-visit_stack ns seen stack a) in
      let off : contains stack a ≡ false = ground (arith, contains-visit_stack ns seen stack a) in
      elim (string_eq.dec a c) [
        | yes same ↦
            let here : contains ns b ≡ true = rw (same, key) at link in
            ground (arith, contains-visit_seen ns seen stack b, here)
        | no other ↦
            let seen_b = p.done a old (ground arith) b link in
            ground (arith, contains-visit_seen ns seen stack b, seen_b)
      ]

  IsPartial-visit :
      (c : String) (ns seen stack : List String)
      → lookup c adj ≡ some ns
      → IsPartial seen (c ∷ stack)
      → IsPartial (visit ns seen stack).0 (visit ns seen stack).1
  IsPartial-visit c ns seen stack key p = record {
    reached = reached-visit c ns seen stack key p;
    stacked = λ x h.
        let old = p.stacked x in
        ground
          (arith, contains-visit_seen ns seen stack x, contains-visit_stack ns seen stack x, old);
    started = λ x h. ground (arith, contains-visit_seen ns seen stack x, p.started x h);
    done = done-visit c ns seen stack key p;
  }

  pub search-IsPartial :
      (fuel : ℕ) (seen stack s : List String)
      → IsPartial seen stack
      → search fuel adj seen stack ≡ found s
      → IsPartial s []
  unfolding search
  search-IsPartial zero seen stack s p h = cc
  search-IsPartial (suc fuel) seen [] s p h =
      subst (λ t. IsPartial t []) (found-injective seen s h) p
  search-IsPartial (suc fuel) seen (c ∷ stack) s p h = elim (Option-cases (lookup c adj)) [
    | inl absent ↦ absurd (key_error-ne-found s (rw (absent, search) at h))
    | inr (ns, key) ↦
        search-IsPartial fuel (visit ns seen stack).0 (visit ns seen stack).1 s
          (IsPartial-visit c ns seen stack key p) (rw (key, search) at h)
  ]

  -- At the end the set is closed under the links.
  pub IsPartial-complete :
      (s : List String)
      → IsPartial s []
      → (x : String) → IsReached starts (lists adj) x
      → contains s x ≡ true
  IsPartial-complete s p x (start h) = p.started x h
  IsPartial-complete s p x (walk {a} r link) = p.done a (IsPartial-complete s p a r) refl x link
