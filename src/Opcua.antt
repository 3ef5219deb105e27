-- ===== src/Opcua.antt =====
-- services/opcua/browse_cache.py: `BrowseCache`. The clock reading of each call is an argument.
use diep_lab.Base.{
  String, ◌≡◌, ◌≢◌, ◌⊎◌, inl, inr, refl, sym, ap, subst, ◌∙◌, false, Option, none, some, List, [],
  ◌∷◌, ◌==◌, string_eq, arith, All, if◌then◌else◌,
}
use diep_lab.Base.Dict.{Dict, lookup, insert, lookup-insert_self, lookup-insert_ne}
use diep_lab.Base.Float.{FloatOps}

module _ {K : Type 0} where
  -- `del self._store[key]`, and `pop(key, None)`.
  unfoldable pub remove : String → Dict String K → Dict String K
  remove k [] = []
  remove k ((j, v) ∷ d) = let rest = remove k d in if k == j then rest else (j, v) ∷ rest

-- A call of the cache, by any client.
pub data Call (V A : Type 0) : Type 0 where
  reads : V → String → Call V A
  stores : V → String → A → Call V A
  drops : String → Call V A

module _ {V A : Type 0} ⦃F : FloatOps V⦄ where
  -- What `get` makes of the entry that it finds.
  unfoldable pub get_entry :
      V → V → String → Option (V × A) → Dict String (V × A) → Option A × Dict String (V × A)
  get_entry ttl now id none store = (none, store)
  get_entry ttl now id (some (stored_at, value)) store =
      if F.lt ttl (F.sub now stored_at) then (none, remove id store) else (some value, store)

  unfoldable pub get : V → V → String → Dict String (V × A) → Option A × Dict String (V × A)
  get ttl now id store = get_entry ttl now id (lookup id store) store

  unfoldable pub set : V → String → A → Dict String (V × A) → Dict String (V × A)
  set now id value store = insert id (now, value) store

  unfoldable pub invalidate : Option String → Dict String (V × A) → Dict String (V × A)
  invalidate none store = []
  invalidate (some id) store = remove id store

  -- The cache after a call, and after calls in their order.
  unfoldable pub call : V → Call V A → Dict String (V × A) → Dict String (V × A)
  call ttl (reads now id) store = (get ttl now id store).1
  call ttl (stores now id value) store = set now id value store
  call ttl (drops id) store = invalidate (some id) store

  unfoldable pub calls : V → List (Call V A) → Dict String (V × A) → Dict String (V × A)
  calls ttl [] store = store
  calls ttl (c ∷ cs) store = calls ttl cs (call ttl c store)

  -- A call that writes and drops other nodes only, and finds the node, if it reads it, not older than
  -- the time to live.
  abbrev pub Spares : V → String → V → Call V A → Type 0
  Spares ttl id stored (reads now j) = (j ≢ id) ⊎ (F.lt ttl (F.sub now stored) ≡ false)
  Spares ttl id stored (stores now j value) = j ≢ id
  Spares ttl id stored (drops j) = j ≢ id

  lookup-remove :
      (j k : String) (store : Dict String (V × A))
      → lookup j (remove k store) ≡ (if j == k then none else lookup j store)
  unfolding remove lookup
  lookup-remove j k [] = ground arith
  lookup-remove j k (_ ∷ d) = ground (arith, lookup-remove j k d)

  -- The entry of the node: as stored, or none.
  abbrev IsKept : V → Option (V × A) → Type 0
  IsKept stored none = Unit
  IsKept stored (some (at, value)) = at ≡ stored

  get_entry-other :
      (ttl now : V) (id j : String) (o : Option (V × A)) (store : Dict String (V × A))
      → j ≢ id
      → lookup id (get_entry ttl now j o store).1 ≡ lookup id store
  unfolding get_entry
  get_entry-other ttl now id j none store other = refl
  get_entry-other ttl now id j (some (at, v)) store other = ground (arith, lookup-remove id j store)

  get_entry-fresh :
      (ttl now stored : V) (j : String) (o : Option (V × A)) (store : Dict String (V × A))
      → F.lt ttl (F.sub now stored) ≡ false
      → IsKept stored o
      → (get_entry ttl now j o store).1 ≡ store
  unfolding get_entry
  get_entry-fresh ttl now stored j none store fresh kept = refl
  get_entry-fresh ttl now stored j (some (at, v)) store fresh kept =
      rw kept (rw (fresh, get_entry) refl)

  call-Spares :
      (ttl stored : V) (id : String) (c : Call V A) (store : Dict String (V × A))
      → Spares ttl id stored c
      → IsKept stored (lookup id store)
      → lookup id (call ttl c store) ≡ lookup id store
  unfolding call get set invalidate
  call-Spares ttl stored id (reads now j) store (inl other) kept =
      get_entry-other ttl now id j (lookup j store) store other
  call-Spares ttl stored id (reads now j) store (inr fresh) kept = elim (string_eq.dec j id) [
    | yes same ↦
        rw same
          (ap (lookup id) (get_entry-fresh ttl now stored id (lookup id store) store fresh kept))
    | no other ↦ get_entry-other ttl now id j (lookup j store) store other
  ]
  call-Spares ttl stored id (stores now j value) store other kept =
      lookup-insert_ne id j (now, value) store (λ e. other (sym e))
  call-Spares ttl stored id (drops j) store other kept = ground (arith, lookup-remove id j store)

  calls-Spares :
      (ttl stored : V) (id : String) (cs : List (Call V A)) (store : Dict String (V × A))
      → All (Spares ttl id stored) cs
      → IsKept stored (lookup id store)
      → lookup id (calls ttl cs store) ≡ lookup id store
  unfolding calls
  calls-Spares ttl stored id [] store spared kept = refl
  calls-Spares ttl stored id (c ∷ cs) store (spared, rest) kept =
      let now = call-Spares ttl stored id c store spared kept in
      calls-Spares ttl stored id cs (call ttl c store) rest (subst (IsKept stored) (sym now) kept)
      ∙ now

  get-lookup :
      (ttl now : V) (id : String) (store : Dict String (V × A)) (o : Option (V × A))
      → lookup id store ≡ o
      → get ttl now id store ≡ get_entry ttl now id o store
  unfolding get
  get-lookup ttl now id store o at = ap (λ o. get_entry ttl now id o store) at

  lookup_gone : (id : String) (store : Dict String (V × A)) → lookup id (remove id store) ≡ none
  lookup_gone id store = ground (arith, lookup-remove id id store)

  -- After any calls that write and drop other nodes only, and read the node only while it is not too
  -- old, `get` returns the value set before them if it is not older than the time to live, and
  -- otherwise nothing, and the entry is gone; the invalidated node, and every node of a cache that
  -- was cleared, reads as nothing after them.
  pub get-set :
      (ttl stored now : V) (id : String) (value : A) (store : Dict String (V × A))
      (cs : List (Call V A))
      → All (Spares ttl id stored) cs
      → ((get ttl now id (calls ttl cs (set stored id value store))).0
          ≡ (if F.lt ttl (F.sub now stored) then none else some value))
        × (lookup id (get ttl now id (calls ttl cs (set stored id value store))).1
            ≡ (if F.lt ttl (F.sub now stored) then none else some (stored, value)))
        × ((get ttl now id (calls ttl cs (invalidate (some id) store))).0 ≡ none)
        × ((get ttl now id (calls ttl cs (invalidate none store))).0 ≡ none)
  unfolding get_entry set invalidate lookup
  get-set ttl stored now id value store cs spared =
      let set_at = lookup-insert_self id (stored, value) store in
      let kept =
        calls-Spares ttl stored id cs (insert id (stored, value) store) spared
          (subst (IsKept stored) (sym set_at) refl)
        ∙ set_at in
      let none_at = lookup_gone id store in
      let dropped =
        calls-Spares ttl stored id cs (remove id store) spared
          (subst (IsKept stored) (sym none_at) tt)
        ∙ none_at in
      let cleared = calls-Spares ttl stored id cs [] spared tt in
      (
        rw (get-lookup ttl now id _ _ kept) (ground arith),
        rw (get-lookup ttl now id _ _ kept) (
            ground
              (arith, lookup-remove id id (calls ttl cs (insert id (stored, value) store)), kept)),
        rw (get-lookup ttl now id _ _ dropped) refl,
        rw (get-lookup ttl now id _ _ cleared) refl,
      )
