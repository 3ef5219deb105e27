-- ===== src/Mdm/Duplicates/Retention.antt =====
-- `_BoundedSet`: its size, and how long a key stays.
use diep_lab.Base.{
  ℕ, suc, ◌+◌, ◌≤◌, ◌<◌, ◌≡◌, refl, ap, ◌∙◌, true, false, List, [], ◌∷◌, ◌++◌, contains,
  contains-append, Eq, length, length-append, ltb, ltb→lt, tests, arith, inl, inr, Bool-cases,
}
use mathlib.Core.List.{append_assoc}
use diep_lab.Mdm.Duplicates.{pop_first, touch, add}

module _ {K : Type 0} ⦃e : Eq K⦄ where
  -- The adds of a run, in order.
  unfoldable pub add_all : ℕ → List K → List K → List K
  add_all n [] store = store
  add_all n (k ∷ ks) store = add_all n ks (add n k store)

  -- The set never holds more than `max_size` keys.
  pub length-add : (n : ℕ) (k : K) (s : List K) → length s ≤ n → length (add n k s) ≤ n
  unfolding add touch
  length-add n k [] h = ground (arith, length-append {0} [] (k ∷ []))
  length-add n k (x ∷ s) h =
      ground (arith, length-append (x ∷ s) (k ∷ []), length-append s (k ∷ []))

  -- The key stands in the store with at most `j` newer keys behind it.
  pub record IsHeld (k : K) (j : ℕ) (s : List K) : Type 0 where
    pub older : List K
    pub newer : List K
    pub split : s ≡ older ++ k ∷ newer
    pub recent : length newer ≤ j

  pub IsHeld→contains : {k : K} {j : ℕ} (s : List K) → IsHeld k j s → contains s k ≡ true
  IsHeld→contains {k} s h = rw h.split (ground (arith, contains-append h.older (k ∷ h.newer) k))

  IsHeld-touch : {k : K} {j : ℕ} (x : K) (s : List K) → IsHeld k j s → IsHeld k (suc j) (touch x s)
  unfolding touch
  IsHeld-touch {k} {j} x s h = elim (Bool-cases (contains s x)) [
    | inl old ↦ rw old (record {
      older = h.older;
      newer = h.newer;
      split = h.split;
      recent = omega (arith, h.recent);
    })
    | inr new ↦ rw new (record {
      older = h.older;
      newer = h.newer ++ x ∷ [];
      split = ap (λ l. l ++ x ∷ []) h.split ∙ append_assoc h.older (k ∷ h.newer) (x ∷ []);
      recent = omega (arith, h.recent, length-append h.newer (x ∷ []));
    })
  ]

  -- The oldest key goes; it is not `k`, since more than `j` keys are there.
  IsHeld-pop_first :
      {k : K} {j : ℕ} (s : List K) (older newer : List K)
      → s ≡ older ++ k ∷ newer
      → length newer ≤ j
      → suc j < length s
      → IsHeld k j (pop_first s)
  IsHeld-pop_first s [] newer split recent long = absurd (omega (arith, ap length split))
  IsHeld-pop_first s (x ∷ older) newer split recent long = record {
    older = older;
    newer = newer;
    split = ap pop_first split;
    recent = recent;
  }

  IsHeld-add :
      {k : K} {j : ℕ} (n : ℕ) (x : K) (s : List K)
      → suc j < n
      → IsHeld k j s
      → IsHeld k (suc j) (add n x s)
  unfolding add
  IsHeld-add {k} {j} n x s room h =
      let t = IsHeld-touch x s h in
      elim (Bool-cases (ltb n (length (touch x s)))) [
        | inl full ↦ rw full (
            IsHeld-pop_first (touch x s) t.older t.newer t.split t.recent
              (omega (tests, ltb→lt n (length (touch x s)) full)))
        | inr free ↦ rw free t
      ]

  IsHeld-add_all :
      {k : K} {j : ℕ} (n : ℕ) (xs s : List K)
      → j + length xs < n
      → IsHeld k j s
      → contains (add_all n xs s) k ≡ true
  unfolding add_all
  IsHeld-add_all n [] s room h = IsHeld→contains s h
  IsHeld-add_all {k} {j} n (x ∷ xs) s room h =
      IsHeld-add_all n xs (add n x s) (omega arith) (IsHeld-add n x s (omega arith) h)

  -- A key that was not there stands last after its own add.
  add-IsHeld :
      (n : ℕ) (k : K) (s : List K)
      → 0 < n
      → length s ≤ n
      → contains s k ≡ false
      → IsHeld k 0 (add n k s)
  unfolding add touch
  add-IsHeld n k s pos fits new = elim (Bool-cases (ltb n (length (s ++ k ∷ [])))) [
    | inl full ↦ rw (new, full) (dropped s fits full)
    | inr free ↦
        rw (new, free) (record { older = s; newer = []; split = refl; recent = omega arith })
  ]
    where
      dropped :
          (s : List K)
          → length s ≤ n
          → ltb n (length (s ++ k ∷ [])) ≡ true
          → IsHeld k 0 (pop_first (s ++ k ∷ []))
      dropped [] fits full = absurd (omega (arith, ltb→lt n 1 full))
      dropped (x ∷ s) fits full = record {
        older = s;
        newer = [];
        split = refl;
        recent = omega arith;
      }

  add_old : (n : ℕ) (k : K) (s : List K) → contains s k ≡ true → length s ≤ n → add n k s ≡ s
  unfolding add touch
  add_old n k s old fits = rw old (ground arith)

  add_full :
      (n : ℕ) (k x : K) (s : List K)
      → suc (length s) ≡ n
      → contains (k ∷ s) x ≡ false
      → add n x (k ∷ s) ≡ s ++ x ∷ []
  unfolding add touch
  add_full n k x s full new = rw new (ground (arith, length-append s (x ∷ [])))

  -- Seeing a key again does not move it: in a full set the oldest key is the next to go, also right
  -- after it was added again.
  pub add-evicts_oldest :
      (n : ℕ) (k x : K) (s : List K)
      → suc (length s) ≡ n
      → contains s k ≡ false
      → contains (k ∷ s) x ≡ false
      → (add n k (k ∷ s) ≡ k ∷ s) × (contains (add n x (add n k (k ∷ s))) k ≡ false)
  add-evicts_oldest n k x s full once new =
      let again = add_old n k (k ∷ s) (ground arith) (omega arith) in
      (again, rw (again, add_full n k x s full new) (ground (arith, contains-append s (x ∷ []) k)))

  -- A new key is still seen after any run of fewer than `max_size` adds, its own included.
  pub add_all-retains :
      (n : ℕ) (k : K) (xs s : List K)
      → length s ≤ n
      → contains s k ≡ false
      → length xs < n
      → contains (add_all n xs (add n k s)) k ≡ true
  add_all-retains n k xs s fits new room =
      IsHeld-add_all {j = 0} n xs (add n k s) (omega arith)
        (add-IsHeld n k s (omega arith) fits new)
