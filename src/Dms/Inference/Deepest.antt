-- ===== src/Dms/Inference/Deepest.antt =====
-- `_lca` against the common ancestors of the dark nodes.
use mathlib.Core.Option.{some-injective, none-ne-some}
use diep_lab.Base.{
  ◌≤◌, String, ◌≡◌, refl, sym, ◌∙◌, subst, true, some, List, [], ◌∷◌, ◌&&◌, contains, string_eq,
  arith,
}
use diep_lab.Base.Dict.{Dict}
use diep_lab.Dms.Inference.{ancestors, depth, is_common, common_of, deepest, deepest_of, lca}

module _ (parent : Dict String String) (root : String) where
  contains-common_of :
      (ns ds : List String) (x : String)
      → contains (common_of parent root ns ds) x ≡ (contains ns x && is_common parent root ds x)
  unfolding common_of
  contains-common_of [] ds x = refl
  contains-common_of (n ∷ ns) ds x = elim (string_eq.dec x n) [
    | yes same ↦ rw same (ground (arith, contains-common_of ns ds n))
    | no other ↦ ground (arith, contains-common_of ns ds x)
  ]

  -- The result is one of the nodes, and no node is deeper.
  deepest_member :
      (best : String) (ns : List String) → contains (best ∷ ns) (deepest parent root best ns) ≡ true
  unfolding deepest
  deepest_member best [] = ground arith
  deepest_member best (n ∷ ns) = ground (arith, deepest_member best ns, deepest_member n ns)

  deepest_best :
      (best : String) (ns : List String)
      → depth parent root best ≤ depth parent root (deepest parent root best ns)
  unfolding deepest
  deepest_best best [] = omega arith
  deepest_best best (n ∷ ns) = ground (arith, deepest_best best ns, deepest_best n ns)

  deepest_le :
      (best : String) (ns : List String) (x : String)
      → contains ns x ≡ true
      → depth parent root x ≤ depth parent root (deepest parent root best ns)
  unfolding deepest
  deepest_le best [] x h = cc
  deepest_le best (n ∷ ns) x h = elim (string_eq.dec x n) [
    | yes same ↦ rw same (ground (arith, deepest_best best ns, deepest_best n ns))
    | no other ↦ ground (arith, deepest_le best ns x, deepest_le n ns x)
  ]

  -- An ancestor of every dark node.
  abbrev pub IsCommon : List String → String → Type 0
  IsCommon dark n =
      (d : String) → contains dark d ≡ true → contains (ancestors parent root d) n ≡ true

  is_common→IsCommon :
      (ds : List String) (n : String) → is_common parent root ds n ≡ true → IsCommon ds n
  unfolding is_common
  is_common→IsCommon [] n h d m = cc
  is_common→IsCommon (e ∷ ds) n h d m = elim (string_eq.dec d e) [
    | yes same ↦ rw same (ground arith)
    | no other ↦ is_common→IsCommon ds n (ground arith) d (ground arith)
  ]

  IsCommon→is_common :
      (ds : List String) (n : String) → IsCommon ds n → is_common parent root ds n ≡ true
  unfolding is_common
  IsCommon→is_common [] n h = refl
  IsCommon→is_common (e ∷ ds) n h =
      let first = h e (ground arith) in
      let rest = IsCommon→is_common ds n (λ d m. h d (ground arith)) in ground (arith, first, rest)

  deepest_all :
      (c : String) (cs : List String) (x : String)
      → contains (c ∷ cs) x ≡ true
      → depth parent root x ≤ depth parent root (deepest parent root c cs)
  deepest_all c cs x h = elim (string_eq.dec x c) [
    | yes same ↦ rw same (deepest_best c cs)
    | no other ↦ deepest_le c cs x (ground arith)
  ]

  IsCommon-cons :
      (d : String) (ds : List String) (n : String)
      → (contains (ancestors parent root d) n && is_common parent root ds n) ≡ true
      → IsCommon (d ∷ ds) n
  IsCommon-cons d ds n both x m = elim (string_eq.dec x d) [
    | yes same ↦ rw same (ground arith)
    | no other ↦ is_common→IsCommon ds n (ground arith) x (ground arith)
  ]

  common_of_all :
      (d : String) (ds : List String) (x : String)
      → IsCommon (d ∷ ds) x
      → (contains (ancestors parent root d) x && is_common parent root ds x) ≡ true
  common_of_all d ds x common =
      let first = common d (ground arith) in
      let rest = IsCommon→is_common ds x (λ e m. common e (ground arith)) in
      ground (arith, first, rest)

  -- What `_lca` returns for dark nodes is an ancestor of each of them, and no node that is one is
  -- deeper.
  pub lca-deepest :
      (d : String) (ds : List String) (n : String)
      → lca parent root (d ∷ ds) ≡ some n
      → IsCommon (d ∷ ds) n
        × ((x : String) → IsCommon (d ∷ ds) x → depth parent root x ≤ depth parent root n)
  unfolding lca deepest_of
  lca-deepest d ds n h =
      picked (common_of parent root (ancestors parent root d) ds) (contains-common_of _ ds) h
    where
      picked :
          (common : List String)
          → ((x : String)
              → contains common x
                ≡ (contains (ancestors parent root d) x && is_common parent root ds x))
          → deepest_of parent root common ≡ some n
          → IsCommon (d ∷ ds) n
            × ((x : String) → IsCommon (d ∷ ds) x → depth parent root x ≤ depth parent root n)
      picked [] same e = absurd (none-ne-some n e)
      picked (c ∷ cs) same e =
          let it : deepest parent root c cs ≡ n = some-injective _ _ e in
          let member : contains (c ∷ cs) n ≡ true =
            subst (λ m. contains (c ∷ cs) m ≡ true) it (deepest_member c cs) in
          let both : (contains (ancestors parent root d) n && is_common parent root ds n) ≡ true =
            sym (same n) ∙ member in
          (
            IsCommon-cons d ds n both,
            λ x common.
                subst (λ m. depth parent root x ≤ depth parent root m) it
                  (deepest_all c cs x (same x ∙ common_of_all d ds x common)),
          )
