-- ===== src/Mdm/Enrichment/Lineage.antt =====
-- `_walk_to_node_type` against the ancestors of a node.
use mathlib.Core.Option.{some-injective, none-ne-some}
use diep_lab.Base.{
  ℕ, zero, suc, ◌<◌, ◌≡◌, ◌≢◌, refl, sym, ◌∙◌, Option, none, some, String, string_eq, arith, if_pos,
  if_neg, inl, inr, Option-cases,
}
use diep_lab.Mdm.Enrichment.{GridNode, fetch_parent, walk_from}

-- `m` stands `k` parents above `n`.
pub data IsAncestor (fetch : String → Option GridNode) (m : GridNode) : ℕ → GridNode → Type 0 where
  here : IsAncestor fetch m zero m
  above :
      {k : ℕ} {n up : GridNode}
      → fetch_parent fetch n ≡ some up
      → IsAncestor fetch m k up
      → IsAncestor fetch m (suc k) n

module _ (fetch : String → Option GridNode) (target : String) where
  pub record IsFound (hops : ℕ) (start : GridNode) (id : String) : Type 0 where
    pub ancestor : GridNode
    pub distance : ℕ
    pub near : distance < hops
    pub path : IsAncestor fetch ancestor distance start
    pub typed : ancestor.node_type ≡ target
    pub named : ancestor.node_id ≡ id

  walk_none : (hops : ℕ) → walk_from fetch hops target none ≡ none
  unfolding walk_from
  walk_none zero = refl
  walk_none (suc hops) = refl

  IsFound-above :
      {hops : ℕ} {start up : GridNode} {id : String}
      → fetch_parent fetch start ≡ some up
      → IsFound hops up id
      → IsFound (suc hops) start id
  IsFound-above parent f = record {
    ancestor = f.ancestor;
    distance = suc f.distance;
    near = omega (arith, f.near);
    path = above parent f.path;
    typed = f.typed;
    named = f.named;
  }

  -- What the walk returns is an ancestor of the type, fewer parents up than there are hops.
  pub walk_from-IsFound :
      (hops : ℕ) (start : GridNode) (id : String)
      → walk_from fetch hops target (some start) ≡ some id
      → IsFound hops start id
  unfolding walk_from
  walk_from-IsFound zero start id h = cc
  walk_from-IsFound (suc hops) start id h = elim (string_eq.dec start.node_type target) [
    | yes typed ↦ record {
      ancestor = start;
      distance = zero;
      near = omega arith;
      path = here;
      typed = typed;
      named = some-injective _ _ (rw (if_pos _ typed) at h);
    }
    | no other ↦
        let up = rw (if_neg _ other) at h in
        elim (Option-cases (fetch_parent fetch start)) [
          | inl top ↦ absurd (none-ne-some id (sym (walk_none hops) ∙ (rw top at up)))
          | inr (parent, found) ↦
              IsFound-above found (walk_from-IsFound hops parent id (rw found at up))
        ]
  ]

  -- An ancestor of the type within the hops is never missed: the walk returns some node.
  pub walk_from-ne-none :
      {k : ℕ} {start ancestor : GridNode} (hops : ℕ)
      → IsAncestor fetch ancestor k start
      → k < hops
      → ancestor.node_type ≡ target
      → walk_from fetch hops target (some start) ≢ none
  unfolding walk_from
  walk_from-ne-none zero path near typed = elim near [ ]
  walk_from-ne-none (suc hops) here near typed = rw (if_pos _ typed) (λ e. cc)
  walk_from-ne-none (suc hops) (above {n = start} parent path) near typed =
      elim (string_eq.dec start.node_type target) [
        | yes same ↦ rw (if_pos _ same) (λ e. cc)
        | no other ↦ rw (if_neg _ other, parent) (walk_from-ne-none hops path (omega arith) typed)
      ]
