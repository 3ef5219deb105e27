-- ===== src/Oms/Sections.antt =====
-- The walk up to the section of a node: it ends, whatever the parents are.
use mathlib.Core.Option.{none-ne-some}
use diep_lab.Base.{
  ℕ, zero, suc, ◌+◌, ◌≤◌, ◌<◌, String, false, Option, none, some, List, [], ◌∷◌, ◌≡◌, ◌≢◌, inl, inr,
  refl, contains, string_eq, length, if◌then◌else◌, Bool-cases, Option-cases, sym, ◌∙◌, arith,
}
use diep_lab.Base.Dict.{Dict, lookup}
use diep_lab.Oms.Records.{Grid}
use diep_lab.Oms.Signals.{out_of_fuel, walk}

-- The rows of nodes that the walk has not seen.
unseen : List String → Dict String (Option String) → ℕ
unseen seen [] = 0
unseen seen ((n, _) ∷ d) = (if contains seen n then 0 else 1) + unseen seen d

unseen_le :
    (c : String) (seen : List String) (d : Dict String (Option String))
    → unseen (c ∷ seen) d ≤ unseen seen d
unfolding unseen
unseen_le c seen [] = omega arith
unseen_le c seen ((n, p) ∷ d) = ground (arith, unseen_le c seen d)

unseen_lt :
    (c : String) (seen : List String) (d : Dict String (Option String))
    → contains seen c ≡ false
    → lookup c d ≢ none
    → unseen (c ∷ seen) d < unseen seen d
unfolding unseen lookup
unseen_lt c seen [] new known = absurd (known refl)
unseen_lt c seen ((n, p) ∷ d) new known = elim (string_eq.dec c n) [
  | yes same ↦ rw (sym same) (ground (arith, unseen_le c seen d))
  | no other ↦ ground (arith, unseen_lt c seen d new (λ e. known (ground arith)))
]

unseen_start : (d : Dict String (Option String)) → unseen [] d ≤ length d
unfolding unseen
unseen_start [] = omega arith
unseen_start (x ∷ d) = omega (arith, unseen_start d)

module _ (g : Grid) where
  walk-none : (fuel : ℕ) (seen : List String) → 1 ≤ fuel → walk g fuel none seen ≢ out_of_fuel
  unfolding walk
  walk-none zero seen h = absurd (omega arith)
  walk-none (suc fuel) seen h = λ e. cc

  walk-ends :
      (fuel : ℕ) (cur : Option String) (seen : List String)
      → unseen seen g.parent + 2 ≤ fuel
      → walk g fuel cur seen ≢ out_of_fuel
  unfolding walk
  walk-ends zero cur seen h = absurd (omega arith)
  walk-ends (suc fuel) none seen h = λ e. cc
  walk-ends (suc fuel) (some cur) seen h = elim (Bool-cases (contains seen cur)) [
    | inl old ↦ rw old (λ e. cc)
    | inr new ↦ elim (Bool-cases (contains g.switch_fed cur)) [
      | inl found ↦ rw (new, found) (λ e. cc)
      | inr further ↦
          rw (new, further)
            (elim (Option-cases (lookup cur g.parent)) [
              | inl at ↦ rw at (walk-none fuel (cur ∷ seen) (omega arith))
              | inr (p, at) ↦ rw at (
                  walk-ends fuel p (cur ∷ seen) (
                    omega
                      (arith, unseen_lt cur seen g.parent new (λ e. none-ne-some p (sym e ∙ at)))))
            ])
    ]
  ]

  -- The walk of `_section_root` ends within the model's fuel, on any parents, cycles included.
  pub section_root-ends :
      (node : String) → walk g (suc (suc (length g.parent))) (some node) [] ≢ out_of_fuel
  section_root-ends node =
      walk-ends (suc (suc (length g.parent))) (some node) [] (omega (arith, unseen_start g.parent))
