-- ===== src/Dms/Reports/CrossCheck/Consistent.antt =====
-- `cross_check`: when the report is consistent.
use mathlib.Core.Option.{some-injective, none-ne-some}
use diep_lab.Base.{
  ℕ, ◌+◌, ◌≤◌, String, ◌≡◌, ◌≢◌, ◌↔◌, refl, sym, ◌∙◌, Bool, true, false, not, Option, none, some,
  List, [], ◌∷◌, ◌++◌, ◌||◌, contains, string_eq, inl, inr, Bool-cases, Option-cases, All, arith,
  ltb,
}
use diep_lab.Base.Dict.{Dict, lookup}
use diep_lab.Contracts.Measurement.{is_nil}
use diep_lab.Dms.Reports.{Outage, Contingency, by_element}
use diep_lab.Dms.Reports.CrossCheck.{
  count_mismatch, not_in_model, flag_if, differ_by, model_flags, device_flags, flags_of,
  is_mismatch, check_of, checks_of, mismatches_of, cross_check,
}

-- The inference and the model agree: the device is in the model, and the numbers of customers differ
-- by the tolerance at most. Without a single device there is nothing to compare.
abbrev pub IsAgreeing : ℕ → Dict String Contingency → ℕ → Option String → Type 0
IsAgreeing tol model customers none = Unit
IsAgreeing tol model customers (some eid) =
    (n1 : Contingency) × (lookup eid model ≡ some n1)
    × (customers ≤ n1.lost_customers + tol)
    × (n1.lost_customers ≤ customers + tol)

is_mismatch-append :
    (fs gs : List String) → is_mismatch (fs ++ gs) ≡ (is_mismatch fs || is_mismatch gs)
unfolding is_mismatch
is_mismatch-append [] gs = refl
is_mismatch-append (f ∷ fs) gs = ground (arith, is_mismatch-append fs gs)

-- Which of the flags are mismatches.
flag_kinds :
    (is_mismatch (count_mismatch ∷ []) ≡ true)
    × (is_mismatch (not_in_model ∷ []) ≡ true)
    × (is_mismatch ("restorable_via_tie" ∷ []) ≡ false)
    × (is_mismatch ("n1_confirms_unserved" ∷ []) ≡ false)
    × (is_mismatch ("post_contingency_violation" ∷ []) ≡ false)
    × (is_mismatch ("whole_feeder_outage_no_single_element" ∷ []) ≡ false)
    × (is_mismatch [] ≡ false)
unfolding is_mismatch string_eq
flag_kinds = (refl, refl, refl, refl, refl, refl, refl)

mismatch_flag : (b : Bool) → is_mismatch (flag_if b count_mismatch) ≡ b
mismatch_flag true = flag_kinds.0
mismatch_flag false = flag_kinds.6

other_flag :
    (b : Bool) (f : String) → is_mismatch (f ∷ []) ≡ false → is_mismatch (flag_if b f) ≡ false
other_flag true f h = h
other_flag false f h = flag_kinds.6

model_flags-mismatch :
    (tol customers : ℕ) (n1 : Contingency)
    → is_mismatch (model_flags tol customers n1) ≡ differ_by tol customers n1.lost_customers
unfolding model_flags
model_flags-mismatch tol customers n1 =
    let a = differ_by tol customers n1.lost_customers in
    let b = not (is_nil n1.restored_by) in
    let c = contains ("unserved" ∷ "partial" ∷ []) n1.classification in
    let d = ltb 0 n1.post_violations in
    rw
      (
        is_mismatch-append (flag_if a count_mismatch) (
            flag_if b "restorable_via_tie"
            ++ (flag_if c "n1_confirms_unserved" ++ flag_if d "post_contingency_violation")),
        is_mismatch-append (flag_if b "restorable_via_tie")
            (flag_if c "n1_confirms_unserved" ++ flag_if d "post_contingency_violation"),
        is_mismatch-append (flag_if c "n1_confirms_unserved")
            (flag_if d "post_contingency_violation"),
        mismatch_flag a,
        other_flag b "restorable_via_tie" flag_kinds.2,
        other_flag c "n1_confirms_unserved" flag_kinds.3,
        other_flag d "post_contingency_violation" flag_kinds.4,
      )
      (or_false a)
  where
    or_false : (b : Bool) → (b || (false || (false || false))) ≡ b
    or_false true = refl
    or_false false = refl

-- A check is no mismatch exactly if inference and model agree.
flags_of-IsAgreeing :
    (tol : ℕ) (model : Dict String Contingency) (customers : ℕ) (device : Option String)
    → (is_mismatch (flags_of tol model customers device) ≡ false)
      ↔ IsAgreeing tol model customers device
unfolding flags_of device_flags
flags_of-IsAgreeing tol model customers none = (λ _. tt, λ _. flag_kinds.5)
flags_of-IsAgreeing tol model customers (some eid) = elim (Option-cases (lookup eid model)) [
  | inl absent ↦ (
    λ h. absurd (true-ne-false (sym flag_kinds.1 ∙ rw (absent, device_flags) at h)),
    λ (n1, found, le, ge). absurd (none-ne-some n1 (sym absent ∙ found)),
  )
  | inr (n1, present) ↦ (
    λ h.
        let fine : differ_by tol customers n1.lost_customers ≡ false =
          sym (model_flags-mismatch tol customers n1) ∙ rw (present, device_flags) at h in
        (n1, present, ground arith, ground arith),
    λ (m, found, le, ge).
        let same : n1 ≡ m = some-injective _ _ (sym present ∙ found) in
        rw (present, device_flags) (model_flags-mismatch tol customers n1 ∙ rw same (ground arith)),
  )
]
  where
    true-ne-false : true ≢ false
    true-ne-false e = cc

-- The whole report.
mismatches-IsAgreeing :
    (tol : ℕ) (model : Dict String Contingency) (outages : List Outage)
    → (is_nil (mismatches_of (checks_of tol model outages)) ≡ true)
      ↔ All (λ o. IsAgreeing tol model o.estimated_customers_affected o.probable_device) outages
unfolding mismatches_of checks_of check_of
mismatches-IsAgreeing tol model [] = (λ _. tt, λ _. refl)
mismatches-IsAgreeing tol model (o ∷ os) =
    let flags = flags_of tol model o.estimated_customers_affected o.probable_device in
    let one = flags_of-IsAgreeing tol model o.estimated_customers_affected o.probable_device in
    let rest = mismatches-IsAgreeing tol model os in
    elim (Bool-cases (is_mismatch flags)) [
      | inl bad ↦ (
        λ h. absurd (false-ne-true (rw bad at h)),
        λ (agrees, _). absurd (false-ne-true (sym (one.1 agrees) ∙ bad)),
      )
      | inr fine ↦
          (λ h. (one.0 fine, rest.0 (rw fine at h)), λ (_, others). rw fine (rest.1 others))
    ]
  where
    false-ne-true : false ≢ true
    false-ne-true e = cc

-- The report is consistent exactly if every outage with a single probable device agrees with the
-- contingency model: the device is in it, and the numbers of customers differ by the tolerance at
-- most.
pub cross_check-consistent :
    (tol : ℕ) (outages : List Outage) (contingencies : List Contingency)
    → ((cross_check tol outages contingencies).consistent ≡ true)
      ↔ All
          (λ o.
            IsAgreeing tol
              (by_element contingencies)
              o.estimated_customers_affected
              o.probable_device)
          outages
unfolding cross_check
cross_check-consistent tol outages contingencies =
    mismatches-IsAgreeing tol (by_element contingencies) outages
