-- ===== src/Contracts/Quality.antt =====
-- contracts/quality.py: the quality flag of a measurement.
use diep_lab.Base.{
  String, ◌≡◌, refl, Bool, true, false, Option, none, some, List, [], ◌∷◌, ◌==◌, string_eq,
  if◌then◌else◌,
}

pub data Quality : Type 0 where
  good estimated substituted invalid missing communication_failure out_of_range duplicate : Quality

-- `q.value`
unfoldable pub value : Quality → String
value good = "GOOD"
value estimated = "ESTIMATED"
value substituted = "SUBSTITUTED"
value invalid = "INVALID"
value missing = "MISSING"
value communication_failure = "COMMUNICATION_FAILURE"
value out_of_range = "OUT_OF_RANGE"
value duplicate = "DUPLICATE"

abbrev members : List Quality
members =
    good ∷ estimated ∷ substituted ∷ invalid ∷ missing ∷ communication_failure ∷ out_of_range
    ∷ duplicate ∷ []

-- The first member with that value.
find_member : List Quality → String → Option Quality
find_member [] s = none
find_member (q ∷ qs) s = if value q == s then some q else find_member qs s

-- `Quality(s)`, with `none` for ValueError.
unfoldable pub quality_of : String → Option Quality
unfolding find_member
quality_of = find_member members

unfoldable pub is_measured : Quality → Bool
is_measured good = true
is_measured _ = false

unfoldable pub is_usable_for_billing : Quality → Bool
is_usable_for_billing good = true
is_usable_for_billing substituted = true
is_usable_for_billing _ = false

unfoldable pub is_estimated : Quality → Bool
is_estimated estimated = true
is_estimated _ = false

pub Quality-discrete : Discrete Quality
Quality-discrete = hlevel

-- The lookup by value finds each flag again.
pub quality_of-value : (q : Quality) → quality_of (value q) ≡ some q
unfolding quality_of value string_eq
quality_of-value good = refl
quality_of-value _ = refl
