-- ===== src/Api/Readiness/Containers.antt =====
-- fastapi/readiness.py: the checks of the critical containers, by their restarts and their uptime.
use diep_lab.Base.{
  suc, ◌/◌, String, Bool, true, false, not, Option, none, some, List, [], ◌∷◌, ◌&&◌, ◌||◌, ◌==◌,
  string_eq, if◌then◌else◌,
}
use diep_lab.Base.Dict.{Dict, lookup, insert}
use diep_lab.Base.Int.{ℤ, pos, negsuc, ◌-ℤ◌, ltb_ℤ, sub_ℕ}
use diep_lab.Api.Readiness.Checks.{CheckResult, pass_result, fail_result}

-- A snapshot of `inspect_containers`; the start is in microseconds.
pub record Container : Type 0 where
  pub status : String
  pub running : Bool
  pub restart_count : ℤ
  pub started_at : Option ℤ

-- `d[k] = v` for each name, in order.
module _ {V : Type 0} (f : String → V) where
  unfoldable pub collect : List String → Dict String V → Dict String V
  collect [] d = d
  collect (n ∷ ns) d = collect ns (insert n (f n) d)

unfoldable pub restart_count_of : Dict String Container → String → Option ℤ
restart_count_of state n = elim (lookup n state) [ none ↦ none | some c ↦ some c.restart_count ]

unfoldable pub current_counts : List String → Dict String Container → Dict String (Option ℤ)
unfolding collect restart_count_of
current_counts names state = collect (restart_count_of state) names []

unfoldable pub known_counts : Dict String (Option ℤ) → Dict String ℤ
known_counts [] = []
known_counts ((n, none) ∷ d) = known_counts d
known_counts ((n, some c) ∷ d) = (n, c) ∷ known_counts d

abbrev pub restarts_name : String
restarts_name = "container_restart_counts"

-- `_previous_restart_counts`, of the checks of the previous run.
unfoldable pub previous_counts : List CheckResult → Dict String ℤ
unfolding known_counts
previous_counts [] = []
previous_counts (c ∷ cs) =
    let rest = previous_counts cs in
    if c.check_name == restarts_name then known_counts c.restart_counts else rest

-- Whether the delta of one container is known and exceeds the threshold.
unfoldable pub is_offender : ℤ → Option ℤ → Option ℤ → Bool
is_offender limit none now = false
is_offender limit (some before) none = false
is_offender limit (some before) (some now) = ltb_ℤ limit (now -ℤ before)

unfoldable pub any_offender : ℤ → Dict String ℤ → Dict String (Option ℤ) → Bool
unfolding is_offender
any_offender limit before [] = false
any_offender limit before ((n, now) ∷ d) =
    is_offender limit (lookup n before) now || any_offender limit before d

unfoldable pub with_counts : Dict String (Option ℤ) → CheckResult → CheckResult
with_counts counts c = record c { restart_counts = counts }

-- `check_container_restart_counts`, with the checks of the previous run where there was one.
unfoldable pub check_container_restart_counts :
    ℤ → List String → Dict String Container → Option (List CheckResult) → CheckResult
unfolding with_counts pass_result fail_result
check_container_restart_counts limit names state none =
    with_counts (current_counts names state) (pass_result restarts_name 10)
check_container_restart_counts limit names state (some checks) =
    let counts = current_counts names state in
    with_counts counts (
      if any_offender limit (previous_counts checks) counts
      then fail_result restarts_name 10
      else pass_result restarts_name 10)

-- `int((now - started_at).total_seconds())`, which rounds towards zero.
unfoldable pub whole_seconds : ℤ → ℤ
whole_seconds (pos n) = pos (n / 1000000)
whole_seconds (negsuc n) = sub_ℕ 0 (suc n / 1000000)

-- Whether a container is running, and long enough.
unfoldable pub is_up : ℤ → ℤ → Option Container → Bool
unfolding whole_seconds
is_up now least none = false
is_up now least (some c) = c.running && elim c.started_at [
  | none ↦ false
  | some start ↦ not (ltb_ℤ (whole_seconds (now -ℤ start)) least)
]

unfoldable pub all_up : ℤ → ℤ → Dict String Container → List String → Bool
all_up now least state [] = true
all_up now least state (n ∷ ns) = is_up now least (lookup n state) && all_up now least state ns

-- `check_critical_service_uptime`
unfoldable pub check_critical_service_uptime :
    ℤ → ℤ → List String → Dict String Container → CheckResult
unfolding pass_result fail_result
check_critical_service_uptime now least names state =
    if all_up now least state names
    then pass_result "critical_service_uptime" 10
    else fail_result "critical_service_uptime" 10
