-- ===== src/Api/Deployment/Checks.antt =====
-- fastapi/deployment.py: the checks before and after a cutover, and their score. What a probe was
-- answered is an argument, with `none` for an exception that the check catches.
use diep_lab.Base.{
  ℕ, ◌+◌, ◌*◌, ◌/◌, ◌%◌, String, Bool, true, false, Option, none, some, List, [], ◌∷◌, ◌&&◌, ◌==◌,
  contains, string_eq, nat_eq, leb, ltb, nat_eqb, if◌then◌else◌,
}
use diep_lab.Base.Dict.{Dict, lookup}
use diep_lab.Base.Float.{FloatOps}
use diep_lab.Api.Readiness.Checks.{
  CheckStatus, pass, warn, fail, CheckResult, Sample, check_redis_connectivity,
  check_kafka_exporter_metrics,
}
use diep_lab.Api.Readiness.Containers.{Container}
use diep_lab.Api.Readiness.{Run, count_status, total_score, critical_failures}

abbrev pub score_of : CheckStatus → ℕ → ℕ
score_of pass weight = weight
score_of warn weight = weight / 2
score_of fail weight = 0

-- `_result`
unfoldable pub result : String → CheckStatus → ℕ → Bool → CheckResult
result name status weight critical = record {
  check_name = name;
  status = status;
  weight = weight;
  score = score_of status weight;
  critical = critical;
  restart_counts = [];
}

unfoldable pub total_weight : List CheckResult → ℕ
total_weight [] = 0
total_weight (c ∷ cs) = c.weight + total_weight cs

-- `round(a / b)`: to the nearest integer, and to the even one between two. Exact while the numbers
-- are small against 2^53.
unfoldable pub round_div : ℕ → ℕ → ℕ
round_div a b =
    let q = a / b in
    let twice = 2 * (a % b) in
    if ltb twice b then q else if ltb b twice then q + 1 else if nat_eqb (q % 2) 0 then q else q + 1

-- `x or 1`
abbrev pub or_one : ℕ → ℕ
or_one n = if nat_eqb n 0 then 1 else n

-- `ValidationResult`
pub record Validated : Type 0 where
  pub passed : Bool
  pub score : ℕ
  pub pass_threshold : ℕ
  pub checks_passed : ℕ
  pub checks_warned : ℕ
  pub checks_failed : ℕ
  pub critical : List String
  pub checks : List CheckResult

abbrev pub is_empty {ℓ} : {A : Type ℓ} → List A → Bool
is_empty [] = true
is_empty (_ ∷ _) = false

-- `_score_validation`
unfoldable pub score_validation : List CheckResult → ℕ → Validated
unfolding round_div total_weight total_score critical_failures count_status
score_validation checks threshold =
    let score = round_div (100 * total_score checks) (or_one (total_weight checks)) in
    let failures = critical_failures checks in
    record {
      passed = is_empty failures && leb threshold score;
      score = score;
      pass_threshold = threshold;
      checks_passed = count_status pass checks;
      checks_warned = count_status warn checks;
      checks_failed = count_status fail checks;
      critical = failures;
      checks = checks;
    }

abbrev pub pass_if : Bool → CheckStatus
pass_if true = pass
pass_if false = fail

-- The readiness run, where one could be computed.
unfoldable pub check_mw2_readiness : Option Run → CheckResult
unfolding result
check_mw2_readiness none = result "mw2_readiness_certification" fail 25 true
check_mw2_readiness (some run) =
    result "mw2_readiness_certification" (pass_if (run.passed && leb run.pass_threshold run.score))
      25 true

unfoldable pub all_running : List String → Dict String Container → Bool
all_running [] state = true
all_running (n ∷ ns) state =
    elim (lookup n state) [ none ↦ false | some c ↦ c.running && c.status == "running" ]
    && all_running ns state

unfoldable pub check_critical_containers : List String → Dict String Container → CheckResult
unfolding result
check_critical_containers names state =
    result "critical_containers_healthy" (pass_if (all_running names state)) 20 true

module _ {V : Type 0} ⦃F : FloatOps V⦄ where
  -- `max(matches, key=...)`: the time of the newest file.
  unfoldable pub newest : V → List V → V
  newest best [] = best
  newest best (t ∷ ts) = newest (if F.lt best t then t else best) ts

  -- `check_database_backups`, by the modification times of the matching files, with `none` where the
  -- directory is missing.
  unfoldable pub check_database_backups : V → V → Option (List V) → CheckResult
  unfolding result newest
  check_database_backups max_age now none = result "database_backups_present" fail 20 true
  check_database_backups max_age now (some []) = result "database_backups_present" fail 20 true
  check_database_backups max_age now (some (t ∷ ts)) =
      let age = F.div (F.sub now (newest t ts)) (F.decimal 36000 1) in
      result "database_backups_present" (if F.lt max_age age then warn else pass) 20 true

abbrev pub code_in : ℕ → ℕ → Option ℕ → Bool
code_in from to none = false
code_in from to (some code) = leb from code && ltb code to

-- `check_minio_archive`: 2xx.
unfoldable pub check_minio_archive : Option ℕ → CheckResult
unfolding result
check_minio_archive code =
    result "minio_archive_accessible" (pass_if (code_in 200 300 code)) 15 true

-- `_named_readiness`: the status of a probe of the readiness service, under another name.
unfoldable pub named_readiness : String → ℕ → Option CheckResult → CheckResult
unfolding result
named_readiness name weight none = result name fail weight true
named_readiness name weight (some rc) = result name rc.status weight true

-- `_reuse_readiness_check` on the two probes; its configuration may fail to load.
abbrev pub reuse : Bool → CheckResult → Option CheckResult
reuse loads rc = if loads then some rc else none

unfoldable pub check_kafka : String → Bool → Option (ℕ × List Sample) → CheckResult
unfolding named_readiness
check_kafka name loads answer =
    named_readiness name 10 (reuse loads (check_kafka_exporter_metrics answer))

unfoldable pub check_redis : String → Bool → Option Bool → CheckResult
unfolding named_readiness
check_redis name loads answer =
    named_readiness name 10 (reuse loads (check_redis_connectivity answer))

unfoldable pub check_fastapi_readyz : Option ℕ → CheckResult
unfolding result
check_fastapi_readyz code = result "fastapi_readyz" (pass_if (code_in 200 201 code)) 25 true

-- 2xx and 3xx.
unfoldable pub check_portal_login : Option ℕ → CheckResult
unfolding result
check_portal_login code = result "portal_login" (pass_if (code_in 200 400 code)) 15 true

-- `check_prometheus_targets`, by the health of each active target.
unfoldable pub check_prometheus_targets : Option (List String) → CheckResult
unfolding result
check_prometheus_targets none = result "prometheus_targets" fail 10 false
check_prometheus_targets (some []) = result "prometheus_targets" warn 10 false
check_prometheus_targets (some (t ∷ ts)) =
    result "prometheus_targets" (if contains (t ∷ ts) "down" then warn else pass) 10 false

unfoldable pub check_grafana_availability : Option ℕ → CheckResult
unfolding result
check_grafana_availability code =
    result "grafana_availability" (pass_if (code_in 200 201 code)) 10 false
