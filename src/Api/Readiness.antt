-- ===== src/Api/Readiness.antt =====
-- fastapi/readiness.py: the readiness assessment of the change window MW2.
pub mod Checks
pub mod Containers
pub mod Certified
use diep_lab.Base.{
  ℕ, suc, ◌+◌, String, Bool, true, false, Option, none, some, List, [], ◌∷◌, ◌&&◌, leb, nat_eqb,
  if◌then◌else◌,
}
use diep_lab.Base.Dict.{Dict}
use diep_lab.Base.Int.{ℤ}
use diep_lab.Base.Float.{FloatOps}
use diep_lab.Api.Readiness.Checks.{
  CheckStatus, pass, warn, fail, CheckResult, Sample, check_fastapi_readyz,
  check_postgres_connectivity, check_redis_connectivity, check_kafka_broker_health,
  check_kafka_exporter_metrics, check_disk_utilization, check_memory_utilization,
}
use diep_lab.Api.Readiness.Containers.{
  Container, check_container_restart_counts, check_critical_service_uptime,
}

-- The limits of `ReadinessConfig`.
pub record Config (V : Type 0) : Type 0 where
  pub critical_containers : List String
  pub max_restart_delta : ℤ
  pub min_uptime_seconds : ℤ
  pub disk_max_used_pct : V
  pub memory_max_used_pct : V
  pub pass_threshold : ℕ

-- What the probes of one assessment are answered, and the clock in microseconds.
pub record Observed : Type 0 where
  pub now : ℤ
  pub readyz : Option (ℕ × Bool)
  pub postgres : Bool
  pub redis : Option Bool
  pub topics : Option (List String)
  pub exporter : Option (ℕ × List Sample)
  pub containers : Dict String Container
  pub disk : ℕ × ℕ
  pub memory : ℕ × ℕ

pub record Run : Type 0 where
  pub passed : Bool
  pub score : ℕ
  pub pass_threshold : ℕ
  pub checks_passed : ℕ
  pub checks_warned : ℕ
  pub checks_failed : ℕ
  pub critical_failures : List String
  pub checks : List CheckResult

abbrev pub is_status : CheckStatus → CheckStatus → Bool
is_status pass pass = true
is_status warn warn = true
is_status fail fail = true
is_status _ _ = false

unfoldable pub count_status : CheckStatus → List CheckResult → ℕ
count_status s [] = 0
count_status s (c ∷ cs) =
    let rest = count_status s cs in if is_status c.status s then suc rest else rest

unfoldable pub total_score : List CheckResult → ℕ
total_score [] = 0
total_score (c ∷ cs) = c.score + total_score cs

-- The names of the critical checks that failed.
unfoldable pub critical_failures : List CheckResult → List String
critical_failures [] = []
critical_failures (c ∷ cs) =
    let rest = critical_failures cs in
    if is_status c.status fail && c.critical then c.check_name ∷ rest else rest

module _ {V : Type 0} ⦃F : FloatOps V⦄ where
  unfoldable pub run_checks : Config V → Observed → Option (List CheckResult) → List CheckResult
  run_checks c o previous =
      check_fastapi_readyz o.readyz
      ∷ check_postgres_connectivity o.postgres
      ∷ check_redis_connectivity o.redis
      ∷ check_kafka_broker_health o.topics
      ∷ check_kafka_exporter_metrics o.exporter
      ∷ check_container_restart_counts c.max_restart_delta c.critical_containers o.containers
          previous
      ∷ check_disk_utilization c.disk_max_used_pct o.disk.0 o.disk.1
      ∷ check_memory_utilization c.memory_max_used_pct o.memory.0 o.memory.1
      ∷ check_critical_service_uptime o.now c.min_uptime_seconds c.critical_containers o.containers
      ∷ []

  -- `run_readiness_assessment`, with the checks of the previous run. `inspect_containers` and the two
  -- readings of usage are taken to return.
  unfoldable pub run_readiness_assessment : Config V → Observed → Option (List CheckResult) → Run
  run_readiness_assessment c o previous =
      let checks = run_checks c o previous in
      let score = total_score checks in
      record {
        passed = nat_eqb (count_status fail checks) 0 && leb c.pass_threshold score;
        score = score;
        pass_threshold = c.pass_threshold;
        checks_passed = count_status pass checks;
        checks_warned = count_status warn checks;
        checks_failed = count_status fail checks;
        critical_failures = critical_failures checks;
        checks = checks;
      }
