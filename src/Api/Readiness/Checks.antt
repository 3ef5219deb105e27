-- ===== src/Api/Readiness/Checks.antt =====
-- fastapi/readiness.py: the results of checks, and the checks that look at one answer. What a probe
-- was answered is an argument, with `none` for an exception. Messages and the observed values are left
-- out, but for the restart counts, which the next run reads.
use diep_lab.Base.{
  ℕ, ◌/◌, String, Bool, true, false, Option, none, some, List, [], ◌∷◌, ◌&&◌, ◌==◌, contains,
  string_eq, nat_eq, if◌then◌else◌,
}
use diep_lab.Base.Dict.{Dict, lookup}
use diep_lab.Base.Int.{ℤ, pos}
use diep_lab.Base.Float.{FloatOps}

pub data CheckStatus : Type 0 where
  pass warn fail : CheckStatus

-- `ReadinessCheckResult`, and with it `DeploymentCheckResult`, which has the same fields.
pub record CheckResult : Type 0 where
  pub check_name : String
  pub status : CheckStatus
  pub weight : ℕ
  pub score : ℕ
  pub critical : Bool
  pub restart_counts : Dict String (Option ℤ)

unfoldable pub pass_result : String → ℕ → CheckResult
pass_result name weight = record {
  check_name = name;
  status = pass;
  weight = weight;
  score = weight;
  critical = true;
  restart_counts = [];
}

unfoldable pub warn_result : String → ℕ → CheckResult
warn_result name weight = record {
  check_name = name;
  status = warn;
  weight = weight;
  score = weight / 2;
  critical = true;
  restart_counts = [];
}

unfoldable pub fail_result : String → ℕ → CheckResult
fail_result name weight = record {
  check_name = name;
  status = fail;
  weight = weight;
  score = 0;
  critical = true;
  restart_counts = [];
}

-- A check that passes exactly if its test does.
unfoldable pub result_if : Bool → String → ℕ → CheckResult
unfolding pass_result fail_result
result_if ok name weight = if ok then pass_result name weight else fail_result name weight

-- The status code and `ready` of /readyz.
unfoldable pub check_fastapi_readyz : Option (ℕ × Bool) → CheckResult
unfolding fail_result result_if nat_eq
check_fastapi_readyz none = fail_result "fastapi_readyz" 15
check_fastapi_readyz (some (code, ready)) = result_if (code == 200 && ready) "fastapi_readyz" 15

-- Whether the connection and its query succeeded.
unfoldable pub check_postgres_connectivity : Bool → CheckResult
unfolding result_if
check_postgres_connectivity connected = result_if connected "postgres_connectivity" 10

unfoldable pub check_redis_connectivity : Option Bool → CheckResult
unfolding fail_result result_if
check_redis_connectivity none = fail_result "redis_connectivity" 10
check_redis_connectivity (some pong) = result_if pong "redis_connectivity" 10

abbrev pub all_in : List String → List String → Bool
all_in [] topics = true
all_in (e ∷ es) topics = contains topics e && all_in es topics

abbrev pub expected_topics : List String
expected_topics = "__consumer_offsets" ∷ "diep.commands" ∷ []

-- The topics that the broker lists.
unfoldable pub check_kafka_broker_health : Option (List String) → CheckResult
unfolding fail_result result_if
check_kafka_broker_health none = fail_result "kafka_broker_health" 15
check_kafka_broker_health (some topics) =
    result_if (all_in expected_topics topics) "kafka_broker_health" 15

-- A sample of `iter_metric_samples`, without its value.
pub record Sample : Type 0 where
  pub name : String
  pub labels : Dict String String

unfoldable pub has_labels : Dict String String → Dict String String → Bool
has_labels labels [] = true
has_labels labels ((k, v) ∷ target) =
    let rest = has_labels labels target in
    elim (lookup k labels) [ none ↦ false | some w ↦ if w == v then rest else false ]

-- `find_metric_value(...) is not None`
unfoldable pub has_metric : List Sample → String → Dict String String → Bool
unfolding has_labels
has_metric [] name target = false
has_metric (s ∷ ss) name target =
    let rest = has_metric ss name target in
    if s.name == name && has_labels s.labels target then true else rest

unfoldable pub check_kafka_exporter_metrics : Option (ℕ × List Sample) → CheckResult
unfolding fail_result result_if nat_eq
check_kafka_exporter_metrics none = fail_result "kafka_exporter_metrics" 10
check_kafka_exporter_metrics (some (code, samples)) =
    result_if
      (code == 200
        && has_metric samples "kafka_brokers" []
        && has_metric samples "kafka_broker_info"
            (("address", "diep-kafka:9092") ∷ ("id", "1") ∷ [])
        && has_metric samples "kafka_topic_partitions" (("topic", "diep.commands") ∷ []))
      "kafka_exporter_metrics" 10

module _ {V : Type 0} ⦃F : FloatOps V⦄ where
  -- `shutil.disk_usage`: total and used bytes, against the greatest percentage.
  unfoldable pub disk_used : ℕ → ℕ → V
  unfolding nat_eq
  disk_used total used =
      if total == 0
      then F.decimal 0 1
      else F.mul (F.div (F.of_int (pos used)) (F.of_int (pos total))) (F.of_int (pos 100))

  unfoldable pub check_disk_utilization : V → ℕ → ℕ → CheckResult
  unfolding result_if
  check_disk_utilization limit total used =
      result_if (F.le (disk_used total used) limit) "disk_utilization" 10

  -- `MemTotal` and `MemAvailable`, 0 where /proc/meminfo has none.
  unfoldable pub memory_used : ℕ → ℕ → V
  unfolding nat_eq
  memory_used total available =
      if total == 0
      then F.decimal 0 1
      else F.mul
          (F.sub (F.of_int (pos 1)) (F.div (F.of_int (pos available)) (F.of_int (pos total))))
          (F.of_int (pos 100))

  unfoldable pub check_memory_utilization : V → ℕ → ℕ → CheckResult
  unfolding result_if
  check_memory_utilization limit total available =
      result_if (F.le (memory_used total available) limit) "memory_utilization" 10
