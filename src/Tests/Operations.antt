-- ===== src/Tests/Operations.antt =====
-- Runs of the readiness assessment, of a cutover, and of the telemetry ingestor.
use diep_lab.Base.{
  if◌then◌else◌, String, ◌≡◌, ◌↔◌, refl, true, false, none, some, List, [], ◌∷◌, string_eq, nat_eq,
  ◌==◌, All, ◌*◌, arith,
}
use diep_lab.Base.Dict.{lookup, insert}
use diep_lab.Base.Int.{ℤ, pos, negsuc, ◌-ℤ◌, ◌*ℤ◌}
use diep_lab.Contracts.Error.{float}
use diep_lab.Api.Readiness.Checks.{
  Sample, fail_result, pass_result, result_if, check_fastapi_readyz, check_postgres_connectivity,
  check_redis_connectivity, check_kafka_broker_health, has_labels, has_metric,
  check_kafka_exporter_metrics, disk_used, check_disk_utilization, memory_used,
  check_memory_utilization,
}
use diep_lab.Api.Readiness.Containers.{
  collect, restart_count_of, current_counts, with_counts, whole_seconds, is_up, all_up,
  check_container_restart_counts, check_critical_service_uptime,
}
use diep_lab.Api.Readiness.{
  Config, Observed, count_status, total_score, run_checks, run_readiness_assessment,
}
use diep_lab.Api.Readiness.Certified.{IsReady, run-IsReady}
use diep_lab.Api.Deployment.Checks.{Validated}
use diep_lab.Api.Deployment.{After, Deployment, Tables, failed, no_go, go, validate_cutover}
use diep_lab.Api.Deployment.Gate.{IsLive, validate_cutover-go}
use diep_lab.Ingest.{State, Payload, unparseable, flat, handle_all, envelope_to_legacy_body}
use diep_lab.Ingest.Finite.{KeepsFinite, IsPosted, handle_all-IsPosted}
use diep_lab.Ingest.Kept.{IsKept, envelope_to_legacy_body-IsKept}
use diep_lab.Tests.Samples.{micro, fixed_point, parser}
use diep_lab.Tests.Runs.{decoded}
use diep_lab.Tests.Contracts.{decoded-IsValid}

abbrev config : Config ℤ
config = record {
  critical_containers = "api" ∷ [];
  max_restart_delta = pos 3;
  min_uptime_seconds = pos 600;
  disk_max_used_pct = pos (80 * micro);
  memory_max_used_pct = pos (85 * micro);
  pass_threshold = 90;
}

abbrev samples : List Sample
samples =
    record { name = "kafka_brokers"; labels = [] }
    ∷ record {
      name = "kafka_broker_info";
      labels = ("id", "1") ∷ ("address", "diep-kafka:9092") ∷ [];
    }
    ∷ record { name = "kafka_topic_partitions"; labels = ("topic", "diep.commands") ∷ [] }
    ∷ []

abbrev observed : Observed
observed = record {
  now = pos (1000 * micro);
  readyz = some (200, true);
  postgres = true;
  redis = some true;
  topics = some ("diep.commands" ∷ "__consumer_offsets" ∷ []);
  exporter = some (200, samples);
  containers =
      (
        "api",
        record {
          status = "running";
          running = true;
          restart_count = pos 1;
          started_at = some (pos (100 * micro));
        },
      )
      ∷ [];
  disk = (100, 40);
  memory = (100, 50);
}

observed_passes : (run_readiness_assessment config observed none).passed ≡ true
unfolding run_readiness_assessment run_checks count_status total_score fail_result pass_result
    result_if check_fastapi_readyz check_postgres_connectivity check_redis_connectivity
    check_kafka_broker_health has_labels has_metric check_kafka_exporter_metrics disk_used
    check_disk_utilization memory_used check_memory_utilization collect restart_count_of
    current_counts with_counts whole_seconds is_up all_up check_container_restart_counts
    check_critical_service_uptime fixed_point lookup insert string_eq nat_eq ◌*ℤ◌ ◌-ℤ◌
observed_passes = refl

run-IsReady_example : IsReady config observed none
run-IsReady_example = run-IsReady config observed none observed_passes

abbrev validation : Validated
validation = record {
  passed = false;
  score = 40;
  pass_threshold = 90;
  checks_passed = 2;
  checks_warned = 0;
  checks_failed = 4;
  critical = "redis_health" ∷ [];
  checks = [];
}

-- A deployment that failed its first validation.
abbrev failed_deployment : Deployment
failed_deployment = record {
  started_at = 1;
  completed_at = some 2;
  status = failed;
  gate = no_go;
  operator = "ops";
  change_ref = none;
  validation_score = some 40;
  pass_threshold = 90;
  pre_cutover = validation;
  post_cutover = some validation;
}

abbrev tables : Tables
tables = record { deployments = ("d1", failed_deployment) ∷ []; events = [] }

abbrev answers : After
answers = record {
  readyz = some 200;
  portal = some 302;
  loads = true;
  redis = some true;
  kafka = some (200, samples);
  targets = some ("up" ∷ "down" ∷ []);
  grafana = none;
}

deployment_found : lookup "d1" tables.deployments ≡ some failed_deployment
unfolding lookup string_eq
deployment_found = refl

validate_cutover-go_example :
    (t' : Tables) × (validate_cutover 80 answers "d1" 9 "ops" tables ≡ some t')
    × ((d : Deployment) × ((other : String)
          → lookup other t'.deployments
            ≡ (if other == "d1" then some d else lookup other tables.deployments))
        × (d.completed_at ≡ some 9)
        × ((d.gate ≡ go) ↔ IsLive 80 answers))
validate_cutover-go_example =
    validate_cutover-go 80 answers "d1" "ops" 9 tables failed_deployment deployment_found

fixed_point-KeepsFinite : KeepsFinite ℤ
unfolding fixed_point ◌-ℤ◌
fixed_point-KeepsFinite = record {
  zero = refl;
  negated = λ v finite. elim v [ pos n ↦ ground arith | negsuc n ↦ ground arith ];
}

abbrev idle : State ℤ
idle = record { seen = []; rejected = []; posted = [] }

abbrev messages : List (String × Payload ℤ)
messages = ("m", unparseable) ∷ ("diep/meter1", flat (("pcc_kw", float (pos 4000000)) ∷ [])) ∷ []

handle_all-IsPosted_example : IsPosted (handle_all parser "c9" (λ s. "on") messages idle).posted
handle_all-IsPosted_example =
    handle_all-IsPosted fixed_point-KeepsFinite parser "c9" (λ s. "on") messages idle tt

envelope_to_legacy_body-IsKept_example :
    All
      (IsKept (envelope_to_legacy_body decoded).fields (envelope_to_legacy_body decoded).quality)
      decoded.measurements
envelope_to_legacy_body-IsKept_example =
    envelope_to_legacy_body-IsKept parser decoded decoded-IsValid
