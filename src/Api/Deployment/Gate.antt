-- ===== src/Api/Deployment/Gate.antt =====
-- The gate of a cutover: what GO stands for.
use diep_lab.Base.{
  ◌==◌, ℕ, ◌≤◌, String, Bool, true, false, Option, none, some, List, [], ◌∷◌, ◌&&◌, ◌≡◌, ◌↔◌, refl,
  sym, ◌∙◌, ap, string_eq, nat_eq, leb, if◌then◌else◌, arith,
}
use diep_lab.Base.Dict.{lookup, lookup-insert}
use diep_lab.Api.Readiness.Checks.{
  CheckStatus, pass, warn, fail, CheckResult, Sample, result_if, check_redis_connectivity,
  check_kafka_exporter_metrics,
}
use diep_lab.Api.Readiness.{is_status}
use diep_lab.Api.Deployment.Checks.{
  result, score_validation, pass_if, code_in, reuse, named_readiness, check_kafka, check_redis,
  check_fastapi_readyz, check_portal_login, check_prometheus_targets, check_grafana_availability,
}
use diep_lab.Api.Deployment.{
  go, no_go, Deployment, Tables, After, post_cutover_validation, record_event, finished, close,
  validate_cutover,
}

-- The score of a live system, by the two checks that are not critical.
abbrev pub live_score : CheckStatus → Bool → ℕ
live_score pass true = 100
live_score warn true = 94
live_score fail true = 88
live_score pass false = 88
live_score warn false = 81
live_score fail false = 75

post_score :
    (threshold : ℕ) (api portal redis kafka : Bool) (targets : CheckStatus) (grafana : Bool)
    → (score_validation
        (result "fastapi_readyz" (pass_if api) 25 true
          ∷ result "portal_login" (pass_if portal) 15 true
          ∷ result "redis_connectivity" (pass_if redis) 10 true
          ∷ result "kafka_metrics" (pass_if kafka) 10 true
          ∷ result "prometheus_targets" targets 10 false
          ∷ result "grafana_availability" (pass_if grafana) 10 false
          ∷ [])
        threshold).passed
      ≡ (api && portal && redis && kafka && leb threshold (live_score targets grafana))
unfolding score_validation result
post_score threshold false portal redis kafka targets grafana = refl
post_score threshold true false redis kafka targets grafana = refl
post_score threshold true true false kafka targets grafana = refl
post_score threshold true true true false targets grafana = refl
post_score threshold true true true true pass true = refl
post_score threshold true true true true warn true = refl
post_score threshold true true true true fail true = refl
post_score threshold true true true true pass false = refl
post_score threshold true true true true warn false = refl
post_score threshold true true true true fail false = refl

abbrev pub is_true : Option Bool → Bool
is_true none = false
is_true (some b) = b

abbrev pub passes : CheckResult → Bool
passes c = is_status c.status pass

named_if :
    (name : String) (loads b : Bool) (probe : String) (w : ℕ)
    → named_readiness name 10 (reuse loads (result_if b probe w))
      ≡ result name (pass_if (loads && b)) 10 true
unfolding named_readiness result_if
named_if name false b probe w = refl
named_if name true true probe w = refl
named_if name true false probe w = refl

redis_if :
    (name : String) (loads : Bool) (answer : Option Bool)
    → check_redis name loads answer ≡ result name (pass_if (loads && is_true answer)) 10 true
unfolding check_redis check_redis_connectivity
redis_if name loads none = named_if name loads false "redis_connectivity" 10
redis_if name loads (some b) = named_if name loads b "redis_connectivity" 10

passes-result_if : (b : Bool) (name : String) (w : ℕ) → passes (result_if b name w) ≡ b
unfolding result_if
passes-result_if true name w = refl
passes-result_if false name w = refl

kafka_if :
    (name : String) (loads : Bool) (answer : Option (ℕ × List Sample))
    → check_kafka name loads answer
      ≡ result name (pass_if (loads && passes (check_kafka_exporter_metrics answer))) 10 true
unfolding check_kafka check_kafka_exporter_metrics
kafka_if name loads none = named_if name loads false "kafka_exporter_metrics" 10
kafka_if name loads (some (code, samples)) =
    named_if name loads _ "kafka_exporter_metrics" 10
    ∙ ap (λ b. result name (pass_if (loads && b)) 10 true) (sym (passes-result_if _ _ _))

targets_status :
    (o : Option (List String))
    → check_prometheus_targets o
      ≡ result "prometheus_targets" (check_prometheus_targets o).status 10 false
unfolding check_prometheus_targets result
targets_status none = refl
targets_status (some []) = refl
targets_status (some (t ∷ ts)) = refl

post_passed :
    (threshold : ℕ) (o : After)
    → (post_cutover_validation threshold o).passed ≡ (
        code_in 200 201 o.readyz
        && code_in 200 400 o.portal
        && (o.loads && is_true o.redis)
        && (o.loads && passes (check_kafka_exporter_metrics o.kafka))
        && leb threshold
            (live_score (check_prometheus_targets o.targets).status (code_in 200 201 o.grafana)))
unfolding post_cutover_validation check_fastapi_readyz check_portal_login check_grafana_availability
post_passed threshold o =
    rw (redis_if "redis_connectivity" o.loads o.redis, kafka_if "kafka_metrics" o.loads o.kafka)
      (ap
          (λ c.
            (score_validation
              (result "fastapi_readyz" (pass_if (code_in 200 201 o.readyz)) 25 true
                ∷ result "portal_login" (pass_if (code_in 200 400 o.portal)) 15 true
                ∷ result "redis_connectivity" (pass_if (o.loads && is_true o.redis)) 10 true
                ∷ result "kafka_metrics"
                    (pass_if (o.loads && passes (check_kafka_exporter_metrics o.kafka))) 10 true
                ∷ c
                ∷ result "grafana_availability" (pass_if (code_in 200 201 o.grafana)) 10 false
                ∷ [])
              threshold).passed)
          (targets_status o.targets)
        ∙ post_score threshold _ _ _ _ _ _)

-- The critical checks pass, and the score that the other two leave reaches the threshold.
abbrev pub IsLive : ℕ → After → Type 0
IsLive threshold o =
    (o.readyz ≡ some 200)
    × (code_in 200 400 o.portal ≡ true)
    × (o.loads ≡ true)
    × (o.redis ≡ some true)
    × (passes (check_kafka_exporter_metrics o.kafka) ≡ true)
    × (threshold
        ≤ live_score (check_prometheus_targets o.targets).status (code_in 200 201 o.grafana))

code_200 : (o : Option ℕ) → (code_in 200 201 o ≡ true) ↔ (o ≡ some 200)
code_200 none = ((λ h. cc), (λ h. cc))
code_200 (some code) = ((λ h. ground arith), (λ h. ground arith))

is_true_iff : (o : Option Bool) → (is_true o ≡ true) ↔ (o ≡ some true)
is_true_iff none = ((λ h. cc), (λ h. cc))
is_true_iff (some b) = ((λ h. ap some h), (λ h. cc))

passed-IsLive :
    (threshold : ℕ) (o : After)
    → ((post_cutover_validation threshold o).passed ≡ true) ↔ IsLive threshold o
passed-IsLive threshold o = (
  (λ h.
      let all = sym (post_passed threshold o) ∙ h in
      (
        (code_200 o.readyz).0 (ground arith),
        ground arith,
        ground arith,
        (is_true_iff o.redis).0 (ground arith),
        ground arith,
        ground arith,
      )),
  (λ (api, portal, loads, redis, kafka, score).
      post_passed threshold o
      ∙ rw (portal, loads, kafka, (code_200 o.readyz).1 api, (is_true_iff o.redis).1 redis)
          (ground arith)),
)

gate_go :
    (threshold : ℕ) (o : After)
    → ((if (post_cutover_validation threshold o).passed then go else no_go) ≡ go)
      ↔ IsLive threshold o
gate_go threshold o = (
  (λ h. (passed-IsLive threshold o).0 (ground arith)),
  (λ live. rw ((passed-IsLive threshold o).1 live) refl),
)

-- The validation after a cutover finds the deployment, whatever its state and its earlier gate were,
-- records its outcome in it and changes no other deployment; the gate is GO exactly if the API
-- answers, the portal is reachable, Redis and the exporter pass their readiness probes, and the score,
-- which the targets of Prometheus and Grafana bring down from 100, reaches the threshold.
pub validate_cutover-go :
    (threshold : ℕ) (o : After) (id operator : String) (now : ℕ) (t : Tables) (row : Deployment)
    → lookup id t.deployments ≡ some row
    → (t' : Tables) × (validate_cutover threshold o id now operator t ≡ some t')
      × ((d : Deployment) × ((other : String)
            → lookup other t'.deployments
              ≡ (if other == id then some d else lookup other t.deployments))
          × (d.completed_at ≡ some now)
          × ((d.gate ≡ go) ↔ IsLive threshold o))
unfolding validate_cutover close finished record_event
validate_cutover-go threshold o id operator now t row at = (
  close id operator (finished now (post_cutover_validation threshold o) row) t,
  rw (at, validate_cutover) refl,
  (
    finished now (post_cutover_validation threshold o) row,
    λ other. lookup-insert other id _ t.deployments,
    refl,
    gate_go threshold o,
  ),
)
