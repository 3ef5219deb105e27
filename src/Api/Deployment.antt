-- ===== src/Api/Deployment.antt =====
-- fastapi/deployment.py: a production cutover, from its record to its gate. The tables of deployments
-- and of their events are a dict and a list; baseline, notes and the details of events are left out.
pub mod Checks
pub mod Gate
use diep_lab.Base.{
  ℕ, String, Bool, true, false, Option, none, some, List, [], ◌∷◌, ◌++◌, ◌&&◌, string_eq,
  if◌then◌else◌,
}
use diep_lab.Base.Dict.{Dict, lookup, insert}
use diep_lab.Base.Float.{FloatOps}
use diep_lab.Api.Readiness.Checks.{Sample, CheckResult}
use diep_lab.Api.Readiness.Containers.{Container}
use diep_lab.Api.Readiness.{Run}
use diep_lab.Api.Deployment.Checks.{
  Validated, score_validation, check_mw2_readiness, check_critical_containers,
  check_database_backups, check_minio_archive, check_kafka, check_redis, check_fastapi_readyz,
  check_portal_login, check_prometheus_targets, check_grafana_availability,
}

pub data RunStatus : Type 0 where
  started validated failed rolled_back : RunStatus

pub data GateStatus : Type 0 where
  in_progress go no_go : GateStatus

pub record Config (V : Type 0) : Type 0 where
  pub pass_threshold : ℕ
  pub critical_containers : List String
  pub backup_max_age_hours : V

-- What the probes are answered before the cutover, and after it.
pub record Before (V : Type 0) : Type 0 where
  pub now : V
  pub readiness : Option Run
  pub containers : Dict String Container
  pub backups : Option (List V)
  pub minio : Option ℕ
  pub loads : Bool
  pub kafka : Option (ℕ × List Sample)
  pub redis : Option Bool

pub record After : Type 0 where
  pub readyz : Option ℕ
  pub portal : Option ℕ
  pub loads : Bool
  pub redis : Option Bool
  pub kafka : Option (ℕ × List Sample)
  pub targets : Option (List String)
  pub grafana : Option ℕ

-- `DeploymentRecord`; times are clock readings.
pub record Deployment : Type 0 where
  pub started_at : ℕ
  pub completed_at : Option ℕ
  pub status : RunStatus
  pub gate : GateStatus
  pub operator : String
  pub change_ref : Option String
  pub validation_score : Option ℕ
  pub pass_threshold : ℕ
  pub pre_cutover : Validated
  pub post_cutover : Option Validated

pub record Tables : Type 0 where
  pub deployments : Dict String Deployment
  pub events : List (String × (String × String))

module _ {V : Type 0} ⦃F : FloatOps V⦄ where
  -- `run_pre_cutover_validation`
  unfoldable pub pre_cutover_validation : Config V → Before V → Validated
  pre_cutover_validation c o =
      score_validation
        (check_mw2_readiness o.readiness
          ∷ check_critical_containers c.critical_containers o.containers
          ∷ check_database_backups c.backup_max_age_hours o.now o.backups
          ∷ check_minio_archive o.minio
          ∷ check_kafka "kafka_health" o.loads o.kafka
          ∷ check_redis "redis_health" o.loads o.redis
          ∷ [])
        c.pass_threshold

-- `run_post_cutover_validation`
unfoldable pub post_cutover_validation : ℕ → After → Validated
post_cutover_validation threshold o =
    score_validation
      (check_fastapi_readyz o.readyz
        ∷ check_portal_login o.portal
        ∷ check_redis "redis_connectivity" o.loads o.redis
        ∷ check_kafka "kafka_metrics" o.loads o.kafka
        ∷ check_prometheus_targets o.targets
        ∷ check_grafana_availability o.grafana
        ∷ [])
      threshold

-- `record_event`
unfoldable pub record_event : String → String → String → Tables → Tables
record_event id event actor t = record t { events = t.events ++ (id, (event, actor)) ∷ [] }

-- The audit events of the operator's checklist.
unfoldable pub record_items : String → String → List String → Tables → Tables
record_items id operator [] t = t
record_items id operator (_ ∷ items) t =
    record_items id operator items (record_event id "CHECKLIST_ITEM" operator t)

unfoldable pub record_notes : String → String → Option String → Tables → Tables
record_notes id operator none t = t
record_notes id operator (some _) t = record_event id "OPERATOR_NOTE" operator t

module _ {V : Type 0} ⦃F : FloatOps V⦄ where
  -- `start_cutover`, with the UUID that it draws, the clock, and the notes where they are not empty.
  unfoldable pub start_cutover :
      Config V
      → Before V
      → String
      → ℕ
      → String
      → Option String
      → List String
      → Option String
      → Tables
      → Tables
  start_cutover c o id now operator change_ref checklist notes t =
      let row : Deployment = record {
        started_at = now;
        completed_at = none;
        status = started;
        gate = in_progress;
        operator = operator;
        change_ref = change_ref;
        validation_score = none;
        pass_threshold = c.pass_threshold;
        pre_cutover = pre_cutover_validation c o;
        post_cutover = none;
      } in
      let stored = record t { deployments = insert id row t.deployments } in
      let begun =
        record_event id "BASELINE_CAPTURED" operator
          (record_event id "CUTOVER_STARTED" operator stored) in
      record_event id "PRE_CUTOVER_VALIDATED" operator
        (record_notes id operator notes (record_items id operator checklist begun))

-- What `validate_cutover` makes of the record.
unfoldable pub finished : ℕ → Validated → Deployment → Deployment
finished now post row = record row {
  completed_at = some now;
  status = if post.passed then validated else failed;
  gate = if post.passed then go else no_go;
  validation_score = some post.score;
  post_cutover = some post;
}

-- `update_deployment`, and the two events behind it.
unfoldable pub close : String → String → Deployment → Tables → Tables
close id operator row t = record_event id "EVIDENCE_RECORDED" operator (
    record_event id "POST_CUTOVER_VALIDATED" operator
      (record t { deployments = insert id row t.deployments }))

-- `validate_cutover`, with `none` for the KeyError of an unknown deployment. `pass_threshold` is the
-- configuration's at the call.
unfoldable pub validate_cutover : ℕ → After → String → ℕ → String → Tables → Option Tables
validate_cutover threshold o id now operator t = elim (lookup id t.deployments) [
  | none ↦ none
  | some row ↦ some (close id operator (finished now (post_cutover_validation threshold o) row) t)
]
