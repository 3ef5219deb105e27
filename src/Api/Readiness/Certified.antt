-- ===== src/Api/Readiness/Certified.antt =====
-- What a run of the readiness assessment that passes has found.
use diep_lab.Base.{
  ℕ, String, Bool, true, false, Option, none, some, List, [], ◌∷◌, ◌&&◌, ◌≡◌, refl, ap, subst, inl,
  inr, ◌==◌, contains, string_eq, nat_eq, nat_eqb, if◌then◌else◌, Bool-cases, arith,
}
use diep_lab.Base.Dict.{Dict, lookup, insert, lookup-insert}
use diep_lab.Base.Int.{ℤ, ◌-ℤ◌, ltb_ℤ}
use diep_lab.Base.Float.{FloatOps}
use diep_lab.Api.Readiness.Checks.{
  fail, CheckResult, Sample, result_if, check_fastapi_readyz, check_postgres_connectivity,
  check_redis_connectivity, check_kafka_broker_health, check_kafka_exporter_metrics,
  check_disk_utilization, check_memory_utilization, disk_used, memory_used, has_metric,
}
use diep_lab.Api.Readiness.Containers.{
  Container, collect, current_counts, previous_counts, restart_count_of, is_offender, any_offender,
  check_container_restart_counts, whole_seconds, is_up, all_up, check_critical_service_uptime,
}
use diep_lab.Api.Readiness.{
  Config, Observed, is_status, count_status, run_checks, run_readiness_assessment,
}

abbrev Passes : CheckResult → Type 0
Passes c = is_status c.status fail ≡ false

abbrev AllPass : List CheckResult → Type 0
AllPass [] = Unit
AllPass (c ∷ cs) = Passes c × AllPass cs

none_failed : (cs : List CheckResult) → nat_eqb (count_status fail cs) 0 ≡ true → AllPass cs
unfolding count_status
none_failed [] h = tt
none_failed (c ∷ cs) h = elim (Bool-cases (is_status c.status fail)) [
  | inl failed ↦ ground arith
  | inr passed ↦ (passed, none_failed cs (rw passed at h))
]

Passes-result_if : (b : Bool) (name : String) (w : ℕ) → Passes (result_if b name w) → b ≡ true
unfolding result_if
Passes-result_if true name w h = refl
Passes-result_if false name w h = cc

-- A critical container is running, and has been for long enough.
abbrev pub IsUp : ℤ → ℤ → Option Container → Type 0
IsUp now least none = ⊥
IsUp now least (some c) =
    (c.running ≡ true)
    × ((start : ℤ) × (c.started_at ≡ some start)
        × (ltb_ℤ (whole_seconds (now -ℤ start)) least ≡ false))

is_up-IsUp : (now least : ℤ) (o : Option Container) → is_up now least o ≡ true → IsUp now least o
unfolding is_up
is_up-IsUp now least none h = cc
is_up-IsUp now least (some c) h = by_start c.started_at refl
  where
    by_start : (o : Option ℤ) → c.started_at ≡ o → IsUp now least (some c)
    by_start none at = ground arith
    by_start (some start) at = (ground arith, (start, at, ground arith))

all_up-IsUp :
    (now least : ℤ) (state : Dict String Container) (names : List String)
    → all_up now least state names ≡ true
    → (n : String) → contains names n ≡ true
    → IsUp now least (lookup n state)
unfolding all_up
all_up-IsUp now least state [] h n m = cc
all_up-IsUp now least state (k ∷ names) h n m = elim (string_eq.dec n k) [
  | yes same ↦ rw same (is_up-IsUp now least (lookup k state) (ground arith))
  | no other ↦ all_up-IsUp now least state names (ground arith) n (ground arith)
]

lookup-collect :
    {V : Type 0} (f : String → V) (names : List String) (d : Dict String V) (n : String)
    → lookup n (collect f names d) ≡ (if contains names n then some (f n) else lookup n d)
unfolding collect
lookup-collect f [] d n = refl
lookup-collect f (k ∷ names) d n = elim (string_eq.dec n k) [
  | yes same ↦
      ground
        (arith, lookup-collect f names (insert k (f k) d) n, lookup-insert n k (f k) d, ap f same)
  | no other ↦
      ground (arith, lookup-collect f names (insert k (f k) d) n, lookup-insert n k (f k) d)
]

no_offender :
    (limit : ℤ) (before : Dict String ℤ) (d : Dict String (Option ℤ)) (n : String) (v : Option ℤ)
    → any_offender limit before d ≡ false
    → lookup n d ≡ some v
    → is_offender limit (lookup n before) v ≡ false
unfolding any_offender lookup
no_offender limit before [] n v h at = cc
no_offender limit before ((k, w) ∷ d) n v h at = elim (string_eq.dec n k) [
  | yes same ↦ ground (arith, ap (λ m. lookup m before) same)
  | no other ↦ no_offender limit before d n v (ground arith) (ground arith)
]

-- What the assessment certifies.
module _ {V : Type 0} ⦃F : FloatOps V⦄ where
  pub record IsReady (c : Config V) (o : Observed) (previous : Option (List CheckResult))
      : Type 0 where
    pub api : o.readyz ≡ some (200, true)
    pub postgres : o.postgres ≡ true
    pub redis : o.redis ≡ some true
    pub topics :
        (l : List String) × (o.topics ≡ some l)
        × (contains l "__consumer_offsets" ≡ true)
        × (contains l "diep.commands" ≡ true)
    pub exporter :
        (samples : List Sample) × (o.exporter ≡ some (200, samples))
        × (has_metric samples "kafka_brokers" [] ≡ true)
        × (has_metric samples "kafka_broker_info"
              (("address", "diep-kafka:9092") ∷ ("id", "1") ∷ [])
            ≡ true)
        × (has_metric samples "kafka_topic_partitions" (("topic", "diep.commands") ∷ []) ≡ true)
    pub restarts :
        (before : List CheckResult) (n : String) (k : Container) (count : ℤ)
        → previous ≡ some before
        → contains c.critical_containers n ≡ true
        → lookup n o.containers ≡ some k
        → lookup n (previous_counts before) ≡ some count
        → ltb_ℤ c.max_restart_delta (k.restart_count -ℤ count) ≡ false
    pub disk : F.le (disk_used o.disk.0 o.disk.1) c.disk_max_used_pct ≡ true
    pub memory : F.le (memory_used o.memory.0 o.memory.1) c.memory_max_used_pct ≡ true
    pub uptime :
        (n : String)
        → contains c.critical_containers n ≡ true
        → IsUp o.now c.min_uptime_seconds (lookup n o.containers)

is_200 :
    (code : ℕ) (b : Bool)
    → (code == 200 && b) ≡ true
    → ◌≡◌ {A = Option (ℕ × Bool)} (some (code, b)) (some (200, true))
is_200 code b h = elim (nat_eq.dec code 200) [ yes same ↦ ground arith | no other ↦ ground arith ]

api_ready : (o : Option (ℕ × Bool)) → Passes (check_fastapi_readyz o) → o ≡ some (200, true)
unfolding check_fastapi_readyz nat_eq
api_ready none h = cc
api_ready (some (code, ready)) h = is_200 code ready (Passes-result_if _ _ _ h)

redis_ready : (o : Option Bool) → Passes (check_redis_connectivity o) → o ≡ some true
unfolding check_redis_connectivity
redis_ready none h = cc
redis_ready (some true) h = refl
redis_ready (some false) h = cc

topics_ready :
    (o : Option (List String))
    → Passes (check_kafka_broker_health o)
    → (l : List String) × (o ≡ some l)
      × (contains l "__consumer_offsets" ≡ true)
      × (contains l "diep.commands" ≡ true)
unfolding check_kafka_broker_health
topics_ready none h = cc
topics_ready (some l) h =
    let all = Passes-result_if _ _ _ h in (l, refl, ground arith, ground arith)

exporter_ready :
    (o : Option (ℕ × List Sample))
    → Passes (check_kafka_exporter_metrics o)
    → (samples : List Sample) × (o ≡ some (200, samples))
      × (has_metric samples "kafka_brokers" [] ≡ true)
      × (has_metric samples "kafka_broker_info" (("address", "diep-kafka:9092") ∷ ("id", "1") ∷ [])
          ≡ true)
      × (has_metric samples "kafka_topic_partitions" (("topic", "diep.commands") ∷ []) ≡ true)
unfolding check_kafka_exporter_metrics nat_eq
exporter_ready none h = cc
exporter_ready (some (code, samples)) h =
    let all = Passes-result_if _ _ _ h in
    (samples, ground arith, ground arith, ground arith, ground arith)

current_count :
    (names : List String) (state : Dict String Container) (n : String) (k : Container)
    → contains names n ≡ true
    → lookup n state ≡ some k
    → lookup n (current_counts names state) ≡ some (some k.restart_count)
unfolding current_counts restart_count_of
current_count names state n k m at =
    rw (lookup-collect (restart_count_of state) names [] n) (rw m (rw (at, restart_count_of) refl))

restarts_ready :
    (limit : ℤ) (names : List String) (state : Dict String Container) (before : List CheckResult)
    (n : String) (k : Container) (count : ℤ)
    → Passes (check_container_restart_counts limit names state (some before))
    → contains names n ≡ true
    → lookup n state ≡ some k
    → lookup n (previous_counts before) ≡ some count
    → ltb_ℤ limit (k.restart_count -ℤ count) ≡ false
unfolding check_container_restart_counts is_offender
restarts_ready limit names state before n k count h m at was =
    let calm : any_offender limit (previous_counts before) (current_counts names state) ≡ false =
      (elim (Bool-cases
        (any_offender limit (previous_counts before) (current_counts names state))) [
          | inl found ↦ ground arith
          | inr calm ↦ calm
        ]) in
    let found =
      no_offender limit (previous_counts before) (current_counts names state) n
        (some k.restart_count) calm (current_count names state n k m at) in
    ground (arith, found)

uptime_ready :
    (now least : ℤ) (names : List String) (state : Dict String Container)
    → Passes (check_critical_service_uptime now least names state)
    → all_up now least state names ≡ true
unfolding check_critical_service_uptime
uptime_ready now least names state h = elim (Bool-cases (all_up now least state names)) [
  | inl up ↦ up
  | inr down ↦ ground arith
]

module _ {V : Type 0} ⦃F : FloatOps V⦄ where
  -- An assessment that passes has found every component ready, whatever the limits: the API and the
  -- data stores answered, the broker has its topics and the exporter its three metrics, no known restart
  -- delta of a critical container exceeds the limit, disk and memory are within theirs, and each
  -- critical container is running and has been for the required time.
  pub run-IsReady :
      (c : Config V) (o : Observed) (previous : Option (List CheckResult))
      → (run_readiness_assessment c o previous).passed ≡ true
      → IsReady c o previous
  unfolding run_readiness_assessment run_checks check_postgres_connectivity check_disk_utilization
      check_memory_utilization
  run-IsReady c o previous h =
      let found = none_failed (run_checks c o previous) (ground arith) in
      record {
        api = api_ready o.readyz found.0;
        postgres = Passes-result_if _ _ _ found.1.0;
        redis = redis_ready o.redis found.1.1.0;
        topics = topics_ready o.topics found.1.1.1.0;
        exporter = exporter_ready o.exporter found.1.1.1.1.0;
        restarts = λ before n k count was. restarts_ready _ _ _ before n k count (
            subst
              (λ p. Passes (
                check_container_restart_counts c.max_restart_delta c.critical_containers
                  o.containers p))
              was found.1.1.1.1.1.0);
        disk = Passes-result_if _ _ _ found.1.1.1.1.1.1.0;
        memory = Passes-result_if _ _ _ found.1.1.1.1.1.1.1.0;
        uptime = all_up-IsUp _ _ _ _ (uptime_ready _ _ _ _ found.1.1.1.1.1.1.1.1.0);
      }
