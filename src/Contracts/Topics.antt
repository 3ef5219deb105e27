-- ===== src/Contracts/Topics.antt =====
-- contracts/topics.py: MQTT topics and policies, Kafka topics and retention. The descriptions are left
-- out.
use diep_lab.Base.{
  ℕ, String, ◌<>◌, ◌≡◌, ◌≢◌, refl, Bool, true, false, none, some, [], ◌∷◌, ◌||◌, ◌⊎◌, inl, inr, not,
  string_eq, arith, if◌then◌else◌,
}
use diep_lab.Base.Dict.{Dict, lookup}
use diep_lab.Base.Result.{Result, ok, err}
use diep_lab.Contracts.Measurement.{is_nonempty}

abbrev pub build_telemetry_topic : String → String → String
build_telemetry_topic domain device_id = "diep/" <> (domain <> ("/" <> device_id))

abbrev pub build_cmd_topic : String → String → String
build_cmd_topic domain device_id = build_telemetry_topic domain device_id <> "/cmd"

abbrev pub build_ack_topic : String → String → String
build_ack_topic domain device_id = build_telemetry_topic domain device_id <> "/ack"

abbrev pub build_alarm_topic : String → String → String
build_alarm_topic domain device_id = build_telemetry_topic domain device_id <> "/alarm"

abbrev pub build_status_topic : String → String → String
build_status_topic domain device_id = build_telemetry_topic domain device_id <> "/status"

abbrev pub build_heartbeat_topic : String → String → String
build_heartbeat_topic domain device_id = build_telemetry_topic domain device_id <> "/heartbeat"

abbrev pub build_telemetry_topic_v2 : String → String → String → String
build_telemetry_topic_v2 tenant_id domain device_id =
    "diep/" <> (tenant_id <> ("/" <> (domain <> ("/" <> device_id))))

pub record TopicPolicy : Type 0 where
  pub qos : ℕ
  pub retained : Bool

abbrev pub mqtt_topic_policy : Dict String TopicPolicy
mqtt_topic_policy =
    ("telemetry", record { qos = 0; retained = false })
    ∷ ("cmd", record { qos = 1; retained = false })
    ∷ ("ack", record { qos = 1; retained = false })
    ∷ ("alarm", record { qos = 1; retained = false })
    ∷ ("status", record { qos = 1; retained = true })
    ∷ ("heartbeat", record { qos = 0; retained = true })
    ∷ []

abbrev pub all_subtopic_wildcards : Dict String String
all_subtopic_wildcards =
    ("cmd", "diep/+/+/cmd")
    ∷ ("ack", "diep/+/+/ack")
    ∷ ("alarm", "diep/+/+/alarm")
    ∷ ("status", "diep/+/+/status")
    ∷ ("heartbeat", "diep/+/+/heartbeat")
    ∷ []

abbrev pub kafka_topics : Dict String String
kafka_topics =
    ("commands", "diep.commands")
    ∷ ("telemetry", "diep.telemetry")
    ∷ ("events", "diep.events")
    ∷ ("alarms", "diep.alarms")
    ∷ ("device_registration", "diep.device.registration")
    ∷ ("device_state", "diep.device.state")
    ∷ ("quality_events", "diep.quality.events")
    ∷ []

abbrev pub kafka_retention : Dict String String
kafka_retention =
    ("diep.commands", "7d")
    ∷ ("diep.telemetry", "7d")
    ∷ ("diep.events", "30d")
    ∷ ("diep.alarms", "30d")
    ∷ ("diep.device.registration", "compact")
    ∷ ("diep.device.state", "compact")
    ∷ ("diep.quality.events", "30d")
    ∷ []

pub data Error : Type 0 where
  value_error : Error

unfoldable pub partition_key : String → String → Result Error String
partition_key tenant_id device_id =
    if not (is_nonempty tenant_id) || not (is_nonempty device_id)
    then err value_error
    else ok (tenant_id <> (":" <> device_id))

retained_topics :
    (name topic : String)
    → lookup name kafka_topics ≡ some topic
    → lookup topic kafka_retention ≢ none
unfolding lookup
retained_topics name topic h = ground arith

subtopic_policies :
    (name wildcard : String)
    → lookup name all_subtopic_wildcards ≡ some wildcard
    → lookup name mqtt_topic_policy ≢ none
unfolding lookup
subtopic_policies name wildcard h = ground arith

-- Commands, acknowledgements and alarms, by name.
at_least_once :
    (name : String)
    → (name ≡ "cmd" ⊎ (name ≡ "ack" ⊎ name ≡ "alarm"))
    → lookup name mqtt_topic_policy ≡ some (record { qos = 1; retained = false })
unfolding lookup string_eq
at_least_once name (inl h) = rw h refl
at_least_once name (inr (inl h)) = rw h refl
at_least_once name (inr (inr h)) = rw h refl

-- The tables fit: every Kafka topic has a retention, every subtopic that is subscribed to has a
-- policy, and commands, acknowledgements and alarms are delivered at least once and never retained.
pub topics-covered :
    (name value : String)
    → (lookup name kafka_topics ≡ some value → lookup value kafka_retention ≢ none)
      × (lookup name all_subtopic_wildcards ≡ some value → lookup name mqtt_topic_policy ≢ none)
      × ((name ≡ "cmd" ⊎ (name ≡ "ack" ⊎ name ≡ "alarm"))
          → lookup name mqtt_topic_policy ≡ some (record { qos = 1; retained = false }))
topics-covered name value =
    (retained_topics name value, subtopic_policies name value, at_least_once name)
