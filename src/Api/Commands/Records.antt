-- ===== src/Api/Commands/Records.antt =====
-- fastapi/app.py: the records behind the life of a command, in the database and in Redis. `J` is the
-- type of JSON values.
use diep_lab.Base.{ℕ, String, Bool, Option, List}
use diep_lab.Base.Dict.{Dict}
use diep_lab.Controls.{Principal}

pub data Status : Type 0 where
  pending sent acked failed completed : Status

pub record Device : Type 0 where
  pub device_type : Option String
  pub tenant_id : Option String

-- A row of `commands`.
pub record Command (J : Type 0) : Type 0 where
  pub device_id : String
  pub device_type : Option String
  pub command_type : String
  pub params : J
  pub status : Status
  pub issued_by : String
  pub error_message : Option String
  pub dispatched : Bool
  pub answered : Bool

pub record CommandRequest (J : Type 0) : Type 0 where
  pub device_id : String
  pub command_type : String
  pub params : J
  pub issued_by : String

-- `command:<id>` in Redis, and the fields of `state:<device>` that tell of its last command.
pub record Mirror : Type 0 where
  pub status : Status
  pub device_id : String
  pub command_type : String
  pub error : Option String

pub record Twin : Type 0 where
  pub last_command_id : String
  pub last_command_type : String
  pub last_command_status : Status
  pub last_command_error : Option String

-- A write to Redis: of `_mirror_status`, or of `_persist_state` for the device.
pub data Write : Type 0 where
  to_mirror : String → Mirror → Write
  to_twin : String → Twin → Write

pub record State (J : Type 0) : Type 0 where
  pub devices : Dict String Device
  pub commands : Dict String (Command J)
  pub mirror : Dict String Mirror
  pub twins : Dict String Twin
  pub waiting : List Write

-- What happens: a creation with the UUID that it draws, the end of the publication to Kafka for a
-- command, an acknowledgement, and a waiting write that is made or lost, by its place in the list.
pub data Event (J : Type 0) : Type 0 where
  create : Principal → String → CommandRequest J → Event J
  published : String → Event J
  publish_failed : String → String → Event J
  ack : Principal → String → String → Option String → Event J
  write : ℕ → Event J
  lose : ℕ → Event J
