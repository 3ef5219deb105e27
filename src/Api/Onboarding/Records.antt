-- ===== src/Api/Onboarding/Records.antt =====
-- fastapi/app.py: what the onboarding of devices stores, reads and is asked.
use diep_lab.Base.{ℕ, String, Bool, Option, List}
use diep_lab.Base.Dict.{Dict}
use diep_lab.Base.Int.{ℤ}
use diep_lab.Controls.{Principal}

pub data Stage : Type 0 where
  registered validated certified production_ready : Stage

-- The `checks` of a validation, and whether they passed.
pub record Validation : Type 0 where
  pub device_registered : Bool
  pub protocol_declared : Bool
  pub site_assigned : Bool
  pub telemetry_seen : Bool
  pub passed : Bool

-- A row of `device_onboarding`, without the time of registration.
pub record Enrolled : Type 0 where
  pub site_name : Option String
  pub protocol : Option String
  pub vendor : Option String
  pub stage : Stage
  pub validation : Option Validation
  pub notes : Option String
  pub validated_at : Option ℕ
  pub certified_at : Option ℕ
  pub production_approved_at : Option ℕ

pub record LastCommand : Type 0 where
  pub dispatched : Bool
  pub status : Option String

-- What is read of a device: its row in `devices` by the status in it, the age of its latest telemetry
-- in microseconds (`some none` for one without a time), its latest command, the samples of the last
-- three minutes, the connected replicas (`none` if Redis fails), and the two facts of the security test.
pub record Facts : Type 0 where
  pub device : Option (Option String)
  pub latest_age : Option (Option ℤ)
  pub last_command : Option LastCommand
  pub samples : ℕ
  pub replicas : Option ℕ
  pub auth_enforced : Bool
  pub plaintext_open : Bool

pub data Verdict : Type 0 where
  pass fail pending : Verdict

pub record TestResult : Type 0 where
  pub test_name : String
  pub result : Verdict

pub record Enrollment : Type 0 where
  pub device_id : String
  pub site_name : Option String
  pub protocol : Option String
  pub vendor : Option String
  pub notes : Option String

pub record Tables : Type 0 where
  pub onboarding : Dict String Enrolled
  pub certifications : List (String × TestResult)
  pub audit : List (String × (String × String))

-- A call of an endpoint, by its caller.
pub data Request : Type 0 where
  enroll : Principal → Facts → Enrollment → Request
  validate : Principal → ℕ → Facts → String → Request
  certify : Principal → ℕ → Facts → String → Request
  approve : Principal → ℕ → String → String → Option String → Request
