-- ===== src/Api/Onboarding/Diagram.antt =====
-- The life cycle that the onboarding promises: its stages, and what earns each of them.
use diep_lab.Base.{is_some, String, true, Option, none, some, ◌≡◌, ◌≢◌, string_eq}
use diep_lab.Base.Dict.{lookup}
use diep_lab.Controls.{role_allowed}
use diep_lab.Api.Onboarding.{engineers, admins}
use diep_lab.Api.Onboarding.Records.{
  Stage, registered, validated, certified, production_ready, Enrolled, Tables, Request, enroll,
  validate, certify, approve,
}
use diep_lab.Api.Onboarding.Checks.{certification_tests, all_passed}

-- Where an enrolled device stands: its stage, and the protocol that its row declares.
abbrev pub Life : Type 0
Life = Stage × Option String

abbrev pub life_of : Option Enrolled → Option Life
life_of none = none
life_of (some row) = some (row.stage, row.protocol)

abbrev pub life_in : String → Tables → Option Life
life_in id t = life_of (lookup id t.onboarding)

-- A protocol is declared by a text that is not empty.
abbrev pub IsDeclared : Option String → Type 0
IsDeclared none = ⊥
IsDeclared (some protocol) = protocol ≢ ""

-- What earns each stage: the request, its caller's role, and what was found then.
abbrev pub IsEnlistment : String → Option String → Request → Type 0
IsEnlistment id protocol (enroll p f e) =
    (e.device_id ≡ id)
    × (role_allowed p.role engineers ≡ true)
    × (is_some f.device ≡ true)
    × (e.protocol ≡ protocol)
IsEnlistment id protocol _ = ⊥

abbrev pub IsAdmission : String → Option String → Request → Type 0
IsAdmission id protocol (validate p now f d) =
    (d ≡ id)
    × (role_allowed p.role engineers ≡ true)
    × (is_some f.device ≡ true)
    × (is_some f.latest_age ≡ true)
    × IsDeclared protocol
IsAdmission id protocol _ = ⊥

abbrev pub IsCertification : String → Request → Type 0
IsCertification id (certify p now f d) =
    (d ≡ id) × (role_allowed p.role admins ≡ true) × (all_passed (certification_tests f) ≡ true)
IsCertification id _ = ⊥

abbrev pub IsApproval : String → Request → Type 0
IsApproval id (approve p now d by notes) = (d ≡ id) × (role_allowed p.role admins ≡ true)
IsApproval id _ = ⊥

-- The diagram of the life cycle: how a request moves the stage of a device, whose declared protocol
-- stays the one of its enrollment.
pub data Move (id : String) (r : Request) (from to : Option Life) : Type 0 where
  stay : to ≡ from → Move id r from to
  enlist :
      {p : Option String}
      → IsEnlistment id p r
      → from ≡ none
      → to ≡ some (registered, p)
      → Move id r from to
  admit :
      {p : Option String}
      → IsAdmission id p r
      → from ≡ some (registered, p)
      → to ≡ some (validated, p)
      → Move id r from to
  qualify :
      {p : Option String}
      → IsCertification id r
      → from ≡ some (validated, p)
      → to ≡ some (certified, p)
      → Move id r from to
  release :
      {p : Option String}
      → IsApproval id r
      → from ≡ some (certified, p)
      → to ≡ some (production_ready, p)
      → Move id r from to
