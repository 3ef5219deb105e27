-- ===== src/Api/Onboarding.antt =====
-- fastapi/app.py: the onboarding of devices. The table `device_onboarding` is a dict by device, and
-- `device_certifications` and the audit trail are lists. A request carries the clock reading and what
-- the handler reads of the rest of the platform. The record that a handler returns is a read of the
-- tables and is left out, and so are the details of results and audit rows.
pub mod Records
pub mod Checks
pub mod Diagram
pub mod LifeCycle
pub mod Earned
use diep_lab.Base.{
  is_some, ℕ, String, Bool, true, false, Option, none, some, List, [], ◌∷◌, ◌++◌, ◌&&◌, ◌==◌,
  string_eq, ◌<>◌, if◌then◌else◌,
}
use diep_lab.Base.Dict.{lookup, insert}
use diep_lab.Controls.{Principal, role_allowed}
use diep_lab.Api.Onboarding.Records.{
  Stage, registered, validated, certified, production_ready, Enrolled, Facts, TestResult,
  Enrollment, Tables, Request, enroll, validate, certify, approve,
}
use diep_lab.Api.Onboarding.Checks.{validation_of, certification_tests, all_passed}

-- The status code.
abbrev pub Outcome : Type 0
Outcome = ℕ × Tables

abbrev pub is_stage_of : List Stage → Stage → Bool
is_stage_of [] s = false
is_stage_of (registered ∷ l) registered = true
is_stage_of (validated ∷ l) validated = true
is_stage_of (certified ∷ l) certified = true
is_stage_of (production_ready ∷ l) production_ready = true
is_stage_of (_ ∷ l) s = is_stage_of l s

-- `require_role`, and the audit row that each handler writes before it looks at anything.
unfoldable pub guarded :
    List String → String → Principal → String → Tables → (Tables → Outcome) → Outcome
guarded allowed action p id t next =
    if role_allowed p.role allowed
    then next (record t { audit = t.audit ++ (p.name, (action, id)) ∷ [] })
    else (403, t)

unfoldable pub put_row : String → Enrolled → Tables → Tables
put_row id row t = record t { onboarding = insert id row t.onboarding }

unfoldable pub enroll_row : Facts → Enrollment → Option Enrolled → Tables → Outcome
enroll_row f e (some row) t = if is_some f.device then (409, t) else (404, t)
enroll_row f e none t =
    if is_some f.device
    then (
      201,
      put_row e.device_id
          (record {
            site_name = e.site_name;
            protocol = e.protocol;
            vendor = e.vendor;
            stage = registered;
            validation = none;
            notes = e.notes;
            validated_at = none;
            certified_at = none;
            production_approved_at = none;
          })
          t,
    )
    else (404, t)

unfoldable pub validate_row : ℕ → Facts → String → Option Enrolled → Tables → Outcome
validate_row now f id none t = (404, t)
validate_row now f id (some row) t =
    let v = validation_of f row in
    if is_stage_of (registered ∷ validated ∷ []) row.stage
    then (if v.passed
        then (
          200,
          put_row id
              (record row { stage = validated; validated_at = some now; validation = some v }) t,
        )
        else (200, put_row id (record row { validation = some v }) t))
    else (409, t)

-- The rows of a certification run.
abbrev pub result_rows : String → List TestResult → List (String × TestResult)
result_rows id [] = []
result_rows id (r ∷ rs) = (id, r) ∷ result_rows id rs

unfoldable pub certify_row : ℕ → Facts → String → Option Enrolled → Tables → Outcome
certify_row now f id none t = (404, t)
certify_row now f id (some row) t =
    let results = certification_tests f in
    let t' = record t { certifications = t.certifications ++ result_rows id results } in
    if is_stage_of (validated ∷ certified ∷ production_ready ∷ []) row.stage
    then (if all_passed results && is_stage_of (validated ∷ []) row.stage
        then (200, put_row id (record row { stage = certified; certified_at = some now }) t')
        else (200, t'))
    else (409, t)

-- "approved by ...", with the notes behind it where there are any.
unfoldable pub approval_note : String → Option String → String
approval_note by none = "approved by " <> by
approval_note by (some notes) =
    let note = "approved by " <> by in if notes == "" then note else note <> ": " <> notes

unfoldable pub approve_stage : ℕ → String → String → Option Enrolled → Tables → Outcome
approve_stage now id note none t = (404, t)
approve_stage now id note (some row) t =
    if is_stage_of (certified ∷ []) row.stage
    then (
      200,
      put_row id
          (record row {
            stage = production_ready;
            production_approved_at = some now;
            notes = some note;
          })
          t,
    )
    else (409, t)

abbrev pub engineers : List String
engineers = "admin" ∷ "engineer" ∷ []

abbrev pub admins : List String
admins = "admin" ∷ []

-- `enroll_device`, `validate_onboarding`, `certify_onboarding` and `approve_onboarding`.
unfoldable pub serve : Request → Tables → Outcome
serve (enroll p f e) t =
    guarded engineers "onboarding_enroll" p e.device_id t
      (λ t. enroll_row f e (lookup e.device_id t.onboarding) t)
serve (validate p now f id) t =
    guarded engineers "onboarding_validate" p id t
      (λ t. validate_row now f id (lookup id t.onboarding) t)
serve (certify p now f id) t =
    guarded admins "onboarding_certify" p id t
      (λ t. certify_row now f id (lookup id t.onboarding) t)
serve (approve p now id by notes) t =
    guarded admins "onboarding_approve" p id t
      (λ t. approve_stage now id (approval_note by notes) (lookup id t.onboarding) t)

-- The tables after the requests of a run, the latest of them first.
unfoldable pub after : List Request → Tables
after [] = record { onboarding = []; certifications = []; audit = [] }
after (r ∷ past) = (serve r (after past)).1
