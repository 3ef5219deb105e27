-- ===== src/Controls.antt =====
-- fastapi/routers/controls.py: the life cycle of a governed control action, and the role check of
-- fastapi/auth.py. Requests come one after another; the table `control_actions` is a dict by id.
-- Times, the `detail` of audit rows, the network model version and the metrics are left out. `J` is
-- the type of JSON values.
pub mod Roles
pub mod Serve
pub mod Governed
pub mod Authority
use diep_lab.Base.{
  ℕ, String, Bool, true, false, not, Option, none, some, List, [], ◌∷◌, ◌++◌, ◌&&◌, ◌||◌, ◌==◌,
  contains, string_eq, if◌then◌else◌,
}
use diep_lab.Base.Dict.{Dict, lookup, insert}
use diep_lab.Base.Result.{Result, ok, err}

pub data Status : Type 0 where
  pending approved rejected executed failed rolled_back : Status

pub data Risk : Type 0 where
  low high : Risk

pub data Mode : Type 0 where
  dry_run live : Mode

-- A row of `control_actions`.
pub record Action (J : Type 0) : Type 0 where
  pub action_id : String
  pub action_type : String
  pub target : Option String
  pub params : J
  pub mode : Mode
  pub risk : Risk
  pub status : Status
  pub reason : Option String
  pub requested_by : String
  pub approved_by : Option String
  pub before_state : J
  pub after_state : Option J
  pub error : Option String
  pub tenant_id : Option String

-- How `handler.execute` ends: with a state, with an HTTPException, or with another exception.
pub data Execution (J : Type 0) : Type 0 where
  done : J → Execution J
  http_error : ℕ → Execution J
  raised : String → Execution J

-- `ControlHandler`. `plan` may raise HTTPException, `rollback` any exception.
pub record Handler (J : Type 0) : Type 0 where
  pub plan : Option String → J → Result ℕ (J × J)
  pub risk_for : Option String → J → Risk
  pub execute : Action J → Execution J
  pub rollback : Action J → Option J

pub record Principal : Type 0 where
  pub name : String
  pub role : String
  pub tenant : Option String

pub record AuditRow : Type 0 where
  pub action_id : String
  pub event : String
  pub actor : String

-- A call of `handler.execute`: the row at the call, who called, and the master flag then.
pub record Actuation (J : Type 0) : Type 0 where
  pub action : Action J
  pub actor : String
  pub enabled : Bool

-- The two tables, and the actuations so far, which the code does not store.
pub record State (J : Type 0) : Type 0 where
  pub actions : Dict String (Action J)
  pub audit : List AuditRow
  pub actuations : List (Actuation J)

-- The response: the row, or the code of an HTTPException.
pub data Reply (J : Type 0) : Type 0 where
  replied : Action J → Reply J
  refused : ℕ → Reply J

abbrev pub request_roles : List String
request_roles = "operator" ∷ "engineer" ∷ "admin" ∷ []

abbrev pub approve_roles : List String
approve_roles = "engineer" ∷ "admin" ∷ []

abbrev pub any_in : List String → List String → Bool
any_in [] allowed = false
any_in (r ∷ rs) allowed = contains allowed r || any_in rs allowed

-- `_role_allowed`
unfoldable pub role_allowed : String → List String → Bool
role_allowed role allowed =
    if role == "admin"
    then true
    else if role == "service"
    then contains allowed "service"
    else if role == "engineer"
    then any_in ("engineer" ∷ "operator" ∷ "viewer" ∷ []) allowed
    else if role == "operator"
    then any_in ("operator" ∷ "viewer" ∷ []) allowed
    else role == "viewer" && contains allowed "viewer"

abbrev pub is_pending : Status → Bool
is_pending pending = true
is_pending _ = false

abbrev pub is_approved : Status → Bool
is_approved approved = true
is_approved _ = false

abbrev pub is_executed : Status → Bool
is_executed executed = true
is_executed _ = false

abbrev pub is_high : Risk → Bool
is_high high = true
is_high low = false

-- `_assert_tenant` raises.
unfoldable pub is_foreign : Option String → Option String → Bool
is_foreign none owner = false
is_foreign (some t) none = false
is_foreign (some t) (some owner) = not (owner == t)

abbrev pub Outcome : Type 0 → Type 0
Outcome J = Reply J × State J

module _ {J : Type 0} where
  -- `_audit`
  unfoldable pub audited : Action J → String → Principal → State J → State J
  audited row event p s = record s {
    audit = s.audit ++ record { action_id = row.action_id; event = event; actor = p.name } ∷ [];
  }

  -- An UPDATE or INSERT of one row.
  unfoldable pub put : Action J → State J → State J
  put row s = record s { actions = insert row.action_id row s.actions }

  unfoldable pub require_role : List String → Principal → State J → Outcome J → Outcome J
  require_role allowed p s next = if role_allowed p.role allowed then next else (refused 403, s)

  -- The 404 and the tenant check in front of every action on a row.
  unfoldable pub on_row :
      Principal → Option (Action J) → State J → (Action J → Outcome J) → Outcome J
  on_row p none s k = (refused 404, s)
  on_row p (some row) s k = if is_foreign p.tenant row.tenant_id then (refused 403, s) else k row

  unfoldable pub updated : Action J → String → Principal → State J → Outcome J
  updated row event p s = (replied row, audited row event p (put row s))

  unfoldable pub approve_row : Principal → State J → Action J → Outcome J
  approve_row p s row =
      if not (is_pending row.status)
      then (refused 409, s)
      else if is_high row.risk && p.name == row.requested_by
      then (refused 403, s)
      else updated (record row { status = approved; approved_by = some p.name }) "APPROVED" p s

  unfoldable pub reject_row : Principal → State J → Action J → Outcome J
  reject_row p s row =
      if is_pending row.status
      then updated (record row { status = rejected; approved_by = some p.name }) "REJECTED" p s
      else (refused 409, s)

  unfoldable pub rollback_with : Principal → State J → Action J → Option (Option J) → Outcome J
  rollback_with p s row none = (refused 422, s)
  rollback_with p s row (some none) = (refused 500, s)
  rollback_with p s row (some (some after)) =
      updated (record row { status = rolled_back; after_state = some after }) "ROLLED_BACK" p s

  -- What the handler's end makes of a live action.
  unfoldable pub finish : Principal → State J → Action J → Execution J → Outcome J
  finish p s row (done after) =
      updated (record row { status = executed; after_state = some after; error = none }) "EXECUTED"
        p s
  finish p s row (http_error code) = (refused code, s)
  finish p s row (raised message) =
      let row' = record row { status = failed; error = some message } in
      (refused 500, audited row' "FAILED" p (put row' s))

  unfoldable pub actuate : Bool → Principal → State J → Action J → Handler J → Outcome J
  actuate enabled p s row handler =
      finish p
        (record s {
          actuations =
              s.actuations ++ record { action = row; actor = p.name; enabled = enabled } ∷ [];
        })
        row (handler.execute row)

  -- A live action: the master flag, then the rule by risk.
  unfoldable pub execute_live : Bool → Principal → State J → Action J → Handler J → Outcome J
  execute_live enabled p s row handler =
      if not enabled
      then (refused 403, audited row "BLOCKED" p s)
      else if is_high row.risk
      then (if is_approved row.status
          then actuate enabled p s row handler
          else (refused 409, audited row "BLOCKED" p s))
      else if is_pending row.status || is_approved row.status
      then actuate enabled p s row handler
      else (refused 409, s)

  unfoldable pub execute_dry : J → Principal → State J → Action J → Outcome J
  execute_dry dry p s row =
      if is_pending row.status || is_approved row.status
      then (
        replied (record row { status = executed; after_state = some dry; error = none }),
        put (record row { status = executed; after_state = some dry; error = none })
            (audited row "DRYRUN" p s),
      )
      else (refused 409, s)

  unfoldable pub execute_mode :
      Bool → J → Principal → State J → Action J → Option (Handler J) → Mode → Outcome J
  execute_mode enabled dry p s row none mode = (refused 422, s)
  execute_mode enabled dry p s row (some handler) dry_run = execute_dry dry p s row
  execute_mode enabled dry p s row (some handler) live = execute_live enabled p s row handler
