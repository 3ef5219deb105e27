-- ===== src/Controls/Serve.antt =====
-- fastapi/routers/controls.py: the endpoints that change something, and a run of requests.
use diep_lab.Base.{ℕ, String, Bool, Option, none, some, List, [], ◌∷◌, string_eq, if◌then◌else◌}
use diep_lab.Base.Dict.{lookup}
use diep_lab.Base.Result.{Result, ok, err}
use diep_lab.Contracts.Measurement.{default}
use diep_lab.Controls.{
  pending, is_executed, Mode, Action, Handler, Principal, State, refused, request_roles,
  approve_roles, require_role, on_row, updated, Outcome, approve_row, reject_row, rollback_with,
  execute_mode,
}

pub record ActionRequest (J : Type 0) : Type 0 where
  pub action_type : String
  pub target : Option String
  pub params : J
  pub mode : Mode
  pub reason : Option String

-- A call of an endpoint. A creation carries the UUID that it draws, an execution the master flag.
pub data Request (J : Type 0) : Type 0 where
  create : Principal → String → ActionRequest J → Request J
  approve reject rollback : Principal → String → Request J
  execute : Bool → Principal → String → Request J

module _ {J : Type 0} (handlers : String → Option (Handler J)) (dry : J) where
  unfoldable pub submit_planned :
      Principal → String → ActionRequest J → State J → Handler J → Result ℕ (J × J) → Outcome J
  submit_planned p id body s handler (err code) = (refused code, s)
  submit_planned p id body s handler (ok (before, preview)) =
      updated
        (record {
          action_id = id;
          action_type = body.action_type;
          target = body.target;
          params = body.params;
          mode = body.mode;
          risk = handler.risk_for body.target body.params;
          status = pending;
          reason = body.reason;
          requested_by = p.name;
          approved_by = none;
          before_state = before;
          after_state = none;
          error = none;
          tenant_id = some (default "default" p.tenant);
        })
        "REQUESTED" p s

  -- `submit_action`
  unfoldable pub submit_action :
      Principal → String → ActionRequest J → State J → Option (Handler J) → Outcome J
  submit_action p id body s none = (refused 422, s)
  submit_action p id body s (some handler) =
      submit_planned p id body s handler (handler.plan body.target body.params)

  -- `handler.rollback`, where there is a handler.
  unfoldable pub rollback_of : Option (Handler J) → Action J → Option (Option J)
  rollback_of none row = none
  rollback_of (some handler) row = some (handler.rollback row)

  unfoldable pub rollback_row : Principal → State J → Action J → Outcome J
  rollback_row p s row =
      if is_executed row.status
      then rollback_with p s row (rollback_of (handlers row.action_type) row)
      else (refused 409, s)

  unfoldable pub execute_row : Bool → Principal → State J → Action J → Outcome J
  execute_row enabled p s row = execute_mode enabled dry p s row (handlers row.action_type) row.mode

  -- The endpoints.
  unfoldable pub serve : Request J → State J → Outcome J
  serve (create p id body) s =
      require_role request_roles p s (submit_action p id body s (handlers body.action_type))
  serve (approve p id) s =
      require_role approve_roles p s (on_row p (lookup id s.actions) s (approve_row p s))
  serve (reject p id) s =
      require_role approve_roles p s (on_row p (lookup id s.actions) s (reject_row p s))
  serve (rollback p id) s =
      require_role approve_roles p s (on_row p (lookup id s.actions) s (rollback_row p s))
  serve (execute enabled p id) s =
      require_role request_roles p s (on_row p (lookup id s.actions) s (execute_row enabled p s))

  -- The requests of a run, in order.
  unfoldable pub serve_all : List (Request J) → State J → State J
  serve_all [] s = s
  serve_all (r ∷ rs) s = serve_all rs (serve r s).1
