-- ===== src/Automation.antt =====
-- fastapi/routers/automation.py: the automation engine, which proposes actions to the control plane and,
-- in auto mode, carries them out. It calls the endpoints of fastapi/routers/controls.py as functions,
-- without their role checks. The time of the last run is left out: whether a policy cools down is an
-- argument, and so is the source of UUIDs. `plan` of a handler has no effects.
pub mod Governed
use diep_lab.Base.{
  ℕ, suc, ◌+◌, String, ◌<>◌, Bool, true, false, not, Option, none, some, List, [], ◌∷◌, ◌++◌, ◌&&◌,
  ◌==◌, string_eq, leb, take, if◌then◌else◌,
}
use diep_lab.Base.Dict.{Dict, lookup, insert}
use diep_lab.Base.Result.{Result, ok, err}
use diep_lab.Controls.{
  Mode, Action, Handler, Principal, Reply, replied, refused, Outcome, is_executed, is_high, on_row,
  approve_row,
}
use diep_lab.Controls
use diep_lab.Controls.Serve.{ActionRequest, submit_action, execute_row}

-- A row of `automation_policies`; `auto` is whether its mode is not recommend.
pub record Policy (J : Type 0) : Type 0 where
  pub policy_id : String
  pub kind : String
  pub auto : Bool
  pub enabled : Bool
  pub tripped : Bool
  pub consecutive_failures : ℕ
  pub tenant_id : String
  pub bounds : J

-- `AutomationPolicy`; `within_bounds` returns the reason against, where there is one.
pub record PolicyKind (J : Type 0) : Type 0 where
  pub evaluate : Policy J → List (ActionRequest J)
  pub within_bounds : J → J → Option String
  pub max_per_tick : J → ℕ

pub data Decision : Type 0 where
  blocked proposed executed failed tripped skipped : Decision

pub record State (J : Type 0) : Type 0 where
  pub controls : Controls.State J
  pub policies : Dict String (Policy J)
  -- `automation_events`
  pub events : List (String × Decision)
  -- how many UUIDs have been drawn
  pub drawn : ℕ

-- `_sys_actor`
unfoldable pub sys_actor : String → Principal
sys_actor suffix = record { name = "automation:" <> suffix; role = "admin"; tenant = none }

module _ {J : Type 0} where
  -- `_event`
  unfoldable pub event : Policy J → Decision → State J → State J
  event policy d s = record s { events = s.events ++ (policy.policy_id, d) ∷ [] }

  -- The row of the policy in the table, which may have changed since the policy was read.
  unfoldable pub change_row : Option (Policy J) → (Policy J → Policy J) → State J → State J
  change_row none f s = s
  change_row (some row) f s = record s { policies = insert row.policy_id (f row) s.policies }

  unfoldable pub failures_of : Option (Policy J) → ℕ
  failures_of none = 0
  failures_of (some row) = suc row.consecutive_failures

  -- The `except` branch: `_bump_failures`, and `_trip` at the threshold.
  unfoldable pub fail : ℕ → Policy J → State J → State J
  fail threshold policy s =
      let row = lookup policy.policy_id s.policies in
      let fails = failures_of row in
      let trips = leb threshold fails in
      event policy (if trips then tripped else failed) (
        change_row row
          (λ r. record r {
            consecutive_failures = fails;
            tripped = if trips then true else r.tripped;
          })
          s)

  unfoldable pub succeed : Policy J → State J → State J
  succeed policy s = event policy executed (
      change_row (lookup policy.policy_id s.policies) (λ r. record r { consecutive_failures = 0 })
        s)

  -- What `execute` has answered.
  unfoldable pub settle : ℕ → Policy J → State J → Outcome J → State J
  settle threshold policy s (refused code, c) = fail threshold policy (record s { controls = c })
  settle threshold policy s (replied row, c) =
      let s' = record s { controls = c } in
      if is_executed row.status then succeed policy s' else fail threshold policy s'

module _ {J : Type 0} (handlers : String → Option (Handler J)) (dry : J) (threshold : ℕ)
    (controls_enabled : Bool) where
  unfoldable pub execute_as : Policy J → String → State J → State J
  execute_as policy aid s =
      let actor = sys_actor policy.policy_id in
      settle threshold policy s (
        on_row actor (lookup aid s.controls.actions) s.controls
          (execute_row handlers dry controls_enabled actor s.controls))

  unfoldable pub after_approval : Policy J → String → State J → Outcome J → State J
  after_approval policy aid s (refused code, c) = fail threshold policy (record s { controls = c })
  after_approval policy aid s (replied row, c) = execute_as policy aid (record s { controls = c })

  -- Auto mode, within bounds and with the flag on.
  unfoldable pub carry_out : Policy J → Action J → State J → State J
  carry_out policy row s =
      let supervisor = sys_actor "supervisor" in
      if is_high row.risk
      then after_approval policy row.action_id s (
          on_row supervisor (lookup row.action_id s.controls.actions) s.controls
            (approve_row supervisor s.controls))
      else execute_as policy row.action_id s

  unfoldable pub check_bounds : Policy J → Action J → State J → Option String → State J
  check_bounds policy row s (some why) = event policy blocked s
  check_bounds policy row s none =
      if controls_enabled then carry_out policy row s else event policy blocked s

  -- The preview of the plan that `submit_action` has made.
  unfoldable pub preview_of : Option (Handler J) → ActionRequest J → J
  preview_of none body = dry
  preview_of (some handler) body = elim (handler.plan body.target body.params) [
    | err code ↦ dry
    | ok (before, preview) ↦ preview
  ]

  unfoldable pub after_submit :
      PolicyKind J → Policy J → ActionRequest J → State J → Outcome J → State J
  after_submit kind policy body s (refused code, c) =
      event policy blocked (record s { controls = c })
  after_submit kind policy body s (replied row, c) =
      let s' = record s { controls = c } in
      if policy.auto
      then check_bounds policy row s'
          (kind.within_bounds (preview_of (handlers body.action_type) body) policy.bounds)
      else event policy proposed s'

  -- `_run_proposal`
  unfoldable pub run_proposal :
      (fresh : ℕ → String) → PolicyKind J → Policy J → ActionRequest J → State J → State J
  run_proposal fresh kind policy body s =
      let requester : Principal = record {
        name = "automation:" <> policy.policy_id;
        role = "admin";
        tenant = some policy.tenant_id;
      } in
      after_submit kind policy body (record s { drawn = suc s.drawn })
        (submit_action handlers dry requester (fresh s.drawn) body s.controls
          (handlers body.action_type))

  unfoldable pub run_proposals :
      (fresh : ℕ → String) → PolicyKind J → Policy J → List (ActionRequest J) → State J → State J
  run_proposals fresh kind policy [] s = s
  run_proposals fresh kind policy (b ∷ bs) s =
      run_proposals fresh kind policy bs (run_proposal fresh kind policy b s)

  -- One policy of `_tick`.
  unfoldable pub run_policy :
      (fresh : ℕ → String) (cooling : Bool) → Option (PolicyKind J) → Policy J → State J → State J
  run_policy fresh cooling none policy s = event policy skipped s
  run_policy fresh cooling (some kind) policy s =
      if cooling
      then s
      else run_proposals fresh kind policy
          (take (kind.max_per_tick policy.bounds) (kind.evaluate policy)) s

  -- The loop of `_tick` over the policies that were read at its start.
  unfoldable pub run_policies :
      (fresh : ℕ → String) (cooling : Policy J → Bool) (kinds : String → Option (PolicyKind J))
      → List (Policy J)
      → State J
      → State J
  run_policies fresh cooling kinds [] s = s
  run_policies fresh cooling kinds (p ∷ ps) s =
      run_policies fresh cooling kinds ps (run_policy fresh (cooling p) (kinds p.kind) p s)

  -- `SELECT ... WHERE enabled = TRUE AND tripped = FALSE`
  unfoldable pub active : Dict String (Policy J) → List (Policy J)
  active [] = []
  active ((id, p) ∷ d) =
      let rest = active d in if p.enabled && not p.tripped then p ∷ rest else rest

  -- `_tick`
  unfoldable pub tick :
      (fresh : ℕ → String) (cooling : Policy J → Bool) (kinds : String → Option (PolicyKind J))
      → State J
      → State J
  tick fresh cooling kinds s = run_policies fresh cooling kinds (active s.policies) s
