-- ===== src/Controls/Authority.antt =====
-- Who has caused a live actuation.
use mathlib.Core.Option.{none-ne-some}
use diep_lab.Base.{
  ℕ, String, Option, none, some, List, [], ◌∷◌, string_eq, All, inl, inr, Bool-cases,
}
use diep_lab.Base.Dict.{lookup}
use diep_lab.Base.Result.{Result, ok, err}
use diep_lab.Controls.{Action, Handler, Principal, State, is_executed}
use diep_lab.Controls.Serve.{
  ActionRequest, Request, create, approve, reject, rollback, execute, submit_planned, submit_action,
  rollback_row, execute_row, serve, serve_all,
}
use diep_lab.Controls.Governed.{
  IsAuthorised, IsGoverned, updated-IsGoverned, approve_row-IsGoverned, reject_row-IsGoverned,
  rollback_with-IsGoverned, execute_mode-IsGoverned, require_role-IsGoverned, on_row-IsGoverned,
}

module _ {J : Type 0} (handlers : String → Option (Handler J)) (dry : J) where
  submit_planned-IsGoverned :
      (p : Principal) (id : String) (body : ActionRequest J) (s : State J) (h : Handler J)
      (o : Result ℕ (J × J))
      → IsGoverned s
      → IsGoverned (submit_planned handlers dry p id body s h o).1
  unfolding submit_planned
  submit_planned-IsGoverned p id body s h (err code) g = g
  submit_planned-IsGoverned p id body s h (ok (before, preview)) g =
      updated-IsGoverned _ "REQUESTED" p s (λ e. cc) g

  pub submit_action-IsGoverned :
      (p : Principal) (id : String) (body : ActionRequest J) (s : State J) (o : Option (Handler J))
      → IsGoverned s
      → IsGoverned (submit_action handlers dry p id body s o).1
  unfolding submit_action
  submit_action-IsGoverned p id body s none g = g
  submit_action-IsGoverned p id body s (some h) g =
      submit_planned-IsGoverned p id body s h (h.plan body.target body.params) g

  rollback_row-IsGoverned :
      (p : Principal) (s : State J) (row : Action J)
      → IsGoverned s
      → IsGoverned (rollback_row handlers dry p s row).1
  unfolding rollback_row
  rollback_row-IsGoverned p s row g = elim (Bool-cases (is_executed row.status)) [
    | inl was ↦ rw was (rollback_with-IsGoverned p s row _ g)
    | inr other ↦ rw other g
  ]

  -- Every request keeps the table and the log of actuations governed.
  serve-IsGoverned :
      (r : Request J) (s : State J) → IsGoverned s → IsGoverned (serve handlers dry r s).1
  unfolding serve execute_row
  serve-IsGoverned (create p id body) s g =
      require_role-IsGoverned _ p s _ g (submit_action-IsGoverned p id body s _ g)
  serve-IsGoverned (approve p id) s g =
      require_role-IsGoverned _ p s _ g
        (on_row-IsGoverned p id s _ g (λ row _. approve_row-IsGoverned p s row g))
  serve-IsGoverned (reject p id) s g =
      require_role-IsGoverned _ p s _ g
        (on_row-IsGoverned p id s _ g (λ row _. reject_row-IsGoverned p s row g))
  serve-IsGoverned (rollback p id) s g =
      require_role-IsGoverned _ p s _ g
        (on_row-IsGoverned p id s _ g (λ row _. rollback_row-IsGoverned p s row g))
  serve-IsGoverned (execute enabled p id) s g = require_role-IsGoverned _ p s _ g (
      on_row-IsGoverned p id s _ g
        (λ row fine. execute_mode-IsGoverned enabled dry p s row _ row.mode fine g))

  pub serve_all-IsAuthorised :
      (rs : List (Request J))
      → All IsAuthorised
          (serve_all handlers dry rs
            (record { actions = []; audit = []; actuations = [] })).actuations
  unfolding serve_all lookup
  serve_all-IsAuthorised rs =
      (keeps rs _
        (record { rows = λ id a h. absurd (none-ne-some a h); actuations = tt })).actuations
    where
      keeps :
          (rs : List (Request J)) (s : State J)
          → IsGoverned s
          → IsGoverned (serve_all handlers dry rs s)
      keeps [] s g = g
      keeps (r ∷ rs) s g = keeps rs (serve handlers dry r s).1 (serve-IsGoverned r s g)
