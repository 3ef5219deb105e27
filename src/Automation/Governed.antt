-- ===== src/Automation/Governed.antt =====
-- The automation engine against the rules of the control plane.
use diep_lab.Base.{
  ℕ, String, ◌≡◌, refl, sym, subst, Bool, true, false, Option, none, some, List, [], ◌∷◌, take,
  string_eq, inl, inr, Bool-cases, if◌then◌else◌,
}
use diep_lab.Controls.{Action, Handler, replied, refused, Outcome, is_executed, is_high}
use diep_lab.Controls.Serve.{ActionRequest, execute_row}
use diep_lab.Controls.Governed.{
  IsGoverned, on_row-IsGoverned, approve_row-IsGoverned, execute_mode-IsGoverned,
}
use diep_lab.Controls.Authority.{submit_action-IsGoverned}
use diep_lab.Automation.{
  Policy, PolicyKind, State, blocked, proposed, event, change_row, fail, succeed, settle,
  execute_as, after_approval, carry_out, check_bounds, preview_of, after_submit, run_proposal,
  run_proposals, run_policy, run_policies, tick,
}

module _ {J : Type 0} where
  controls-change_row :
      (o : Option (Policy J)) (f : Policy J → Policy J) (s : State J)
      → (change_row o f s).controls ≡ s.controls
  unfolding change_row
  controls-change_row none f s = refl
  controls-change_row (some row) f s = refl

  controls-fail : (n : ℕ) (p : Policy J) (s : State J) → (fail n p s).controls ≡ s.controls
  unfolding fail event
  controls-fail n p s = controls-change_row _ _ s

  controls-succeed : (p : Policy J) (s : State J) → (succeed p s).controls ≡ s.controls
  unfolding succeed event
  controls-succeed p s = controls-change_row _ _ s

  either :
      (b : Bool) (x y : State J)
      → IsGoverned x.controls
      → IsGoverned y.controls
      → IsGoverned (if b then x else y).controls
  either true x y g h = g
  either false x y g h = h

  settle-IsGoverned :
      (n : ℕ) (p : Policy J) (s : State J) (o : Outcome J)
      → IsGoverned o.1
      → IsGoverned (settle n p s o).controls
  unfolding settle
  settle-IsGoverned n p s (refused code, c) g =
      subst IsGoverned (sym (controls-fail n p (record s { controls = c }))) g
  settle-IsGoverned n p s (replied row, c) g = elim (Bool-cases (is_executed row.status)) [
    | inl done ↦ rw done (subst IsGoverned (sym (controls-succeed p (record s { controls = c }))) g)
    | inr other ↦
        rw other (subst IsGoverned (sym (controls-fail n p (record s { controls = c }))) g)
  ]

module _ {J : Type 0} (handlers : String → Option (Handler J)) (dry : J) (n : ℕ) (on : Bool) where
  execute_as-IsGoverned :
      (p : Policy J) (aid : String) (s : State J)
      → IsGoverned s.controls
      → IsGoverned (execute_as handlers dry n on p aid s).controls
  unfolding execute_as execute_row
  execute_as-IsGoverned p aid s g = settle-IsGoverned n p s _ (
      on_row-IsGoverned _ aid s.controls _ g
        (λ row fine. execute_mode-IsGoverned on dry _ s.controls row _ row.mode fine g))

  after_approval-IsGoverned :
      (p : Policy J) (aid : String) (s : State J) (o : Outcome J)
      → IsGoverned o.1
      → IsGoverned (after_approval handlers dry n on p aid s o).controls
  unfolding after_approval
  after_approval-IsGoverned p aid s (refused code, c) g =
      subst IsGoverned (sym (controls-fail n p (record s { controls = c }))) g
  after_approval-IsGoverned p aid s (replied row, c) g =
      execute_as-IsGoverned p aid (record s { controls = c }) g

  carry_out-IsGoverned :
      (p : Policy J) (row : Action J) (s : State J)
      → IsGoverned s.controls
      → IsGoverned (carry_out handlers dry n on p row s).controls
  unfolding carry_out
  carry_out-IsGoverned p row s g = elim (Bool-cases (is_high row.risk)) [
    | inl risky ↦ rw risky (
        after_approval-IsGoverned p row.action_id s _ (
          on_row-IsGoverned _ row.action_id s.controls _ g
            (λ r _. approve_row-IsGoverned _ s.controls r g)))
    | inr safe ↦ rw safe (execute_as-IsGoverned p row.action_id s g)
  ]

  check_bounds-IsGoverned :
      (p : Policy J) (row : Action J) (s : State J) (o : Option String)
      → IsGoverned s.controls
      → IsGoverned (check_bounds handlers dry n on p row s o).controls
  unfolding check_bounds event
  check_bounds-IsGoverned p row s (some why) g = g
  check_bounds-IsGoverned p row s none g =
      either on (carry_out handlers dry n on p row s) (event p blocked s)
        (carry_out-IsGoverned p row s g) g

  after_submit-IsGoverned :
      (k : PolicyKind J) (p : Policy J) (body : ActionRequest J) (s : State J) (o : Outcome J)
      → IsGoverned o.1
      → IsGoverned (after_submit handlers dry n on k p body s o).controls
  unfolding after_submit event
  after_submit-IsGoverned k p body s (refused code, c) g = g
  after_submit-IsGoverned k p body s (replied row, c) g =
      let s' = record s { controls = c } in
      let why =
        k.within_bounds (preview_of handlers dry n on (handlers body.action_type) body) p.bounds in
      either p.auto (check_bounds handlers dry n on p row s' why) (event p proposed s')
        (check_bounds-IsGoverned p row s' why g) g

  module _ (fresh : ℕ → String) where
    run_proposal-IsGoverned :
        (k : PolicyKind J) (p : Policy J) (body : ActionRequest J) (s : State J)
        → IsGoverned s.controls
        → IsGoverned (run_proposal handlers dry n on fresh k p body s).controls
    unfolding run_proposal
    run_proposal-IsGoverned k p body s g = after_submit-IsGoverned k p body _ _ (
        submit_action-IsGoverned handlers dry _ (fresh s.drawn) body s.controls
          (handlers body.action_type) g)

    run_proposals-IsGoverned :
        (k : PolicyKind J) (p : Policy J) (bodies : List (ActionRequest J)) (s : State J)
        → IsGoverned s.controls
        → IsGoverned (run_proposals handlers dry n on fresh k p bodies s).controls
    unfolding run_proposals
    run_proposals-IsGoverned k p [] s g = g
    run_proposals-IsGoverned k p (b ∷ bs) s g =
        run_proposals-IsGoverned k p bs _ (run_proposal-IsGoverned k p b s g)

    run_policy-IsGoverned :
        (cooling : Bool) (k : Option (PolicyKind J)) (p : Policy J) (s : State J)
        → IsGoverned s.controls
        → IsGoverned (run_policy handlers dry n on fresh cooling k p s).controls
    unfolding run_policy event
    run_policy-IsGoverned cooling none p s g = g
    run_policy-IsGoverned cooling (some k) p s g =
        let bodies = take (k.max_per_tick p.bounds) (k.evaluate p) in
        either cooling s (run_proposals handlers dry n on fresh k p bodies s) g
          (run_proposals-IsGoverned k p bodies s g)

    run_policies-IsGoverned :
        (cooling : Policy J → Bool) (kinds : String → Option (PolicyKind J)) (ps : List (Policy J))
        (s : State J)
        → IsGoverned s.controls
        → IsGoverned (run_policies handlers dry n on fresh cooling kinds ps s).controls
    unfolding run_policies
    run_policies-IsGoverned cooling kinds [] s g = g
    run_policies-IsGoverned cooling kinds (p ∷ ps) s g =
        run_policies-IsGoverned cooling kinds ps _
          (run_policy-IsGoverned (cooling p) (kinds p.kind) p s g)

    -- A tick of the engine keeps the control plane governed: whatever the policies propose, each
    -- actuation that it causes has the master flag on, and one of a high-risk action an approval by
    -- somebody else than its requester.
    pub tick-IsGoverned :
        (cooling : Policy J → Bool) (kinds : String → Option (PolicyKind J)) (s : State J)
        → IsGoverned s.controls
        → IsGoverned (tick handlers dry n on fresh cooling kinds s).controls
    unfolding tick
    tick-IsGoverned cooling kinds s g = run_policies-IsGoverned cooling kinds _ s g
