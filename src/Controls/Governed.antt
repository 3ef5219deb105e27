-- ===== src/Controls/Governed.antt =====
-- The invariant of the tables: what each change of a row, and each actuation, keeps.
use mathlib.Core.Option.{some-injective}
use diep_lab.Base.{
  String, ◌≡◌, ◌≢◌, refl, subst, Bool, true, false, Option, none, some, List, ◌&&◌, ◌||◌, ◌==◌,
  string_eq, All, All-append, arith, inl, inr, Bool-cases, Option-cases,
}
use diep_lab.Base.Dict.{lookup, lookup-insert}
use diep_lab.Controls.{
  Status, approved, Risk, high, Mode, live, dry_run, Action, Execution, done, http_error, raised,
  Handler, Principal, Actuation, State, is_pending, is_approved, is_high, is_foreign, audited, put,
  require_role, on_row, updated, Outcome, approve_row, reject_row, rollback_with, finish, actuate,
  execute_live, execute_dry, execute_mode, role_allowed,
}

is_approved→approved : (x : Status) → is_approved x ≡ true → x ≡ approved
is_approved→approved x h = ground arith

not_high : (r : Risk) → is_high r ≡ false → r ≢ high
not_high r h e = ground arith

module _ {J : Type 0} where
  -- Somebody else than the requester has approved it.
  pub record IsSecondPerson (a : Action J) : Type 0 where
    pub approver : String
    pub approval : a.approved_by ≡ some approver
    pub other : approver ≢ a.requested_by

  abbrev pub IsApproved : Action J → Type 0
  IsApproved a = a.status ≡ approved → a.risk ≡ high → IsSecondPerson a

  -- The master flag was on, and a high-risk action was approved by a second person.
  pub record IsAuthorised (a : Actuation J) : Type 0 where
    pub flag : a.enabled ≡ true
    pub approved_first : a.action.risk ≡ high → a.action.status ≡ approved
    pub second : a.action.risk ≡ high → IsSecondPerson a.action

  pub record IsGoverned (s : State J) : Type 0 where
    pub rows : (id : String) (a : Action J) → lookup id s.actions ≡ some a → IsApproved a
    pub actuations : All IsAuthorised s.actuations

  pub put-IsGoverned :
      (row : Action J) (s : State J) → IsApproved row → IsGoverned s → IsGoverned (put row s)
  unfolding put
  put-IsGoverned row s fine g = record {
    rows = λ id a found. elim (string_eq.dec id row.action_id) [
      | yes same ↦
          let it : some row ≡ some a =
            ground (arith, lookup-insert id row.action_id row s.actions) in
          subst IsApproved (some-injective _ _ it) fine
      | no other ↦ g.rows id a (ground (arith, lookup-insert id row.action_id row s.actions))
    ];
    actuations = g.actuations;
  }

  pub audited-IsGoverned :
      (row : Action J) (event : String) (p : Principal) (s : State J)
      → IsGoverned s
      → IsGoverned (audited row event p s)
  unfolding audited
  audited-IsGoverned row event p s g = record { rows = g.rows; actuations = g.actuations }

  pub updated-IsGoverned :
      (row : Action J) (event : String) (p : Principal) (s : State J)
      → IsApproved row
      → IsGoverned s
      → IsGoverned (updated row event p s).1
  unfolding updated
  updated-IsGoverned row event p s fine g =
      audited-IsGoverned row event p (put row s) (put-IsGoverned row s fine g)

  -- A row that is not approved needs nothing.
  unapproved : (a : Action J) → a.status ≢ approved → IsApproved a
  unapproved a h e r = absurd (h e)

  pub approve_row-IsGoverned :
      (p : Principal) (s : State J) (row : Action J)
      → IsGoverned s
      → IsGoverned (approve_row p s row).1
  unfolding approve_row
  approve_row-IsGoverned p s row g = elim (Bool-cases (is_pending row.status)) [
    | inr other ↦ rw other g
    | inl open_row ↦ elim (Bool-cases (is_high row.risk && p.name == row.requested_by)) [
      | inl own ↦ rw (open_row, own) g
      | inr fine ↦
          rw (open_row, fine)
            (updated-IsGoverned (record row { status = approved; approved_by = some p.name })
              "APPROVED" p s
              (λ _ risky. record {
                approver = p.name;
                approval = refl;
                other = λ same. ground arith;
              })
              g)
    ]
  ]

  pub reject_row-IsGoverned :
      (p : Principal) (s : State J) (row : Action J)
      → IsGoverned s
      → IsGoverned (reject_row p s row).1
  unfolding reject_row
  reject_row-IsGoverned p s row g = elim (Bool-cases (is_pending row.status)) [
    | inr other ↦ rw other g
    | inl fine ↦ rw fine (updated-IsGoverned _ "REJECTED" p s (λ e. cc) g)
  ]

  pub rollback_with-IsGoverned :
      (p : Principal) (s : State J) (row : Action J) (o : Option (Option J))
      → IsGoverned s
      → IsGoverned (rollback_with p s row o).1
  unfolding rollback_with
  rollback_with-IsGoverned p s row none g = g
  rollback_with-IsGoverned p s row (some none) g = g
  rollback_with-IsGoverned p s row (some (some after)) g =
      updated-IsGoverned _ "ROLLED_BACK" p s (λ e. cc) g

  pub finish-IsGoverned :
      (p : Principal) (s : State J) (row : Action J) (x : Execution J)
      → IsGoverned s
      → IsGoverned (finish p s row x).1
  unfolding finish
  finish-IsGoverned p s row (done after) g = updated-IsGoverned _ "EXECUTED" p s (λ e. cc) g
  finish-IsGoverned p s row (http_error code) g = g
  finish-IsGoverned p s row (raised message) g =
      audited-IsGoverned _ "FAILED" p _ (put-IsGoverned _ s (λ e. cc) g)

  pub actuate-IsGoverned :
      (p : Principal) (s : State J) (row : Action J) (h : Handler J)
      → (row.risk ≡ high → row.status ≡ approved)
      → IsApproved row
      → IsGoverned s
      → IsGoverned (actuate true p s row h).1
  unfolding actuate
  actuate-IsGoverned p s row h before fine g = finish-IsGoverned p _ row (h.execute row) (record {
    rows = g.rows;
    actuations = All-append IsAuthorised s.actuations _ g.actuations (
      record { flag = refl; approved_first = before; second = λ risky. fine (before risky) risky },
      tt,
    );
  })

  pub execute_live-IsGoverned :
      (enabled : Bool) (p : Principal) (s : State J) (row : Action J) (h : Handler J)
      → IsApproved row
      → IsGoverned s
      → IsGoverned (execute_live enabled p s row h).1
  unfolding execute_live
  execute_live-IsGoverned false p s row h fine g = audited-IsGoverned row "BLOCKED" p s g
  execute_live-IsGoverned true p s row h fine g = elim (Bool-cases (is_high row.risk)) [
    | inl risky ↦ elim (Bool-cases (is_approved row.status)) [
      | inl yes_approved ↦
          rw (risky, yes_approved)
            (actuate-IsGoverned p s row h (λ _. is_approved→approved _ yes_approved) fine g)
      | inr unready ↦ rw (risky, unready) (audited-IsGoverned row "BLOCKED" p s g)
    ]
    | inr safe ↦ elim (Bool-cases (is_pending row.status || is_approved row.status)) [
      | inl ready ↦
          rw (safe, ready)
            (actuate-IsGoverned p s row h (λ risky. absurd (not_high _ safe risky)) fine g)
      | inr over ↦ rw (safe, over) g
    ]
  ]

  pub execute_dry-IsGoverned :
      (dry : J) (p : Principal) (s : State J) (row : Action J)
      → IsGoverned s
      → IsGoverned (execute_dry dry p s row).1
  unfolding execute_dry
  execute_dry-IsGoverned dry p s row g =
      elim (Bool-cases (is_pending row.status || is_approved row.status)) [
        | inl ready ↦
            rw ready (put-IsGoverned _ _ (λ e. cc) (audited-IsGoverned row "DRYRUN" p s g))
        | inr over ↦ rw over g
      ]

  pub execute_mode-IsGoverned :
      (enabled : Bool) (dry : J) (p : Principal) (s : State J) (row : Action J)
      (o : Option (Handler J)) (m : Mode)
      → IsApproved row
      → IsGoverned s
      → IsGoverned (execute_mode enabled dry p s row o m).1
  unfolding execute_mode
  execute_mode-IsGoverned enabled dry p s row none m fine g = g
  execute_mode-IsGoverned enabled dry p s row (some h) dry_run fine g =
      execute_dry-IsGoverned dry p s row g
  execute_mode-IsGoverned enabled dry p s row (some h) live fine g =
      execute_live-IsGoverned enabled p s row h fine g

  pub require_role-IsGoverned :
      (allowed : List String) (p : Principal) (s : State J) (next : Outcome J)
      → IsGoverned s
      → IsGoverned next.1
      → IsGoverned (require_role allowed p s next).1
  unfolding require_role
  require_role-IsGoverned allowed p s next g n = elim (Bool-cases (role_allowed p.role allowed)) [
    | inl may ↦ rw may n
    | inr may_not ↦ rw may_not g
  ]

  pub on_row-IsGoverned :
      (p : Principal) (id : String) (s : State J) (k : Action J → Outcome J)
      → IsGoverned s
      → ((row : Action J) → IsApproved row → IsGoverned (k row).1)
      → IsGoverned (on_row p (lookup id s.actions) s k).1
  unfolding on_row
  on_row-IsGoverned p id s k g next = elim (Option-cases (lookup id s.actions)) [
    | inl absent ↦ rw (absent, on_row) g
    | inr (row, present) ↦ elim (Bool-cases (is_foreign p.tenant row.tenant_id)) [
      | inl foreign ↦ rw (present, on_row, foreign) g
      | inr own ↦ rw (present, on_row, own) (next row (g.rows id row present))
    ]
  ]
