-- ===== src/Oms/Cases.antt =====
-- fastapi/routers/oms.py: the endpoints that report, open and update outages.
use diep_lab.Base.{
  is_some, ℕ, suc, String, not, Option, none, some, [], ◌∷◌, ◌&&◌, ◌==◌, contains, string_eq,
  pair_eq, if◌then◌else◌,
}
use diep_lab.Base.Dict.{lookup, insert}
use diep_lab.Base.Text.{upper}
use diep_lab.Contracts.Measurement.{is_nonempty}
use diep_lab.Oms.Records.{
  CaseStatus, detected, confirmed, restored, closed, Case, new, Report, Tables, Grid, Sweep,
  stopped,
}
use diep_lab.Oms.{put_case, add_case, run_detection}

module _ (g : Grid) where
  -- `call_handler`; the report refers to rows that exist.
  unfoldable pub call_handler : (ℕ → String) → Report → Tables → Sweep
  call_handler uuid r t =
      let row = record r { status = new; case_id = none } in
      if is_some (lookup (uuid t.drawn) t.reports)
      then stopped t
      else run_detection g uuid
          (record t { reports = insert (uuid t.drawn) row t.reports; drawn = suc t.drawn })

  -- `create_case`: the status code. The database knows five causes.
  unfoldable pub create_case : (ℕ → String) → String → String → Option String → Tables → ℕ × Tables
  create_case uuid node cause notes t =
      let id = uuid t.drawn in
      if not (is_some (lookup node g.parent))
      then (404, t)
      else if contains ("last_gasp" ∷ "heartbeat" ∷ "manual" ∷ "mixed" ∷ "unknown" ∷ []) cause
          && not (is_some (lookup id t.cases))
      then (
        201,
        add_case id
            (record {
              status = confirmed;
              cause = cause;
              node = some node;
              customers_affected = g.service_points node;
              notes = notes;
            })
            t,
      )
      else (500, t)

unfoldable pub status_named : String → Option CaseStatus
status_named s =
    if s == "DETECTED"
    then some detected
    else if s == "CONFIRMED"
    then some confirmed
    else if s == "RESTORED"
    then some restored
    else if s == "CLOSED"
    then some closed
    else none

abbrev pub note : Option String → Case → Case
note none c = c
note (some n) c = record c { notes = some n }

unfoldable pub update_row :
    Option String → Option String → String → Option Case → Tables → ℕ × Tables
update_row status notes id none t = (404, t)
update_row none notes id (some c) t = (200, put_case id (note notes c) t)
update_row (some s) notes id (some c) t =
    if is_nonempty s
    then elim (status_named (upper s)) [
      | none ↦ (422, t)
      | some st ↦ (200, put_case id (note notes (record c { status = st })) t)
    ]
    else (200, put_case id (note notes c) t)

-- `update_case`: the status code. No status is refused for the one that the case has.
unfoldable pub update_case : Option String → Option String → String → Tables → ℕ × Tables
update_case status notes id t = update_row status notes id (lookup id t.cases) t
