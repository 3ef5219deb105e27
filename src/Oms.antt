-- ===== src/Oms.antt =====
-- fastapi/routers/oms.py: the outage cases, from a detection sweep to their end. The tables are dicts
-- by their keys, in the order of insertion, which is that of `detected_at`; time stamps, the model
-- version, names and phone numbers are left out. What a sweep reads of the other tables stays the same
-- while it runs. An INSERT of a case is refused for a node that is no grid node, and for a UUID that is
-- taken; all other references are to rows that the sweep has read.
pub mod Records
pub mod Signals
pub mod Grouped
pub mod Kept
pub mod Attached
pub mod Upserted
pub mod Closing
pub mod Detected
pub mod Cases
pub mod Sections
use diep_lab.Base.{
  is_some, ℕ, suc, ◌+◌, String, Bool, true, false, not, Option, none, some, List, [], ◌∷◌, ◌&&◌,
  ◌||◌, ◌==◌, contains, string_eq, pair_eq, if◌then◌else◌,
}
use diep_lab.Base.Dict.{Dict, lookup, insert}
use diep_lab.Base.Text.{upper}
use diep_lab.Contracts.Measurement.{is_nonempty, is_nil}
use diep_lab.Oms.Records.{
  CaseStatus, detected, confirmed, restored, closed, Case, ReportStatus, new, linked, dismissed,
  Report, Tables, Grid, Group, Sweep, swept, stopped,
}
use diep_lab.Oms.Signals.{is_back, section_root, meters_out, report_node, add_meters, add_reports}

abbrev pub is_open : CaseStatus → Bool
is_open detected = true
is_open confirmed = true
is_open _ = false

abbrev pub is_at : String → Option String → Bool
is_at n none = false
is_at n (some m) = m == n

-- The newer of a row and the one found behind it.
unfoldable pub newer : String → String → Case → Option (String × Case) → Option (String × Case)
newer n id c (some found) = some found
newer n id c none = if is_open c.status && is_at n c.node then some (id, c) else none

-- `_open_case_for_node`
unfoldable pub newest_open : String → Dict String Case → Option (String × Case)
newest_open n [] = none
newest_open n ((id, c) ∷ d) = newer n id c (newest_open n d)

-- The cause of a case, by the causes of its signals.
unfoldable pub case_cause : List String → String
case_cause [] = "unknown"
case_cause (c ∷ []) = c
case_cause (c ∷ _ ∷ _) = "mixed"

-- The INSERTs of `outage_case_meters`, which do nothing on a conflict.
unfoldable pub attach_one :
    String → String → Option String → Option (Option String) → Tables → Tables
attach_one id dev mnode (some _) t = t
attach_one id dev mnode none t = record t { meters = insert (id, dev) mnode t.meters }

unfoldable pub attach : String → Dict String (Option String) → Tables → Tables
attach id [] t = t
attach id ((dev, mnode) ∷ ms) t =
    attach id ms (attach_one id dev mnode (lookup (id, dev) t.meters) t)

abbrev pub put_case : String → Case → Tables → Tables
put_case id c t = record t { cases = insert id c t.cases }

-- `UPDATE outage_cases ... WHERE case_id`
unfoldable pub set_status : CaseStatus → String → Case → Tables → Tables
set_status st id c t = put_case id (record c { status = st }) t

unfoldable pub add_case : String → Case → Tables → Tables
add_case id c t = record t { cases = insert id c t.cases; drawn = suc t.drawn }

-- What comes next, unless the sweep has stopped.
unfoldable pub then_sweep : Sweep → (Tables → Sweep) → Sweep
then_sweep (swept t) next = next t
then_sweep (stopped t) next = stopped t

module _ (g : Grid) (uuid : ℕ → String) where
  -- The first half of `_upsert_case`, by the open case of the node.
  unfoldable pub upsert_row : String → Group → Option (String × Case) → Tables → Sweep
  upsert_row node group (some (id, c)) t = swept (
      attach id group.meters (
        put_case id
          (record c { customers_affected = g.service_points node; cause = case_cause group.causes })
          t))
  upsert_row node group none t =
      let id = uuid t.drawn in
      if is_some (lookup node g.parent) && not (is_some (lookup id t.cases))
      then swept (
          attach id group.meters (
            add_case id
              (record {
                status = detected;
                cause = case_cause group.causes;
                node = some node;
                customers_affected = g.service_points node;
                notes = none;
              })
              t))
      else stopped t

  -- The loop over the groups.
  unfoldable pub upsert_all : Dict String Group → Tables → Sweep
  upsert_all [] t = swept t
  upsert_all ((node, group) ∷ groups) t =
      if node == "UNKNOWN"
      then upsert_all groups t
      else then_sweep (upsert_row node group (newest_open node t.cases) t) (upsert_all groups)

unfoldable pub new_reports : Dict String Report → Dict String Report
new_reports [] = []
new_reports ((id, r) ∷ d) =
    let rest = new_reports d in elim r.status [ new ↦ (id, r) ∷ rest | _ ↦ rest ]

abbrev pub reports_of : Dict String Report → List Report
reports_of [] = []
reports_of ((_, r) ∷ d) = r ∷ reports_of d

-- A case that a report corroborates, by its status.
unfoldable pub corroborate : CaseStatus → String → Case → Tables → Tables
corroborate detected id c t =
    put_case id
      (record c { status = confirmed; cause = if c.cause == "manual" then "manual" else "mixed" }) t
corroborate _ id c t = t

unfoldable pub link_row : String → Report → Option (String × Case) → Tables → Tables
link_row rid r none t = t
link_row rid r (some (id, c)) t =
    corroborate c.status id c (record t {
      reports = insert rid (record r { status = linked; case_id = some id }) t.reports;
    })

unfoldable pub open_at : Option String → Dict String Case → Option (String × Case)
open_at none cases = none
open_at (some n) cases = newest_open n cases

-- The meters of a case.
unfoldable pub meters_of : String → Dict (String × String) (Option String) → List String
meters_of id [] = []
meters_of id (((c, dev), _) ∷ d) = let rest = meters_of id d in if c == id then dev ∷ rest else rest

module _ (g : Grid) where
  unfoldable pub known_root : Option String → Option String
  known_root none = none
  known_root (some n) = if is_nonempty n then some (section_root g n) else none

  -- The loop that links the reports.
  unfoldable pub link_all : Dict String Report → Tables → Tables
  link_all [] t = t
  link_all ((rid, r) ∷ rs) t =
      link_all rs (link_row rid r (open_at (known_root (report_node g r)) t.cases) t)

  -- Whether the meters of a case are all back.
  unfoldable pub all_back : List String → Bool
  all_back [] = true
  all_back (dev ∷ devs) = is_back g.timeout (g.latest dev) && all_back devs

  unfoldable pub is_over : List String → Bool
  is_over devs = not (is_nil devs) && all_back devs

  -- The loop over the cases that were open when it began.
  unfoldable pub restore_all : Dict String Case → Tables → Tables
  restore_all [] t = t
  restore_all ((id, c) ∷ cs) t = restore_all cs (
      if is_open c.status && is_over (meters_of id t.meters) then set_status restored id c t else t)

  unfoldable pub finish_sweep : Dict String Report → Sweep → Sweep
  finish_sweep reports (stopped t) = stopped t
  finish_sweep reports (swept t) = let t' = link_all reports t in swept (restore_all t'.cases t')

  -- `_run_detection`
  unfoldable pub run_detection : (ℕ → String) → Tables → Sweep
  run_detection uuid t =
      let reports = new_reports t.reports in
      let groups = add_reports g (reports_of reports) (add_meters g (meters_out g g.meters) []) in
      finish_sweep reports (upsert_all g uuid groups t)
