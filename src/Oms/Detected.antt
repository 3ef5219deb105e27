-- ===== src/Oms/Detected.antt =====
-- A whole sweep: what it finds dark is covered by an open case when it ends.
use diep_lab.Base.{
  ℕ, String, Bool, true, not, Option, none, some, List, [], ◌∷◌, ◌≡◌, ◌≢◌, refl, contains,
  string_eq, pair_eq, ◌==◌, ◌&&◌, All, arith,
}
use diep_lab.Contracts.Measurement.{default, is_nonempty}
use diep_lab.Oms.Records.{Tables, Grid, swept}
use diep_lab.Oms.Signals.{
  cause_of, add_out, meters_out, root_or, report_node, or_else, add_meters, add_reports,
}
use diep_lab.Oms.{new_reports, reports_of, link_all, restore_all, finish_sweep, run_detection}
use diep_lab.Oms.Grouped.{
  has_signal, has_signal-out, has_signal-add_reports, lookup-meters_out, is_place,
  ArePlaces-add_meters, ArePlaces-add_reports,
}
use diep_lab.Oms.Kept.{IsCovered, IsCovered-Keeps}
use diep_lab.Oms.Attached.{IsReady}
use diep_lab.Oms.Upserted.{upsert_all-Upserts}
use diep_lab.Oms.Closing.{link_all-Links, restore_all-IsCovered, cause_of-dark}

module _ (g : Grid) where
  -- Every node that a signal leads to is a grid node, or unknown.
  pub record IsMapped (t : Tables) : Type 0 where
    pub meters :
        (dev : String)
        → contains g.meters dev ≡ true
        → is_place g (root_or g dev (g.meter_node dev)) ≡ true
    pub reports :
        All
          (λ r.
            is_place g (root_or g (default "UNKNOWN" (or_else r.node_id none)) (report_node g r))
            ≡ true)
          (reports_of (new_reports t.reports))

  AreMapped-meters_out :
      (ms : List String)
      → ((dev : String)
          → contains ms dev ≡ true
          → is_place g (root_or g dev (g.meter_node dev)) ≡ true)
      → All (λ e. is_place g (root_or g e.0 (g.meter_node e.0)) ≡ true) (meters_out g ms)
  unfolding meters_out add_out
  AreMapped-meters_out [] k = tt
  AreMapped-meters_out (m ∷ ms) k =
      by_cause (cause_of g.timeout (g.latest m))
        (AreMapped-meters_out ms (λ dev h. k dev (ground arith)))
    where
      by_cause :
          (o : Option String)
          → All (λ e. is_place g (root_or g e.0 (g.meter_node e.0)) ≡ true) (meters_out g ms)
          → All
              (λ e. is_place g (root_or g e.0 (g.meter_node e.0)) ≡ true)
              (add_out m o (meters_out g ms))
      by_cause none h = h
      by_cause (some c) h = (k m (ground arith), h)

  elsewhere :
      (node : String) (b : Bool)
      → node ≢ "UNKNOWN"
      → b ≡ true
      → (not (node == "UNKNOWN") && b) ≡ true
  elsewhere node b there h = elim (string_eq.dec node "UNKNOWN") [
    | yes same ↦ absurd (there same)
    | no other ↦ ground arith
  ]

  module _ (uuid : ℕ → String) (different : (m n : ℕ) → uuid m ≡ uuid n → m ≡ n) where
    sweep-IsCovered :
        (t : Tables)
        → IsReady uuid t
        → IsMapped t
        → (t' : Tables) × (run_detection g uuid t ≡ swept t')
          × ((dev cause : String)
              → contains g.meters dev ≡ true
              → is_nonempty dev ≡ true
              → cause_of g.timeout (g.latest dev) ≡ some cause
              → root_or g dev (g.meter_node dev) ≢ "UNKNOWN"
              → IsCovered (root_or g dev (g.meter_node dev)) dev t')
    unfolding run_detection finish_sweep
    sweep-IsCovered t ready mapped =
        let reports = new_reports t.reports in
        let metered = add_meters g (meters_out g g.meters) [] in
        let groups = add_reports g (reports_of reports) metered in
        let places = ArePlaces-add_reports g (reports_of reports) metered mapped.reports (
          ArePlaces-add_meters g (meters_out g g.meters) []
            (AreMapped-meters_out g.meters mapped.meters) tt) in
        let up = upsert_all-Upserts g uuid different groups t places ready in
        let links = link_all-Links g reports up.after up.ready.distinct in
        let t1 = link_all g reports up.after in
        (
          restore_all g t1.cases t1,
          rw up.ends refl,
          λ dev cause known full out there.
              let node = root_or g dev (g.meter_node dev) in
              let signal = has_signal-add_reports g node dev (reports_of reports) metered (
                has_signal-out g dev cause (meters_out g g.meters) [] full
                  (lookup-meters_out g dev cause g.meters known out)) in
              restore_all-IsCovered g node dev t1.cases t1
                (cause_of-dark g (g.latest dev) cause out)
                (IsCovered-Keeps node dev up.after t1 links.keeps
                  (up.covered node dev (elsewhere node (has_signal node dev groups) there signal))),
        )

    -- If the UUIDs to come are new and every node that a signal leads to is a grid node, a sweep
    -- comes to its end, and a smart meter that shows a signal, whose device id is not empty and whose
    -- section is not UNKNOWN, then has an open case at the section of its node, with the meter attached:
    -- the same sweep does not restore it.
    pub run_detection-IsCovered :
        (t : Tables) (dev cause : String)
        → IsReady uuid t
        → IsMapped t
        → contains g.meters dev ≡ true
        → is_nonempty dev ≡ true
        → cause_of g.timeout (g.latest dev) ≡ some cause
        → root_or g dev (g.meter_node dev) ≢ "UNKNOWN"
        → (t' : Tables) × (run_detection g uuid t ≡ swept t')
          × IsCovered (root_or g dev (g.meter_node dev)) dev t'
    run_detection-IsCovered t dev cause ready mapped known full out there =
        let (t', ends, covers) = sweep-IsCovered t ready mapped in
        (t', ends, covers dev cause known full out there)
