-- ===== src/Oms/Grouped.antt =====
-- The groups of a sweep: every meter that shows a signal stands in the group of its section.
use diep_lab.Base.{
  is_some, String, Bool, true, Option, none, some, List, [], ◌∷◌, ◌≡◌, ◌≢◌, inl, inr, ◌||◌, refl,
  sym, contains, string_eq, ◌==◌, Bool-cases, All, arith,
}
use diep_lab.Base.Dict.{Dict, lookup, insert, lookup-insert, lookup-insert_self, lookup-insert_ne}
use diep_lab.Contracts.Measurement.{default, is_nonempty}
use diep_lab.Oms.Records.{Report, Grid, Group}
use diep_lab.Oms.Signals.{
  cause_of, add_out, meters_out, root_or, report_node, or_else, add_meter, add_cause, add_signal,
  add_meters, add_reports,
}

abbrev empty_group : Group
empty_group = record { meters = []; causes = [] }

-- Whether the group of a node has the meter.
abbrev pub has_signal : String → String → Dict String Group → Bool
has_signal node dev groups = is_some (lookup dev (default empty_group (lookup node groups)).meters)

is_some-add_meter :
    (dev : String) (d mnode : Option String) (ms : Dict String (Option String))
    → is_some (lookup dev ms) ≡ true
    → is_some (lookup dev (add_meter d mnode ms)) ≡ true
unfolding add_meter
is_some-add_meter dev none mnode ms h = h
is_some-add_meter dev (some d) mnode ms h = ground (arith, lookup-insert dev d mnode ms)

has_signal-add_signal :
    (node dev n : String) (d mnode : Option String) (c : String) (groups : Dict String Group)
    → has_signal node dev groups ≡ true
    → has_signal node dev (add_signal n d mnode c groups) ≡ true
unfolding add_signal
has_signal-add_signal node dev n d mnode c groups h =
    let old = default empty_group (lookup n groups) in
    let added : Group = record {
      meters = add_meter d mnode old.meters;
      causes = add_cause c old.causes;
    } in
    elim (string_eq.dec node n) [
      | yes same ↦
          rw (same, lookup-insert_self n added groups)
            (is_some-add_meter dev d mnode old.meters (rw (sym same) h))
      | no other ↦ rw (lookup-insert_ne node n added groups other) h
    ]

has_signal-added :
    (node dev : String) (mnode : Option String) (c : String) (groups : Dict String Group)
    → is_nonempty dev ≡ true
    → has_signal node dev (add_signal node (some dev) mnode c groups) ≡ true
unfolding add_signal add_meter
has_signal-added node dev mnode c groups h = rw (lookup-insert_self, h) (rw lookup-insert_self refl)

lookup-add_out_self :
    (dev c : String) (o : Option String) (out : Dict String String)
    → o ≡ some c
    → lookup dev (add_out dev o out) ≡ some c
unfolding add_out lookup
lookup-add_out_self dev c none out h = cc
lookup-add_out_self dev c (some k) out h = ground arith

lookup-add_out_ne :
    (dev d : String) (found o : Option String) (out : Dict String String)
    → dev ≢ d
    → lookup dev out ≡ found
    → lookup dev (add_out d o out) ≡ found
unfolding add_out lookup
lookup-add_out_ne dev d found none out other h = h
lookup-add_out_ne dev d found (some k) out other h = ground arith

module _ (g : Grid) where
  has_signal-add_meters :
      (node dev : String) (ms : Dict String String) (groups : Dict String Group)
      → has_signal node dev groups ≡ true
      → has_signal node dev (add_meters g ms groups) ≡ true
  unfolding add_meters
  has_signal-add_meters node dev [] groups h = h
  has_signal-add_meters node dev ((d, c) ∷ ms) groups h =
      has_signal-add_meters node dev ms _ (has_signal-add_signal node dev _ (some d) _ c groups h)

  pub has_signal-add_reports :
      (node dev : String) (rs : List Report) (groups : Dict String Group)
      → has_signal node dev groups ≡ true
      → has_signal node dev (add_reports g rs groups) ≡ true
  unfolding add_reports
  has_signal-add_reports node dev [] groups h = h
  has_signal-add_reports node dev (r ∷ rs) groups h =
      has_signal-add_reports node dev rs _
        (has_signal-add_signal node dev _ r.meter_device_id _ "manual" groups h)

  pub has_signal-out :
      (dev c : String) (ms : Dict String String) (groups : Dict String Group)
      → is_nonempty dev ≡ true
      → lookup dev ms ≡ some c
      → has_signal (root_or g dev (g.meter_node dev)) dev (add_meters g ms groups) ≡ true
  unfolding add_meters lookup
  has_signal-out dev c [] groups full h = cc
  has_signal-out dev c ((d, k) ∷ ms) groups full h = elim (string_eq.dec dev d) [
    | yes same ↦
        rw same
          (has_signal-add_meters _ d ms _ (has_signal-added _ d _ k groups (rw (sym same) full)))
    | no other ↦ has_signal-out dev c ms _ full (ground arith)
  ]

  pub lookup-meters_out :
      (dev c : String) (ms : List String)
      → contains ms dev ≡ true
      → cause_of g.timeout (g.latest dev) ≡ some c
      → lookup dev (meters_out g ms) ≡ some c
  unfolding meters_out lookup
  lookup-meters_out dev c [] m h = cc
  lookup-meters_out dev c (d ∷ ms) m h = elim (string_eq.dec dev d) [
    | yes same ↦ rw (sym same) (lookup-add_out_self dev c (cause_of g.timeout (g.latest dev)) _ h)
    | no other ↦
        lookup-add_out_ne dev d (some c) (cause_of g.timeout (g.latest d)) _ other
          (lookup-meters_out dev c ms (ground arith) h)
  ]

-- A node that the database accepts for a case, or the one that no case is opened for.
abbrev pub is_place : Grid → String → Bool
is_place g n = n == "UNKNOWN" || is_some (lookup n g.parent)

abbrev pub ArePlaces : Grid → Dict String Group → Type 0
ArePlaces g groups = All (λ e. is_place g e.0 ≡ true) groups

module _ (g : Grid) where
  ArePlaces-insert :
      (n : String) (group : Group) (groups : Dict String Group)
      → is_place g n ≡ true
      → ArePlaces g groups
      → ArePlaces g (insert n group groups)
  unfolding insert
  ArePlaces-insert n group [] place h = (place, tt)
  ArePlaces-insert n group ((m, k) ∷ groups) place (first, h) = elim (Bool-cases (n == m)) [
    | inl same ↦ rw same (first, h)
    | inr other ↦ rw other (first, ArePlaces-insert n group groups place h)
  ]

  pub ArePlaces-add_meters :
      (ms : Dict String String) (groups : Dict String Group)
      → All (λ e. is_place g (root_or g e.0 (g.meter_node e.0)) ≡ true) ms
      → ArePlaces g groups
      → ArePlaces g (add_meters g ms groups)
  unfolding add_meters add_signal
  ArePlaces-add_meters [] groups places h = h
  ArePlaces-add_meters ((d, c) ∷ ms) groups (place, places) h =
      ArePlaces-add_meters ms _ places (ArePlaces-insert _ _ groups place h)

  pub ArePlaces-add_reports :
      (rs : List Report) (groups : Dict String Group)
      → All
          (λ r.
            is_place g (root_or g (default "UNKNOWN" (or_else r.node_id none)) (report_node g r))
            ≡ true)
          rs
      → ArePlaces g groups
      → ArePlaces g (add_reports g rs groups)
  unfolding add_reports add_signal
  ArePlaces-add_reports [] groups places h = h
  ArePlaces-add_reports (r ∷ rs) groups (place, places) h =
      ArePlaces-add_reports rs _ places (ArePlaces-insert _ _ groups place h)
