-- ===== src/Oms/Signals.antt =====
-- fastapi/routers/oms.py: the outage signals, and the sections of the network that they stand for.
use diep_lab.Base.{
  ℕ, zero, suc, String, Bool, false, not, Option, none, some, List, [], ◌∷◌, ◌&&◌, ◌==◌, contains,
  string_eq, length, if◌then◌else◌,
}
use diep_lab.Base.Dict.{Dict, lookup, insert}
use diep_lab.Base.Int.{ℤ, ltb_ℤ}
use diep_lab.Base.Text.{upper}
use diep_lab.Contracts.Measurement.{default, is_nonempty}
use diep_lab.Oms.Records.{Report, Reading, Grid, Group}

-- The state `LAST_GASP`, and a heartbeat that is overdue.
unfoldable pub is_gasp : Reading → Bool
is_gasp r = upper (default "" r.state) == "LAST_GASP"

unfoldable pub cause_of : ℤ → Option Reading → Option String
cause_of timeout none = none
cause_of timeout (some r) =
    if is_gasp r then some "last_gasp" else if ltb_ℤ timeout r.age then some "heartbeat" else none

-- `_meter_is_back`
unfoldable pub is_back : ℤ → Option Reading → Bool
is_back timeout none = false
is_back timeout (some r) = not (is_gasp r) && not (ltb_ℤ timeout r.age)

-- How the walk up ends: at a switch-fed node, or without one. `out_of_fuel` is the model's.
pub data Walk : Type 0 where
  fed : String → Walk
  unfed out_of_fuel : Walk

-- `a or b`, of a text that may be missing, and `b` where `a` is None.
abbrev pub or_else : Option String → Option String → Option String
or_else none o = o
or_else (some n) o = if is_nonempty n then some n else o

abbrev pub first_known : Option String → Option String → Option String
first_known none o = o
first_known (some n) o = some n

-- A query, where there is something to ask for.
unfoldable pub node_of : (String → Option String) → Option String → Option String
node_of f none = none
node_of f (some id) = if is_nonempty id then f id else none

-- `out[dev] = cause` where there is one.
unfoldable pub add_out : String → Option String → Dict String String → Dict String String
add_out dev none out = out
add_out dev (some c) out = (dev, c) ∷ out

module _ (g : Grid) where
  -- The `while` loop of `_section_root`.
  unfoldable pub walk : ℕ → Option String → List String → Walk
  walk zero cur seen = out_of_fuel
  walk (suc fuel) none seen = unfed
  walk (suc fuel) (some cur) seen =
      let up = walk fuel (default none (lookup cur g.parent)) (cur ∷ seen) in
      if contains seen cur then unfed else if contains g.switch_fed cur then fed cur else up

  unfoldable pub root_of : String → Walk → String
  root_of node (fed n) = n
  root_of node _ = node

  -- `_section_root`. A round sees a node for the first time, and one that is no row has no parent.
  unfoldable pub section_root : String → String
  section_root node = root_of node (walk (suc (suc (length g.parent))) (some node) [])

  -- `_meters_out`
  unfoldable pub meters_out : List String → Dict String String
  meters_out [] = []
  meters_out (m ∷ ms) = add_out m (cause_of g.timeout (g.latest m)) (meters_out ms)

  -- The node that a report tells of.
  unfoldable pub report_node : Report → Option String
  report_node r =
      first_known (or_else r.node_id (node_of g.meter_node r.meter_device_id))
        (node_of g.customer_node r.customer_id)

  -- `_section_root(mnode) if mnode else ...`
  unfoldable pub root_or : String → Option String → String
  root_or other none = other
  root_or other (some n) = if is_nonempty n then section_root n else other

-- `g["meters"][dev] = mnode` where there is a device.
unfoldable pub add_meter :
    Option String → Option String → Dict String (Option String) → Dict String (Option String)
add_meter none mnode ms = ms
add_meter (some dev) mnode ms = if is_nonempty dev then insert dev mnode ms else ms

abbrev pub add_cause : String → List String → List String
add_cause c cs = if contains cs c then cs else c ∷ cs

-- `_add`
unfoldable pub add_signal :
    String → Option String → Option String → String → Dict String Group → Dict String Group
add_signal node dev mnode cause groups =
    let old = default (record { meters = []; causes = [] }) (lookup node groups) in
    insert node
      (record { meters = add_meter dev mnode old.meters; causes = add_cause cause old.causes })
      groups

module _ (g : Grid) where
  unfoldable pub add_meters : Dict String String → Dict String Group → Dict String Group
  add_meters [] groups = groups
  add_meters ((dev, cause) ∷ ms) groups =
      let mnode = g.meter_node dev in
      add_meters ms (add_signal (root_or g dev mnode) (some dev) mnode cause groups)

  unfoldable pub add_reports : List Report → Dict String Group → Dict String Group
  add_reports [] groups = groups
  add_reports (r ∷ rs) groups =
      let mnode = report_node g r in
      add_reports rs (
        add_signal (root_or g (default "UNKNOWN" (or_else r.node_id none)) mnode) r.meter_device_id
          mnode "manual" groups)
