-- ===== src/Tests/Oms.antt =====
-- Runs of the outage management.
use diep_lab.Base.{
  ℕ, zero, suc, String, ◌≡◌, ◌≢◌, refl, sym, ◌∙◌, ap, true, none, some, [], ◌∷◌, contains,
  string_eq,
}
use diep_lab.Base.Dict.{lookup}
use diep_lab.Base.Int.{pos}
use diep_lab.Base.Text.{upper}
use diep_lab.Oms.Records.{Tables, Grid, swept}
use diep_lab.Oms.Signals.{cause_of, is_gasp, walk, out_of_fuel, root_of, section_root, root_or}
use diep_lab.Oms.{new_reports, run_detection}
use diep_lab.Oms.Attached.{IsReady}
use diep_lab.Oms.Kept.{IsCovered}
use diep_lab.Oms.Detected.{IsMapped, run_detection-IsCovered}
use diep_lab.Oms.Sections.{section_root-ends}

-- UUIDs of growing length.
ticks : ℕ → String
ticks zero = ""
ticks (suc n) = String.◌∷◌ "x" (ticks n)

size : String → ℕ
size String.[] = zero
size (String.◌∷◌ _ s) = suc (size s)

size-ticks : (n : ℕ) → size (ticks n) ≡ n
unfolding ticks size
size-ticks zero = refl
size-ticks (suc n) = ap suc (size-ticks n)

ticks-differ : (m n : ℕ) → ticks m ≡ ticks n → m ≡ n
ticks-differ m n e = sym (size-ticks m) ∙ ap size e ∙ size-ticks n

-- A meter below a switch, with a dying gasp, in a network whose root is its own parent.
abbrev grid : Grid
grid = record {
  meters = "m1" ∷ [];
  latest = λ dev. some (record { state = some "last_gasp"; age = pos 5 });
  meter_node = λ dev. some "n1";
  customer_node = λ c. none;
  parent = ("n1", some "s1") ∷ ("s1", some "s1") ∷ [];
  switch_fed = "s1" ∷ [];
  service_points = λ n. 12;
  timeout = pos 180000000;
}

abbrev tables : Tables
tables = record { cases = []; meters = []; reports = []; drawn = 0 }

section_found : section_root grid "n1" ≡ "s1"
unfolding section_root root_of walk lookup string_eq
section_found = refl

tables-IsReady : IsReady ticks tables
unfolding lookup
tables-IsReady = record { distinct = tt; unused = λ n le. refl }

tables-IsMapped : IsMapped grid tables
unfolding root_or section_root root_of walk lookup string_eq new_reports
tables-IsMapped = record { meters = λ dev h. refl; reports = tt }

meter_known : contains grid.meters "m1" ≡ true
unfolding string_eq
meter_known = refl

meter_out : cause_of grid.timeout (grid.latest "m1") ≡ some "last_gasp"
unfolding cause_of is_gasp upper string_eq
meter_out = refl

section_named : root_or grid "m1" (grid.meter_node "m1") ≢ "UNKNOWN"
unfolding root_or section_root root_of walk lookup string_eq
section_named = λ e. cc

run_detection-IsCovered_example :
    (t' : Tables) × (run_detection grid ticks tables ≡ swept t')
    × IsCovered (root_or grid "m1" (grid.meter_node "m1")) "m1" t'
run_detection-IsCovered_example =
    run_detection-IsCovered grid ticks ticks-differ tables "m1" "last_gasp" tables-IsReady
      tables-IsMapped meter_known refl meter_out section_named

section_root-ends_example : walk grid 4 (some "n1") [] ≢ out_of_fuel
section_root-ends_example = section_root-ends grid "n1"
