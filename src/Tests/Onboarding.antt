-- ===== src/Tests/Onboarding.antt =====
-- Runs of the onboarding of devices, and of the life of a command.
use diep_lab.Base.{String, ◌≡◌, refl, true, false, none, some, List, [], ◌∷◌, string_eq, nat_eq}
use diep_lab.Base.Dict.{Dict, lookup, insert}
use diep_lab.Base.Int.{pos}
use diep_lab.Base.Result.{ok}
use diep_lab.Base.Text.{upper}
use diep_lab.Controls.{Principal, role_allowed}
use diep_lab.Api.Onboarding.Records.{
  production_ready, Facts, Request, enroll, validate, certify, approve,
}
use diep_lab.Api.Onboarding.{
  guarded, put_row, enroll_row, validate_row, certify_row, approve_stage, serve, after,
}
use diep_lab.Api.Onboarding.Checks.{
  validation_of, certification_tests, is_connected, is_fresh, is_truthy, command_tests, all_passed,
}
use diep_lab.Api.Onboarding.Diagram.{Move, life_in}
use diep_lab.Api.Onboarding.LifeCycle.{serve-Move}
use diep_lab.Api.Onboarding.Earned.{InOrder, path_to, stage-IsEarned}
use diep_lab.Api.Commands.Records.{
  acked, sent, Device, Command, CommandRequest, State, Event, create, published, ack, write,
}
use diep_lab.Api.Commands.{admit, admit_device, is_foreign_device, is_allowed, run, live_status}
use diep_lab.Api.Commands.Terminal.{HasEnded, run-HasEnded}
use diep_lab.Api.Commands.Live.{
  start, run_serial, row_status, overtaken, live_status-serial, live_status-overtaken,
}

abbrev admin : Principal
admin = record { name = "root"; role = "admin"; tenant = none }

abbrev healthy : Facts
healthy = record {
  device = some (some "online");
  latest_age = some (some (pos 1000000));
  last_command = some (record { dispatched = true; status = some "ACKED" });
  samples = 12;
  replicas = some 2;
  auth_enforced = true;
  plaintext_open = false;
}

-- The latest request first.
abbrev history : List Request
history =
    approve admin 30 "m1" "root" none
    ∷ certify admin 20 healthy "m1"
    ∷ validate admin 10 healthy "m1"
    ∷ enroll admin healthy (record {
      device_id = "m1";
      site_name = none;
      protocol = some "DLMS";
      vendor = none;
      notes = none;
    })
    ∷ []

history_ends : life_in "m1" (after history) ≡ some (production_ready, some "DLMS")
unfolding after serve guarded put_row enroll_row validate_row certify_row approve_stage
    validation_of certification_tests is_connected is_fresh is_truthy command_tests all_passed
    role_allowed upper lookup insert string_eq
history_ends = refl

stage-IsEarned_example : InOrder (path_to "m1" (some "DLMS") production_ready) history
stage-IsEarned_example = stage-IsEarned "m1" history production_ready (some "DLMS") history_ends

serve-Move_example :
    Move "m1"
      (certify admin 20 healthy "m1")
      (life_in "m1" (after history))
      (life_in "m1" (serve (certify admin 20 healthy "m1") (after history)).1)
serve-Move_example = serve-Move "m1" (certify admin 20 healthy "m1") (after history)

abbrev charger : Device
charger = record { device_type = some "ev_charger"; tenant_id = none }

abbrev devices : Dict String Device
devices = ("ev1", charger) ∷ []

abbrev request : CommandRequest String
request = record {
  device_id = "ev1";
  command_type = "start_charging";
  params = "{}";
  issued_by = "root";
}

abbrev row : Command String
row = record {
  device_id = "ev1";
  device_type = some "ev_charger";
  command_type = "start_charging";
  params = "{}";
  status = acked;
  issued_by = "root";
  error_message = none;
  dispatched = false;
  answered = true;
}

-- A command that was acknowledged before its publication was noted.
abbrev answered : State String
answered = record {
  devices = devices;
  commands = ("c1", row) ∷ [];
  mirror = [];
  twins = [];
  waiting = [];
}

answered-HasEnded : HasEnded "c1" answered
unfolding lookup string_eq
answered-HasEnded = refl

run-HasEnded_example : HasEnded "c1" (run (published "c1" ∷ write 0 ∷ write 0 ∷ []) answered)
run-HasEnded_example =
    run-HasEnded "c1" (published "c1" ∷ write 0 ∷ write 0 ∷ []) answered answered-HasEnded

abbrev events : List (Event String)
events = create admin "c1" request ∷ published "c1" ∷ ack admin "c1" "acked" none ∷ []

live_status-serial_example :
    live_status "c1" (run_serial events (start devices))
    ≡ row_status "c1" (run_serial events (start devices))
live_status-serial_example = live_status-serial devices events "c1"

request_fresh : lookup "c1" (start {J = String} devices).commands ≡ none
unfolding lookup
request_fresh = refl

request_admitted : admit admin request (lookup "ev1" devices) ≡ ok charger
unfolding admit admit_device is_foreign_device is_allowed role_allowed lookup string_eq
request_admitted = refl

admin_acks : role_allowed admin.role ("service" ∷ []) ≡ true
unfolding role_allowed string_eq
admin_acks = refl

live_status-overtaken_example :
    (row_status "c1" (run (overtaken admin admin "c1" request) (start devices)) ≡ some acked)
    × (live_status "c1" (run (overtaken admin admin "c1" request) (start devices)) ≡ some sent)
    × ((run (overtaken admin admin "c1" request) (start devices)).waiting ≡ [])
live_status-overtaken_example =
    live_status-overtaken admin admin "c1" request charger (start devices) refl request_fresh
      request_admitted admin_acks
