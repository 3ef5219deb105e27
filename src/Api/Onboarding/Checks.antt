-- ===== src/Api/Onboarding/Checks.antt =====
-- fastapi/app.py: the checks of a validation and the six tests of a certification.
use diep_lab.Base.{
  is_some, String, Bool, true, false, not, Option, none, some, List, [], ◌∷◌, ◌++◌, ◌&&◌, ◌==◌, leb,
  contains, string_eq,
}
use diep_lab.Base.Int.{ℤ, pos, leb_ℤ}
use diep_lab.Base.Text.{upper}
use diep_lab.Contracts.Measurement.{default}
use diep_lab.Api.Onboarding.Records.{
  Validation, Enrolled, LastCommand, Facts, Verdict, pass, fail, pending, TestResult,
}

-- `bool(text)`
unfoldable pub is_truthy : Option String → Bool
is_truthy none = false
is_truthy (some s) = not (s == "")

-- The `checks` of `validate_onboarding`: the site is advisory.
unfoldable pub validation_of : Facts → Enrolled → Validation
unfolding is_truthy
validation_of f row =
    let device_registered = is_some f.device in
    let protocol_declared = is_truthy row.protocol in
    let telemetry_seen = is_some f.latest_age in
    record {
      device_registered = device_registered;
      protocol_declared = protocol_declared;
      site_assigned = is_truthy row.site_name;
      telemetry_seen = telemetry_seen;
      passed = device_registered && protocol_declared && telemetry_seen;
    }

abbrev pub verdict : Bool → Verdict
verdict true = pass
verdict false = fail

-- Test 1: known, and not marked as offline.
unfoldable pub is_connected : Option (Option String) → Bool
is_connected none = false
is_connected (some status) = not (contains ("OFFLINE" ∷ "UNKNOWN" ∷ []) (upper (default "" status)))

-- ONBOARDING_TELEMETRY_FRESH_SECONDS, in microseconds.
abbrev pub fresh_window : ℤ
fresh_window = pos 300000000

-- Test 2.
unfoldable pub is_fresh : Option (Option ℤ) → Bool
is_fresh none = false
is_fresh (some none) = false
is_fresh (some (some age)) = leb_ℤ age fresh_window

-- Tests 3 and 4.
unfoldable pub command_tests : Option LastCommand → List TestResult
command_tests none =
    record { test_name = "command"; result = pending }
    ∷ record { test_name = "ack"; result = pending }
    ∷ []
command_tests (some c) =
    record { test_name = "command"; result = verdict c.dispatched }
    ∷ record {
      test_name = "ack";
      result = verdict (contains ("ACKED" ∷ "COMPLETED" ∷ []) (upper (default "" c.status)));
    }
    ∷ []

-- `_run_certification_tests`, without the rows that it writes.
unfoldable pub certification_tests : Facts → List TestResult
unfolding is_connected is_fresh command_tests
certification_tests f =
    record { test_name = "connectivity"; result = verdict (is_connected f.device) }
    ∷ record { test_name = "telemetry"; result = verdict (is_fresh f.latest_age) }
    ∷ (command_tests f.last_command
        ++ record {
          test_name = "failover";
          result = verdict (leb 10 f.samples && leb 1 (default 0 f.replicas));
        }
          ∷ record {
            test_name = "security";
            result = verdict (f.auth_enforced && not f.plaintext_open);
          }
          ∷ [])

abbrev pub is_pass : Verdict → Bool
is_pass pass = true
is_pass _ = false

-- No test failed and none is pending.
unfoldable pub all_passed : List TestResult → Bool
all_passed [] = true
all_passed (r ∷ rs) = is_pass r.result && all_passed rs
