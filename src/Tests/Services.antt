-- ===== src/Tests/Services.antt =====
-- Runs of the services around the pipeline, and of the automation engine.
use mathlib.Core.Option.{none-ne-some}
use diep_lab.Base.{
  String, ◌≡◌, refl, inr, All, true, false, none, some, List, [], ◌∷◌, string_eq, if◌then◌else◌,
}
use diep_lab.Base.Int.{ℤ, pos, ◌-ℤ◌}
use diep_lab.Base.Dict.{Dict, lookup}
use diep_lab.Base.Result.{ok}
use diep_lab.Contracts.Error.{Scalar, float, text}
use diep_lab.Opcua.{get, set, invalidate, Call, reads, stores, drops, calls, Spares, get-set}
use diep_lab.Controls.{low, live, done, Handler}
use diep_lab.Controls.Governed.{IsGoverned}
use diep_lab.Automation.{Policy, PolicyKind, State, tick}
use diep_lab.Automation.Governed.{tick-IsGoverned}
use diep_lab.Tests.Samples.{fixed_point}

abbrev native : Dict String (Scalar ℤ)
native = ("soc", float (pos 5)) ∷ ("voltage", text "high") ∷ []

abbrev aliases : List (String × String)
aliases = ("soc", "battery_soc") ∷ ("soc", "unknown") ∷ []

abbrev store : Dict String (ℤ × String)
store = ("n1", (pos 1, "old")) ∷ ("n", (pos 2, "other")) ∷ []

-- Before the last reading of n1, others write and drop n, and n1 is read in time.
abbrev between : List (Call ℤ String)
between = stores (pos 10) "n" "two" ∷ reads (pos 100) "n1" ∷ drops "n" ∷ []

between-Spares : All (Spares (pos 300) "n1" (pos 5)) between
unfolding fixed_point ◌-ℤ◌
between-Spares = (λ h. cc, (inr refl, (λ h. cc, tt)))

get-set_example :
    ((get (pos 300) (pos 400) "n1" (calls (pos 300) between (set (pos 5) "n1" "new" store))).0
      ≡ (if fixed_point.lt (pos 300) (fixed_point.sub (pos 400) (pos 5)) then none else some "new"))
    × (lookup "n1"
          (get (pos 300) (pos 400) "n1" (calls (pos 300) between (set (pos 5) "n1" "new" store))).1
        ≡ (if fixed_point.lt (pos 300) (fixed_point.sub (pos 400) (pos 5))
            then none
            else some (pos 5, "new")))
    × ((get (pos 300) (pos 400) "n1" (calls (pos 300) between (invalidate (some "n1") store))).0
        ≡ none)
    × ((get (pos 300) (pos 400) "n1" (calls (pos 300) between (invalidate none store))).0 ≡ none)
get-set_example = get-set (pos 300) (pos 5) (pos 400) "n1" "new" store between between-Spares

abbrev breaker : Handler String
breaker = record {
  plan = λ target params. ok ("before", "preview");
  risk_for = λ target params. low;
  execute = λ row. done "after";
  rollback = λ row. none;
}

abbrev policy : Policy String
policy = record {
  policy_id = "p1";
  kind = "flisr";
  auto = true;
  enabled = true;
  tripped = false;
  consecutive_failures = 0;
  tenant_id = "default";
  bounds = "none";
}

abbrev kind : PolicyKind String
kind = record {
  evaluate = λ p.
      record {
        action_type = "switch";
        target = some "e2";
        params = "close";
        mode = live;
        reason = none;
      }
      ∷ [];
  within_bounds = λ preview bounds. none;
  max_per_tick = λ bounds. 1;
}

abbrev idle : State String
idle = record {
  controls = record { actions = []; audit = []; actuations = [] };
  policies = ("p1", policy) ∷ [];
  events = [];
  drawn = 0;
}

idle-IsGoverned : IsGoverned idle.controls
unfolding lookup
idle-IsGoverned = record { rows = λ id a h. absurd (none-ne-some a h); actuations = tt }

tick-IsGoverned_example :
    IsGoverned
      (tick
        (λ _. some breaker)
        "dry"
        3
        true
        (λ n. "id")
        (λ p. false)
        (λ k. some kind)
        idle).controls
tick-IsGoverned_example =
    tick-IsGoverned (λ _. some breaker) "dry" 3 true (λ n. "id") (λ p. false) (λ k. some kind) idle
      idle-IsGoverned
