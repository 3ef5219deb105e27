-- ===== src/Tests/Controls.antt =====
-- A run of the control plane.
use diep_lab.Base.{◌≡◌, refl, String, true, none, some, List, [], ◌∷◌, string_eq, All}
use diep_lab.Base.Result.{ok}
use diep_lab.Controls.{high, live, done, Handler, Principal, approve_roles, role_allowed}
use diep_lab.Controls.Serve.{ActionRequest, Request, create, approve, execute, serve_all}
use diep_lab.Controls.Governed.{IsAuthorised}
use diep_lab.Controls.Authority.{serve_all-IsAuthorised}

-- JSON values are texts here.
abbrev switch : Handler String
switch = record {
  plan = λ target params. ok ("before", "preview");
  risk_for = λ target params. high;
  execute = λ row. done "after";
  rollback = λ row. some "before";
}

abbrev operator : Principal
operator = record { name = "olga"; role = "operator"; tenant = none }

abbrev engineer : Principal
engineer = record { name = "emil"; role = "engineer"; tenant = none }

abbrev body : ActionRequest String
body = record {
  action_type = "switch";
  target = some "e2";
  params = "close";
  mode = live;
  reason = none;
}

abbrev requests : List (Request String)
requests =
    create operator "id1" body
    ∷ execute true operator "id1"
    ∷ approve engineer "id1"
    ∷ execute true operator "id1"
    ∷ []

serve_all-IsAuthorised_example :
    All IsAuthorised
      (serve_all
        (λ _. some switch)
        "dry"
        requests
        (record { actions = []; audit = []; actuations = [] })).actuations
serve_all-IsAuthorised_example = serve_all-IsAuthorised (λ _. some switch) "dry" requests

engineer_may : role_allowed "engineer" approve_roles ≡ true
unfolding role_allowed string_eq
engineer_may = refl

abbrev engineer_role : String
engineer_role = "engineer"
