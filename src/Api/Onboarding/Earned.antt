-- ===== src/Api/Onboarding/Earned.antt =====
-- A run of the onboarding: what a device has behind it at each stage.
use diep_lab.Base.{String, Option, none, some, List, [], ◌∷◌, ◌≡◌, ◌⊎◌, inl, inr, subst, sym}
use diep_lab.Base.Dict.{lookup}
use diep_lab.Api.Onboarding.{after}
use diep_lab.Api.Onboarding.Records.{
  Stage, registered, validated, certified, production_ready, Request,
}
use diep_lab.Api.Onboarding.Diagram.{
  Life, life_in, IsEnlistment, IsAdmission, IsCertification, IsApproval, Move, stay, enlist, admit,
  qualify, release,
}
use diep_lab.Api.Onboarding.LifeCycle.{serve-Move}

-- Requests that satisfy the predicates occur in the list, in their order.
abbrev pub InOrder : List (Request → Type 0) → List Request → Type 0
InOrder [] past = Unit
InOrder (P ∷ Ps) [] = ⊥
InOrder (P ∷ Ps) (r ∷ past) = (P r × InOrder Ps past) ⊎ InOrder (P ∷ Ps) past

-- What a stage takes, the last request first.
abbrev pub path_to : String → Option String → Stage → List (Request → Type 0)
path_to id p registered = IsEnlistment id p ∷ []
path_to id p validated = IsAdmission id p ∷ IsEnlistment id p ∷ []
path_to id p certified = IsCertification id ∷ IsAdmission id p ∷ IsEnlistment id p ∷ []
path_to id p production_ready =
    IsApproval id ∷ IsCertification id ∷ IsAdmission id p ∷ IsEnlistment id p ∷ []

abbrev IsEarned : String → List Request → Option Life → Type 0
IsEarned id past none = Unit
IsEarned id past (some (s, p)) = InOrder (path_to id p s) past

module _ (id : String) (r : Request) (past : List Request) where
  IsEarned-later : (s : Option Life) → IsEarned id past s → IsEarned id (r ∷ past) s
  IsEarned-later none h = tt
  IsEarned-later (some (registered, p)) h = inr h
  IsEarned-later (some (validated, p)) h = inr h
  IsEarned-later (some (certified, p)) h = inr h
  IsEarned-later (some (production_ready, p)) h = inr h

  Move-IsEarned :
      (from to : Option Life)
      → Move id r from to
      → IsEarned id past from
      → IsEarned id (r ∷ past) to
  Move-IsEarned from to (stay e) h = subst (IsEarned id (r ∷ past)) (sym e) (IsEarned-later from h)
  Move-IsEarned from to (enlist earned at e) h =
      subst (IsEarned id (r ∷ past)) (sym e) (inl (earned, tt))
  Move-IsEarned from to (admit earned at e) h =
      subst (IsEarned id (r ∷ past)) (sym e) (inl (earned, subst (IsEarned id past) at h))
  Move-IsEarned from to (qualify earned at e) h =
      subst (IsEarned id (r ∷ past)) (sym e) (inl (earned, subst (IsEarned id past) at h))
  Move-IsEarned from to (release earned at e) h =
      subst (IsEarned id (r ∷ past)) (sym e) (inl (earned, subst (IsEarned id past) at h))

after-IsEarned : (id : String) (past : List Request) → IsEarned id past (life_in id (after past))
unfolding after lookup
after-IsEarned id [] = tt
after-IsEarned id (r ∷ past) =
    Move-IsEarned id r past _ _ (serve-Move id r (after past)) (after-IsEarned id past)

-- After any run of requests on empty tables, a device has its stage by requests that earned it, in
-- order: one that is ready for production was approved by an admin, after a certification by an admin
-- in which all tests passed, after a validation by an engineer or admin that found it in the registry,
-- saw telemetry and found a protocol declared, after its enrollment by an engineer or admin, with the
-- protocol that its row still has.
pub stage-IsEarned :
    (id : String) (past : List Request) (s : Stage) (p : Option String)
    → life_in id (after past) ≡ some (s, p)
    → InOrder (path_to id p s) past
stage-IsEarned id past s p h = subst (IsEarned id past) h (after-IsEarned id past)
