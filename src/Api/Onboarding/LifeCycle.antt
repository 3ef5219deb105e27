-- ===== src/Api/Onboarding/LifeCycle.antt =====
-- Every request keeps to the life cycle.
use diep_lab.Base.{
  is_some, ℕ, String, true, false, Option, none, some, List, [], ◌∷◌, ◌≡◌, ◌⊎◌, inl, inr, refl, sym,
  ◌∙◌, ap, subst, string_eq, ◌==◌, ◌&&◌, Bool-cases, if◌then◌else◌, arith,
}
use diep_lab.Base.Dict.{lookup, lookup-insert}
use diep_lab.Controls.{Principal, role_allowed}
use diep_lab.Api.Onboarding.{
  guarded, put_row, enroll_row, validate_row, certify_row, approve_stage, engineers, admins, serve,
  is_stage_of, Outcome,
}
use diep_lab.Api.Onboarding.Records.{
  Stage, registered, validated, certified, production_ready, Enrolled, Enrollment, Facts, Tables,
  Request, enroll, validate, certify, approve,
}
use diep_lab.Api.Onboarding.Checks.{is_truthy, validation_of, certification_tests, all_passed}
use diep_lab.Api.Onboarding.Diagram.{
  life_of, life_in, Life, IsDeclared, IsEnlistment, IsAdmission, IsCertification, IsApproval, Move,
  stay, enlist, admit, qualify, release,
}

only_validated : (s : Stage) → is_stage_of (validated ∷ []) s ≡ true → s ≡ validated
only_validated validated h = refl
only_validated registered h = cc
only_validated certified h = cc
only_validated production_ready h = cc

only_certified : (s : Stage) → is_stage_of (certified ∷ []) s ≡ true → s ≡ certified
only_certified certified h = refl
only_certified registered h = cc
only_certified validated h = cc
only_certified production_ready h = cc

is_truthy-IsDeclared : (protocol : Option String) → is_truthy protocol ≡ true → IsDeclared protocol
unfolding is_truthy
is_truthy-IsDeclared none h = cc
is_truthy-IsDeclared (some protocol) h = ground arith

module _ (id : String) where
  life-put_row :
      (d : String) (row : Enrolled) (t : Tables)
      → life_in id (put_row d row t)
        ≡ (if id == d then some (row.stage, row.protocol) else life_in id t)
  unfolding put_row
  life-put_row d row t = ground (arith, lookup-insert id d row t.onboarding)

  life-put_row_self :
      (d : String) (row : Enrolled) (t : Tables)
      → id ≡ d
      → life_in id (put_row d row t) ≡ some (row.stage, row.protocol)
  life-put_row_self d row t same = life-put_row d row t ∙ ground arith

  -- A write to the row of one device moves only that device.
  Move-put_row :
      (r : Request) (d : String) (row : Enrolled) (t : Tables)
      → (d ≡ id → Move id r (life_in id t) (some (row.stage, row.protocol)))
      → Move id r (life_in id t) (life_in id (put_row d row t))
  Move-put_row r d row t k = elim (string_eq.dec id d) [
    | yes same ↦
        subst (Move id r (life_in id t)) (sym (life-put_row_self d row t same)) (k (sym same))
    | no other ↦ stay (ground (arith, life-put_row d row t))
  ]

  life_at :
      (d : String) (t : Tables) (o : Option Enrolled)
      → lookup d t.onboarding ≡ o
      → d ≡ id
      → life_in id t ≡ life_of o
  life_at d t o at here = ap life_of (ap (λ d. lookup d t.onboarding) (sym here) ∙ at)

  enroll_row-Move :
      (r : Request) (f : Facts) (e : Enrollment) (t : Tables)
      → (is_some f.device ≡ true → e.device_id ≡ id → IsEnlistment id e.protocol r)
      → Move id r (life_in id t) (life_in id (enroll_row f e (lookup e.device_id t.onboarding) t).1)
  unfolding enroll_row
  enroll_row-Move r f e t k =
      by_row (lookup e.device_id t.onboarding) refl (Bool-cases (is_some f.device))
    where
      by_row :
          (o : Option Enrolled)
          → lookup e.device_id t.onboarding ≡ o
          → (is_some f.device ≡ true) ⊎ (is_some f.device ≡ false)
          → Move id r (life_in id t) (life_in id (enroll_row f e o t).1)
      by_row (some row) at (inl known) = rw known (stay refl)
      by_row (some row) at (inr unknown) = rw unknown (stay refl)
      by_row none at (inr unknown) = rw unknown (stay refl)
      by_row none at (inl known) = rw known (
          Move-put_row r e.device_id _ t
            (λ here. enlist (k known here) (life_at e.device_id t none at here) refl))

  -- A stage of the first two is left for `validated`, by a request that earns it.
  to_validated :
      (r : Request) (from : Option Life) (s : Stage) (p : Option String)
      → from ≡ some (s, p)
      → is_stage_of (registered ∷ validated ∷ []) s ≡ true
      → IsAdmission id p r
      → Move id r from (some (validated, p))
  to_validated r from registered p at h earned = admit earned at refl
  to_validated r from validated p at h earned = stay (sym at)
  to_validated r from certified p at h earned = cc
  to_validated r from production_ready p at h earned = cc

  validate_row-Move :
      (r : Request) (now : ℕ) (f : Facts) (d : String) (t : Tables)
      → ((protocol : Option String)
          → is_some f.device ≡ true
          → is_some f.latest_age ≡ true
          → IsDeclared protocol
          → d ≡ id
          → IsAdmission id protocol r)
      → Move id r (life_in id t) (life_in id (validate_row now f d (lookup d t.onboarding) t).1)
  unfolding validate_row validation_of
  validate_row-Move r now f d t k = by_row (lookup d t.onboarding) refl
    where
      by_row :
          (o : Option Enrolled)
          → lookup d t.onboarding ≡ o
          → Move id r (life_in id t) (life_in id (validate_row now f d o t).1)
      by_row none at = stay refl
      by_row (some row) at =
          elim (Bool-cases (is_stage_of (registered ∷ validated ∷ []) row.stage)) [
            | inr late ↦ rw late (stay refl)
            | inl early ↦ rw early (elim (Bool-cases (validation_of f row).passed) [
              | inr failed ↦
                  rw failed
                    (Move-put_row r d _ t (λ here. stay (sym (life_at d t (some row) at here))))
              | inl passed ↦ rw passed (
                  Move-put_row r d _ t (λ here.
                    to_validated r (life_in id t) row.stage row.protocol
                      (life_at d t (some row) at here) early
                      (k row.protocol (ground arith) (ground arith)
                        (is_truthy-IsDeclared row.protocol (ground arith)) here)))
            ])
          ]

  certify_row-Move :
      (r : Request) (now : ℕ) (f : Facts) (d : String) (t : Tables)
      → (all_passed (certification_tests f) ≡ true → d ≡ id → IsCertification id r)
      → Move id r (life_in id t) (life_in id (certify_row now f d (lookup d t.onboarding) t).1)
  unfolding certify_row
  certify_row-Move r now f d t k = by_row (lookup d t.onboarding) refl
    where
      by_row :
          (o : Option Enrolled)
          → lookup d t.onboarding ≡ o
          → Move id r (life_in id t) (life_in id (certify_row now f d o t).1)
      by_row none at = stay refl
      by_row (some row) at =
          elim (Bool-cases
            (is_stage_of (validated ∷ certified ∷ production_ready ∷ []) row.stage)) [
              | inr early ↦ rw early (stay refl)
              | inl late ↦
                  rw late
                    (elim (Bool-cases (
                      all_passed (certification_tests f)
                      && is_stage_of (validated ∷ []) row.stage)) [
                        | inr kept ↦ rw kept (stay refl)
                        | inl moved ↦ rw moved (
                            Move-put_row r d _ _ (λ here.
                              qualify (k (ground arith) here)
                                (life_at d t (some row) at here
                                  ∙ ap (λ s. some (s, row.protocol))
                                      (only_validated row.stage (ground arith)))
                                refl))
                      ])
            ]

  approve_stage-Move :
      (r : Request) (now : ℕ) (d note : String) (t : Tables)
      → (d ≡ id → IsApproval id r)
      → Move id r (life_in id t) (life_in id (approve_stage now d note (lookup d t.onboarding) t).1)
  unfolding approve_stage
  approve_stage-Move r now d note t k = by_row (lookup d t.onboarding) refl
    where
      by_row :
          (o : Option Enrolled)
          → lookup d t.onboarding ≡ o
          → Move id r (life_in id t) (life_in id (approve_stage now d note o t).1)
      by_row none at = stay refl
      by_row (some row) at = elim (Bool-cases (is_stage_of (certified ∷ []) row.stage)) [
        | inr other ↦ rw other (stay refl)
        | inl ready ↦ rw ready (
            Move-put_row r d _ t (λ here.
              release (k here)
                (life_at d t (some row) at here
                  ∙ ap (λ s. some (s, row.protocol)) (only_certified row.stage ready))
                refl))
      ]

  -- The handler behind the role check; the audit row moves no device.
  guarded-Move :
      (r : Request) (allowed : List String) (action : String) (p : Principal) (d : String)
      (t : Tables) (next : Tables → Outcome)
      → (role_allowed p.role allowed ≡ true
          → (t' : Tables) → t'.onboarding ≡ t.onboarding
          → Move id r (life_in id t') (life_in id (next t').1))
      → Move id r (life_in id t) (life_in id (guarded allowed action p d t next).1)
  unfolding guarded
  guarded-Move r allowed action p d t next k = elim (Bool-cases (role_allowed p.role allowed)) [
    | inl may ↦ rw may (k may _ refl)
    | inr refused ↦ rw refused (stay refl)
  ]

  -- Every request moves a device along the diagram of the life cycle, or leaves its stage: an engineer
  -- or admin enlists it when its row in the registry is found, with the protocol of the request, and
  -- validates it when the row is found, telemetry was seen and the protocol is declared; an admin
  -- certifies it when all tests pass, and releases it. No request changes the protocol of its row.
  pub serve-Move : (r : Request) (t : Tables) → Move id r (life_in id t) (life_in id (serve r t).1)
  unfolding serve
  serve-Move (enroll p f e) t =
      guarded-Move _ engineers _ p e.device_id t _
        (λ may t' same. enroll_row-Move _ f e t' (λ known here. (here, may, known, refl)))
  serve-Move (validate p now f d) t = guarded-Move _ engineers _ p d t _ (λ may t' same.
      validate_row-Move _ now f d t'
        (λ p known seen declared here. (here, may, known, seen, declared)))
  serve-Move (certify p now f d) t =
      guarded-Move _ admins _ p d t _
        (λ may t' same. certify_row-Move _ now f d t' (λ passed here. (here, may, passed)))
  serve-Move (approve p now d by notes) t =
      guarded-Move _ admins _ p d t _
        (λ may t' same. approve_stage-Move _ now d _ t' (λ here. (here, may)))
