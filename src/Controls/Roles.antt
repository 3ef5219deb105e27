-- ===== src/Controls/Roles.antt =====
-- `_role_allowed`: who may approve.
use diep_lab.Base.{
  String, ◌≡◌, ◌≢◌, refl, true, false, [], ◌∷◌, ◌⊎◌, inl, inr, contains, string_eq, arith,
}
use diep_lab.Controls.{approve_roles, any_in, role_allowed}

others_refused :
    (contains approve_roles "service" ≡ false)
    × (any_in ("operator" ∷ "viewer" ∷ []) approve_roles ≡ false)
    × (contains approve_roles "viewer" ≡ false)
unfolding string_eq
others_refused = (refl, refl, refl)

refused :
    (role : String) → role ≢ "admin" → role ≢ "engineer" → role_allowed role approve_roles ≢ true
unfolding role_allowed
refused role admin engineer h = ground (arith, others_refused)

-- Only an admin or an engineer passes the check of the approving endpoints.
pub role_allowed-approve :
    (role : String)
    → role_allowed role approve_roles ≡ true
    → (role ≡ "admin") ⊎ (role ≡ "engineer")
unfolding role_allowed
role_allowed-approve role h = elim (string_eq.dec role "admin") [
  | yes admin ↦ inl admin
  | no other ↦ elim (string_eq.dec role "engineer") [
    | yes engineer ↦ inr engineer
    | no third ↦ absurd (refused role other third h)
  ]
]
