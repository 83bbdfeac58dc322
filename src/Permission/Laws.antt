-- ===== src/Permission/Laws.antt =====
-- What the checks of app/services/permission_service.py let through.
use text.Mathlib.Text.{◌==◌ as str_eq}
use text.Mathlib.TextEquality.{eq_iff}
use test_platform_backend.Prelude.{
  ℕ, String, ◌≡◌, ◌⊎◌, ◌↔◌, inl, inr, true, false, none, some, List, [], ◌∷◌, arith, is_some,
  Bool-cases,
}
use test_platform_backend.Session.{HttpException, ok, err, is_ok, http, forbidden}
use test_platform_backend.Permission.{
  User, Project, Access, Membership, owns, has_code, without, require_project_access,
  require_project_permission, has_project_permission, require_can_grant_member_permissions,
  add_normal_tester, normal_tester_grantable_permissions,
}

-- The check for a permission passes exactly for a project that exists and is not deleted, and a
-- user who is an administrator, its creator, or holds the permission in it.
pub require_project_permission_iff :
    (u : User) (a : Access) (code : String) (p : Project)
    → (require_project_permission u a code ≡ ok p) ↔ (
        (a.project ≡ some p)
        × (p.is_deleted ≡ false)
        × ((owns u p ≡ true) ⊎ (has_code code a.permission_codes ≡ true)))
unfolding require_project_permission
require_project_permission_iff u a code p = (λ h. ground arith, λ h. ground arith)

-- Access passes exactly for a project that exists and is not deleted, and a user who is an
-- administrator, its creator or an active member.
pub require_project_access_iff :
    (u : User) (a : Access) (p : Project)
    → (require_project_access u a ≡ ok p) ↔ (
        (a.project ≡ some p)
        × (p.is_deleted ≡ false)
        × ((owns u p ≡ true) ⊎ (is_some a.member ≡ true)))
unfolding require_project_access
require_project_access_iff u a p = (λ h. ground arith, λ h. ground arith)

-- The asking form and the raising form of the permission check agree on each of the outcomes:
-- granted, refused with 403, and a missing or deleted project.
pub has_project_permission-agrees :
    (u : User) (a : Access) (code : String)
    → (has_project_permission u a code ≡ ok true
        → is_ok (require_project_permission u a code) ≡ true)
      × (has_project_permission u a code ≡ ok false
          → require_project_permission u a code ≡ err (http forbidden none))
      × ((e : HttpException)
          → has_project_permission u a code ≡ err e
          → require_project_permission u a code ≡ err e)
unfolding has_project_permission require_project_permission
has_project_permission-agrees u a code = (λ h. ground arith, λ h. ground arith, λ e h. ground arith)

has_code_of_without-empty :
    (removed cs : List String) (c : String)
    → without cs removed ≡ []
    → has_code c cs ≡ true
    → has_code c removed ≡ true
unfolding has_code without
has_code_of_without-empty removed [] c h m = cc
has_code_of_without-empty removed (x ∷ xs) c h m = elim (Bool-cases (has_code x removed)) [
  | inr out ↦ absurd (ground arith)
  | inl kept ↦ elim (Bool-cases (str_eq c x)) [
    | inl same ↦ rw ((eq_iff c x).0 same) kept
    | inr other ↦ has_code_of_without-empty removed xs c (ground arith) (ground arith)
  ]
]

-- A grant goes through only for an operator who is an administrator or the project's creator,
-- keeps the member that there is, and stores exactly the codes asked for.
pub add_normal_tester_lem :
    (operator : User) (own target : Access) (codes : List String) (fresh : ℕ) (m : Membership)
    → add_normal_tester operator own target codes fresh ≡ ok m
    → (is_ok (require_can_grant_member_permissions operator own) ≡ true)
      × (m.permission_codes ≡ codes)
      × (without codes normal_tester_grantable_permissions ≡ [])
      × ((k : ℕ) → target.member ≡ some k → m.member_id ≡ k)
unfolding add_normal_tester
add_normal_tester_lem operator own target codes fresh m h =
    (ground arith, ground arith, ground arith, λ k e. ground arith)

-- No escalation: with the codes that a grant stored, a user who does not own the project is
-- refused each permission outside the grantable ones, in particular the three that are kept for
-- the creator.
pub add_normal_tester_no_escalation :
    (operator : User) (own target : Access) (codes : List String) (fresh : ℕ) (m : Membership)
    (tester : User) (p : Project) (code : String)
    → add_normal_tester operator own target codes fresh ≡ ok m
    → own.project ≡ some p
    → owns tester p ≡ false
    → has_code code normal_tester_grantable_permissions ≡ false
    → require_project_permission tester (record own { permission_codes = m.permission_codes }) code
      ≡ err (http forbidden none)
unfolding require_project_permission
add_normal_tester_no_escalation operator own target codes fresh m tester p code granted found other
      reserved =
    let (owned, same, inside, kept) =
      add_normal_tester_lem operator own target codes fresh m granted in
    elim (Bool-cases (has_code code codes)) [
      | inl held ↦
          absurd (
            ground
              (arith, has_code_of_without-empty normal_tester_grantable_permissions codes code))
      | inr free ↦ unfold require_can_grant_member_permissions in ground arith
    ]
