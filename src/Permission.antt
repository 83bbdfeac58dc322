-- ===== src/Permission.antt =====
-- app/services/permission_service.py, with app/core/permissions.py. What the queries of the
-- project repository return for one project and one user is the record `Access`.
pub mod Laws
use test_platform_backend.Prelude.{
  ℕ, String, Bool, true, false, ◌||◌, not, Option, none, some, List, [], ◌∷◌, ◌==◌, if◌then◌else◌,
  is_some, select,
}
use test_platform_backend.Session.{Result, ok, err, http, bad_request, forbidden, not_found}
use text.Mathlib.Text.{◌==◌ as str_eq}

pub record User : Type 0 where
  pub id : ℕ
  pub is_admin : Bool

pub record Project : Type 0 where
  pub id : ℕ
  pub created_by_id : ℕ
  pub is_deleted : Bool

-- `get_by_id(project_id)`, the id of `get_member(project_id, user_id)`, and
-- `get_member_permission_codes(project_id, user_id)`.
pub record Access : Type 0 where
  pub project : Option Project
  pub member : Option ℕ
  pub permission_codes : List String

-- `code in codes`
unfoldable pub has_code : String → List String → Bool
has_code c [] = false
has_code c (x ∷ xs) = str_eq c x || has_code c xs

abbrev pub project_creator_permissions : List String
project_creator_permissions =
    "project:view" ∷ "project:update" ∷ "project:delete" ∷ "project:members:manage"
    ∷ "environment:view" ∷ "environment:manage" ∷ "api:view" ∷ "api:manage" ∷ "case:view"
    ∷ "case:manage" ∷ "flow:view" ∷ "flow:manage" ∷ "scenario:view" ∷ "scenario:manage"
    ∷ "test:execute" ∷ "report:view" ∷ "defect:view" ∷ "defect:create" ∷ "defect:update"
    ∷ "defect:delete" ∷ "defect:transition" ∷ "plan:view" ∷ "plan:create" ∷ "plan:update"
    ∷ "plan:delete" ∷ "plan:run" ∷ "plan:history:delete" ∷ []

-- The difference of two sets of codes.
unfoldable pub without : List String → List String → List String
unfolding has_code
without cs removed = select (λ c. not (has_code c removed)) cs

unfoldable pub normal_tester_grantable_permissions : List String
unfolding without
normal_tester_grantable_permissions =
    without project_creator_permissions
      ("project:update" ∷ "project:delete" ∷ "project:members:manage" ∷ [])

unfoldable pub get_project_or_404 : Access → Result Project
get_project_or_404 a = elim a.project [
  | none ↦ err (http not_found none)
  | some p ↦ if p.is_deleted then err (http not_found none) else ok p
]

-- `is_admin(user) or is_project_creator(user, project)`
unfoldable pub owns : User → Project → Bool
owns u p = u.is_admin || p.created_by_id == u.id

-- The checks that go on from a project that was found.
unfoldable pub owned_or_member : User → Access → Result Project → Result Project
unfolding owns
owned_or_member u a (err e) = err e
owned_or_member u a (ok p) =
    if owns u p || is_some a.member then ok p else err (http forbidden none)

unfoldable pub require_project_access : User → Access → Result Project
unfolding owned_or_member get_project_or_404
require_project_access u a = owned_or_member u a (get_project_or_404 a)

unfoldable pub owned_or_permitted : User → Access → String → Result Project → Result Project
unfolding owns
owned_or_permitted u a code (err e) = err e
owned_or_permitted u a code (ok p) =
    if owns u p
    then ok p
    else if has_code code a.permission_codes
    then ok p
    else err (http forbidden none)

unfoldable pub require_project_permission : User → Access → String → Result Project
unfolding owned_or_permitted get_project_or_404
require_project_permission u a code = owned_or_permitted u a code (get_project_or_404 a)

unfoldable pub owned_only : User → Result Project → Result Project
unfolding owns
owned_only u (err e) = err e
owned_only u (ok p) = if owns u p then ok p else err (http forbidden none)

-- `require_can_grant_member_permissions` and `require_project_creator_or_admin`, whose bodies
-- are the same up to the message.
unfoldable pub require_can_grant_member_permissions : User → Access → Result Project
unfolding owned_only get_project_or_404
require_can_grant_member_permissions u a = owned_only u (get_project_or_404 a)

unfoldable pub allowed : Result Project → (Project → Bool) → Result Bool
allowed (err e) test = err e
allowed (ok p) test = ok (test p)

unfoldable pub can_access_project : User → Access → Result Bool
unfolding allowed get_project_or_404 owns
can_access_project u a = allowed (get_project_or_404 a) (λ p. owns u p || is_some a.member)

unfoldable pub has_project_permission : User → Access → String → Result Bool
unfolding allowed get_project_or_404 owns
has_project_permission u a code =
    allowed (get_project_or_404 a) (λ p. owns u p || has_code code a.permission_codes)

-- A project's members after `add_normal_tester`: the member's id and the codes that
-- `replace_member_permissions` leaves.
pub record Membership : Type 0 where
  pub member_id : ℕ
  pub permission_codes : List String

-- `fresh` is the id that the database gives to a new member.
unfoldable pub grant : Access → List String → ℕ → Result Project → Result Membership
unfolding without normal_tester_grantable_permissions
grant target codes fresh (err e) = err e
grant target codes fresh (ok p) = elim (without codes normal_tester_grantable_permissions) [
  | [] ↦ ok (record {
    member_id = elim target.member [ none ↦ fresh | some m ↦ m ];
    permission_codes = codes;
  })
  | _ ∷ _ ↦ err (http bad_request none)
]

unfoldable pub add_normal_tester : User → Access → Access → List String → ℕ → Result Membership
unfolding grant require_can_grant_member_permissions
add_normal_tester operator own target codes fresh =
    grant target codes fresh (require_can_grant_member_permissions operator own)
