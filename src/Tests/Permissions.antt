-- ===== src/Tests/Permissions.antt =====
-- The permission checks for one project's creator and one tester.
use test_platform_backend.Prelude.{◌≡◌, refl, false, none, List, [], ◌∷◌, String}
use test_platform_backend.Session.{ok, err, http, forbidden}
use test_platform_backend.Permission.{
  has_code, without, owns, get_project_or_404, owned_only, require_project_permission,
  require_can_grant_member_permissions, normal_tester_grantable_permissions, add_normal_tester,
  grant,
}
use test_platform_backend.Permission.Laws.{add_normal_tester_no_escalation}
use test_platform_backend.Tests.Rows.{owner, tester, project, tester_access}

abbrev granted : List String
granted = "api:view" ∷ []

membership :
    add_normal_tester owner tester_access tester_access granted 9
    ≡ ok (record { member_id = 4; permission_codes = granted })
unfolding add_normal_tester grant require_can_grant_member_permissions owned_only get_project_or_404
    owns without has_code normal_tester_grantable_permissions
membership = refl

not_owned : owns tester project ≡ false
unfolding owns
not_owned = refl

reserved : has_code "project:delete" normal_tester_grantable_permissions ≡ false
unfolding normal_tester_grantable_permissions without has_code
reserved = refl

add_normal_tester_no_escalation_example :
    require_project_permission tester
      (record tester_access { permission_codes = granted })
      "project:delete"
    ≡ err (http forbidden none)
add_normal_tester_no_escalation_example =
    add_normal_tester_no_escalation owner tester_access tester_access granted 9 _ tester project
      "project:delete" membership refl not_owned reserved
