-- ===== src/Tests/Executions.antt =====
-- Executions of one call: carried out, lost by the event store, failed by the backend, refused.
use test_platform_backend.Prelude.{ap, ◌≡◌, ◌≢◌, refl, inr, true, none, some, [], ◌∷◌, All}
use test_platform_backend.Session.{
  ok, err, request, http, is_ok, conflict, approval_required_before_execution,
}
use test_platform_backend.Permission.{
  require_project_permission, has_code, get_project_or_404, owned_or_permitted, owns,
}
use test_platform_backend.Agent.Model.{AgentApproval}
use test_platform_backend.Agent.Policy.{
  ensure_approval_allows_execution, ensure_context_allows_execution, require_permissions,
  check_approved, stale_for, check_build, is_trusted_high_risk_evidence, is_agent_memory,
}
use test_platform_backend.Agent.Policy.Laws.{Covers}
use test_platform_backend.Agent.Execution.{
  Bench, Setting, commits, execute_tool_call, guards, run_effect, announce, accept, confirm,
  write_event, touch_all,
}
use test_platform_backend.Agent.Execution.Guards.{effects, effects_need_approval}
use test_platform_backend.Agent.Execution.Effects.{
  announced_bench, lost_bench, execute_tool_call-event_store_failure,
}
use test_platform_backend.Tests.Rows.{
  setting, bench, build, call, approved_call, approved_approval, tester, tester_access,
  fails_completed,
}

allowed : guards setting approved_call ≡ ok tt
unfolding guards ensure_context_allows_execution check_build is_trusted_high_risk_evidence
    is_agent_memory has_code ensure_approval_allows_execution check_approved stale_for
    require_permissions require_project_permission get_project_or_404 owned_or_permitted owns
allowed = refl

context_allowed : ensure_context_allows_execution approved_call (some build) ≡ ok tt
unfolding ensure_context_allows_execution check_build is_trusted_high_risk_evidence is_agent_memory
    has_code
context_allowed = refl

abbrev after : Bench
after = (request (execute_tool_call setting) bench).1

done : after.call.output_hash ≡ some 77
unfolding execute_tool_call guards ensure_context_allows_execution check_build
    is_trusted_high_risk_evidence is_agent_memory has_code ensure_approval_allows_execution
    check_approved stale_for require_permissions require_project_permission get_project_or_404
    owned_or_permitted owns run_effect announce accept confirm write_event touch_all
done = refl

carried_out : effects after.call ≢ effects approved_call
carried_out same =
    let kept : after.call.output_hash ≡ none = ap (λ e. e.4) same in let stored = done in cc

effects_need_approval_example :
    (a : AgentApproval) × (some approved_approval ≡ some a)
    × Covers approved_call a
    × All
        (λ p. is_ok (require_project_permission tester tester_access p) ≡ true)
        ("api:manage" ∷ [])
effects_need_approval_example = effects_need_approval setting bench carried_out refl

abbrev unapproved_bench : Bench
unapproved_bench = record bench { call = call }

unapproved : guards setting call ≡ err (http conflict (some approval_required_before_execution))
unfolding guards ensure_context_allows_execution check_build is_trusted_high_risk_evidence
    is_agent_memory has_code ensure_approval_allows_execution
unapproved = refl

abbrev failing_store : Setting
failing_store = record setting { touches = commits ∷ []; fails = fails_completed }

allowed_failing : guards failing_store approved_call ≡ ok tt
unfolding guards
allowed_failing = allowed

execute_tool_call-event_store_failure_example :
    request (execute_tool_call failing_store) bench
    ≡ (ok tt, lost_bench (announced_bench failing_store bench))
execute_tool_call-event_store_failure_example =
    execute_tool_call-event_store_failure failing_store bench allowed_failing refl
      (refl, refl, refl) "done" refl refl (inr refl)
