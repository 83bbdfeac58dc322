-- ===== src/Agent/Execution/Guards.antt =====
-- The guards of `execute_tool_call`, and the traces that an effect leaves
-- (app/services/agent_runtime_service.py).
use test_platform_backend.Prelude.{
  sym, ℕ, String, ◌≡◌, ◌≢◌, refl, Bool, true, Option, some, arith, inl, inr, All,
}
use mathlib.Core.Path.{subst}
use test_platform_backend.Session.{
  ErrorCode, HttpException, HttpStatus, ok, err, is_ok, request, Result-cases,
}
use test_platform_backend.Permission.{require_project_permission}
use test_platform_backend.Agent.Model.{AgentToolCall, AgentApproval, CallStatus, EffectState}
use test_platform_backend.Agent.Policy.{
  ensure_approval_allows_execution, ensure_context_allows_execution, require_permissions,
}
use test_platform_backend.Agent.Policy.Laws.{
  Covers, ensure_approval_allows_execution_iff, require_permissions_iff,
}
use test_platform_backend.Agent.Execution.{
  Bench, Setting, guards, refuse, on_guard_error, guarded, execute_tool_call,
}

-- A call with the traces that an execution would leave.
abbrev pub effects : AgentToolCall → EffectState × Bool × Option ℕ × Option String × Option ℕ
effects c = (
  c.effect_submission_state, c.effect_boundary_crossed, c.send_intent_at, c.output, c.output_hash,
)

refuse-effects :
    (s : Setting) (status : CallStatus) (code : ErrorCode) (message : Option String) (b : Bench)
    → effects (request (refuse s status code message) b).1.call ≡ effects b.call
unfolding refuse
refuse-effects s status code message b = ground arith

on_guard_error-effects :
    (s : Setting) (status : HttpStatus) (code : Option ErrorCode) (b : Bench)
    → effects (request (on_guard_error s status code) b).1.call ≡ effects b.call
unfolding on_guard_error
on_guard_error-effects s HttpStatus.forbidden code b = refuse-effects s _ _ _ b
on_guard_error-effects s HttpStatus.conflict code b = refuse-effects s _ _ _ b
on_guard_error-effects s _ code b = refl

-- When a guard raises, nothing of an effect is recorded: no submission state, no boundary, no time
-- of sending, no output.
pub guards-effects :
    (s : Setting) (b : Bench) (e : HttpException)
    → guards s b.call ≡ err e
    → effects (request (execute_tool_call s) b).1.call ≡ effects b.call
unfolding execute_tool_call
guards-effects s b e h =
    subst (λ g. effects (request (guarded s g) b).1.call ≡ effects b.call) (sym h)
      (on_guard_error-effects s e.status_code e.code b)

guards_ok :
    (s : Setting) (c : AgentToolCall)
    → guards s c ≡ ok tt
    → (ensure_context_allows_execution c s.build ≡ ok tt)
      × (ensure_approval_allows_execution c s.approval ≡ ok tt)
      × (require_permissions s.user s.access c.required_permissions ≡ ok tt)
unfolding guards
guards_ok s c h = (ground arith, ground arith, ground arith)

-- If an execution left any trace of an effect on a call that needs approval, then the approval
-- found was approved and covers that call, and every permission that the call requires was granted
-- at that moment.
pub effects_need_approval :
    (s : Setting) (b : Bench)
    → effects (request (execute_tool_call s) b).1.call ≢ effects b.call
    → b.call.approval_required ≡ true
    → (a : AgentApproval) × (s.approval ≡ some a)
      × Covers b.call a
      × All
          (λ p. is_ok (require_project_permission s.user s.access p) ≡ true)
          b.call.required_permissions
effects_need_approval s b changed needed = elim (Result-cases (guards s b.call)) [
  | inr (e, failed) ↦ absurd (changed (guards-effects s b e failed))
  | inl passed ↦
      let (_, approval, permissions) = guards_ok s b.call passed in
      elim ((ensure_approval_allows_execution_iff b.call s.approval).0 approval) [
        | inl free ↦ absurd (ground arith)
        | inr (_, a, found, covers) ↦
            (a, found, covers, (require_permissions_iff s.user s.access _).0 permissions)
      ]
]
