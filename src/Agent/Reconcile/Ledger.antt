-- ===== src/Agent/Reconcile/Ledger.antt =====
-- Reconciliation by the output that the ledger kept, the adapter of every backend operation
-- (app/services/agent_reconcile_service.py), after an execution by the `ToolExecutor`
-- (app/services/agent_runtime_service.py).
use test_platform_backend.Prelude.{String, ◌≡◌, refl, true, false, some, ap, ◌∙◌}
use test_platform_backend.Session.{ok}
use test_platform_backend.Agent.Model.{AgentToolCall, CallStatus, EffectState}
use test_platform_backend.Agent.Reconcile.{
  asked, put_call, reconciling_call, found_output, Docket, Setup, Contract, ReconcileResult,
  is_legacy_risk, get_for_call, ledger_output_reconcile, route, settle, record_attempt,
  reconcile_with, reconcile_tool_call, is_eligible,
}

reconcile-known :
    (s : Setup) (d : Docket) (k : Contract)
    → is_eligible d.call.status ≡ true
    → is_legacy_risk d.call ≡ false
    → get_for_call d.call s.contract ≡ ok k
    → reconcile_tool_call s d ≡ reconcile_with s (ok k) d
unfolding reconcile_tool_call
reconcile-known s d k eligible safe known = rw (eligible, safe, known) refl

route-registered :
    (s : Setup) (c : AgentToolCall) (k : Contract)
    → s.adapters k.backend_name k.backend_operation ≡ some ledger_output_reconcile
    → route s.adapters c k ≡ ledger_output_reconcile c k
unfolding route
route-registered s c k registered = ap (λ o. asked o c k) registered

-- The answer of the ledger's adapter for a contract that is known settles an eligible call.
reconcile-answer :
    (s : Setup) (d : Docket) (k : Contract) (r : ReconcileResult)
    → is_eligible d.call.status ≡ true
    → is_legacy_risk d.call ≡ false
    → get_for_call d.call s.contract ≡ ok k
    → s.adapters k.backend_name k.backend_operation ≡ some ledger_output_reconcile
    → ledger_output_reconcile (reconciling_call d.call) k ≡ r
    → reconcile_tool_call s d ≡ settle s r r.status (record_attempt r (put_call reconciling_call d))
unfolding reconcile_with
reconcile-answer s d k r eligible safe known registered answer =
    reconcile-known s d k eligible safe known
    ∙ ap (λ r. settle s r r.status (record_attempt r (put_call reconciling_call d)))
        (route-registered s (reconciling_call d.call) k registered ∙ answer)

ledger-some :
    (c : AgentToolCall) (k : Contract) (output : String)
    → c.output ≡ some output
    → ledger_output_reconcile c k ≡ found_output c output
unfolding ledger_output_reconcile
ledger-some c k output h = rw h refl

-- A call whose output the ledger kept is settled by it: it has succeeded, with the hash of that
-- output, and its effect is committed. Its contract is known, its operation has the ledger's
-- adapter, and it is no high-risk call of a backend without receipts.
pub ledger_output-settles :
    (s : Setup) (d : Docket) (k : Contract) (output : String)
    → is_eligible d.call.status ≡ true
    → is_legacy_risk d.call ≡ false
    → get_for_call d.call s.contract ≡ ok k
    → s.adapters k.backend_name k.backend_operation ≡ some ledger_output_reconcile
    → d.call.output ≡ some output
    → let c = (reconcile_tool_call s d).call in
      (c.status ≡ CallStatus.succeeded)
      × (c.effect_submission_state ≡ EffectState.effect_committed)
      × (c.output ≡ s.mask (some output))
      × (c.output_hash ≡ some (s.fingerprint (some output)))
unfolding settle record_attempt
ledger_output-settles s d k output eligible safe known registered kept =
    let e =
      reconcile-answer s d k (found_output (reconciling_call d.call) output) eligible safe known
        registered (ledger-some (reconciling_call d.call) k output kept) in
    rw e (refl, refl, refl, refl)
