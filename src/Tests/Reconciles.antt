-- ===== src/Tests/Reconciles.antt =====
-- Reconciling one call: settled by the ledger, waiting, and lost.
use test_platform_backend.Prelude.{◌≡◌, ◌+◌, refl, false, none, some, [], ◌∷◌, arith}
use test_platform_backend.Session.{ok}
use test_platform_backend.Agent.Model.{AgentReconcileAttempt, CallStatus, ResultStatus}
use test_platform_backend.Agent.Execution.{Setting, guards}
use test_platform_backend.Permission.{
  require_project_permission, has_code, get_project_or_404, owned_or_permitted, owns,
}
use test_platform_backend.Agent.Policy.{
  ensure_approval_allows_execution, ensure_context_allows_execution, require_permissions,
  check_approved, stale_for, check_build, is_trusted_high_risk_evidence, is_agent_memory,
}
use test_platform_backend.Agent.Execution.Effects.{lost_bench}
use test_platform_backend.Agent.Reconcile.{
  Docket, Setup, Contract, get_for_call, ledger_output_reconcile, reconcile_tool_call, max_seq,
}
use test_platform_backend.Agent.Reconcile.Outcomes.{Outcome, reconcile_tool_call-Outcome}
use test_platform_backend.Agent.Reconcile.Run.{Ledger, reconcile_run}
use test_platform_backend.Agent.Reconcile.Run.Progress.{is_open_at, reconcile_run-closed}
use test_platform_backend.Prelude.{All, true}
use test_platform_backend.Session.{is_ok}
use test_platform_backend.Permission.{require_project_access, owned_or_member}
use test_platform_backend.Tests.Rows.{
  tester, tester_access, setting, journal, approved_call, fails_completed, bench,
}

abbrev contract : Contract
contract = record { backend_name = 1; backend_operation = 1 }

abbrev setup : Setup
setup = record {
  adapters = λ name operation. some ledger_output_reconcile;
  contract = some contract;
  autoflush = false;
  fresh = 61;
  backoff_seconds = 30;
  fingerprint = λ _. 77;
  mask = λ text. text;
  now = 100;
}

abbrev docket : Docket
docket = record {
  journal = journal;
  blocks = [];
  call = record approved_call { status = CallStatus.uncertain; output = some "done" };
  attempts = [];
}

known : get_for_call docket.call (some contract) ≡ ok contract
unfolding get_for_call
known = refl

abbrev failing_store : Setting
failing_store = record setting { fails = fails_completed }

allowed : guards failing_store approved_call ≡ ok tt
unfolding guards ensure_context_allows_execution check_build is_trusted_high_risk_evidence
    is_agent_memory has_code ensure_approval_allows_execution check_approved stale_for
    require_permissions require_project_permission get_project_or_404 owned_or_permitted owns
allowed = refl

abbrev lost_docket : Docket
lost_docket = record docket { call = (lost_bench bench).call }

abbrev attempt : AgentReconcileAttempt
attempt = record {
  tool_call_id = 9;
  attempt_seq = 1;
  result_status = ResultStatus.running;
  error_code = none;
  next_retry_at = some 130;
}

first_seq : 1 ≡ max_seq [] + 1
unfolding max_seq
first_seq = refl

reconcile_tool_call-Outcome_example : Outcome setup docket (reconcile_tool_call setup docket)
reconcile_tool_call-Outcome_example = reconcile_tool_call-Outcome setup docket refl

abbrev ledger : Ledger
ledger = record {
  journal = journal;
  blocks = [];
  lines =
      record { call = docket.call; attempts = [] }
      ∷ record { call = docket.call; attempts = attempt ∷ [] }
      ∷ [];
}

member : is_ok (require_project_access tester tester_access) ≡ true
unfolding require_project_access owned_or_member get_project_or_404 owns
member = refl

reconcile_run-closed_example :
    (l : Ledger) × (reconcile_run setup tester tester_access ledger ≡ ok l)
    × All (λ x. is_open_at 100 x ≡ false) l.lines
reconcile_run-closed_example =
    reconcile_run-closed setup tester tester_access ledger (omega arith) member refl
