-- ===== src/Tests/Approvals.antt =====
-- Decisions on one approval, and sequences of them.
use test_platform_backend.Prelude.{◌≡◌, ◌↔◌, ◌⊎◌, refl, false, none, some, [], ◌∷◌, arith}
use test_platform_backend.Agent.Approval.Scanner.{
  expire_due_summary, due_approvals, in_order, insert_due, approvals_of, scan_due, expire_one,
}
use test_platform_backend.Agent.Approval.Desk.{add_mutation, log_event, block_queue}
use test_platform_backend.Session.{ok, request, is_ok}
use test_platform_backend.Agent.Model.{ApprovalStatus, SideEffect, Capability}
use test_platform_backend.Agent.Events.{append_event}
use test_platform_backend.Agent.Policy.{ensure_approval_allows_execution}
use test_platform_backend.Agent.Approval.Desk.{Desk}
use test_platform_backend.Agent.Approval.Decide.{
  Locked, approve, reject, expire_approval, approve_rows, reject_rows, mark_expired_locked,
}
use test_platform_backend.Agent.Approval.Create.{
  Fresh, Replacement, ToolSpec, supersede_with_replacement, supersede_rows,
}
use test_platform_backend.Agent.Approval.Outcome.{
  Ends, Replaceable, core, approve-Ends, reject-Ends, supersede-cases,
}
use test_platform_backend.Agent.Approval.Links.{IsLinked}
use test_platform_backend.Agent.Approval.History.{
  here, next, rejecting, approving, Reach-IsLinked, Reach-decided, Reach-guard,
}
use test_platform_backend.Tests.Rows.{
  tester, tester_access, journal, call, lineage, approval, approved_call, approved_approval,
  approved_lineage, decision, desk, approved_desk,
}

desk-IsLinked : IsLinked desk
desk-IsLinked = ground arith

approved_desk-IsLinked : IsLinked approved_desk
approved_desk-IsLinked = ground arith

abbrev approved_then_rejected : Desk
approved_then_rejected = (request (reject tester tester_access decision 60) approved_desk).1

abbrev locked : Locked
locked = record { lineage = lineage; call = call; approval = approval; journal = journal }

abbrev after_approval : Desk
after_approval = (request (approve tester tester_access decision 50 42) desk).1

abbrev spec : ToolSpec
spec = record {
  side_effect = SideEffect.business_update;
  required_permissions = "api:manage" ∷ [];
  backend_name = some 1;
  backend_operation = some 1;
  backend_contract_version = some 1;
  effect_capability = some Capability.receipt_first;
}

abbrev replacement : Replacement
replacement = record {
  run_id = 5;
  step_index = 0;
  attempt_index = 0;
  max_attempt = 0;
  spec = some spec;
  input_hash = 12;
  scope_hash = 14;
  idempotency_key = none;
  derived_key = 18;
  policy_evidence_refs = [];
  decision_context_build_id = none;
}

abbrev fresh : Fresh
fresh = record { lineage_id = 22; approval_id = 32; call_id = 10 }

Reach-decided_example : core approved_then_rejected ≡ core approved_desk
Reach-decided_example =
    Reach-decided {d = approved_desk} approved_desk-IsLinked (λ pending. cc)
      (next here (rejecting tester tester_access decision 60))

Reach-IsLinked_example : IsLinked after_approval
Reach-IsLinked_example =
    Reach-IsLinked {d = desk} desk-IsLinked
      (next here (approving tester tester_access decision 50 42))

Reach-guard_example :
    (ensure_approval_allows_execution approved_call (some approved_approval) ≡ ok tt)
    ↔ (approved_approval.approval_status ≡ ApprovalStatus.approved)
Reach-guard_example =
    Reach-guard {d = approved_desk} approved_lineage approved_call approved_approval
      approved_desk-IsLinked here refl refl refl refl

approve-Ends_example :
    Ends tester tester_access decision 50 locked desk
      (approve_rows tester decision 50 42 locked desk)
      (request (approve tester tester_access decision 50 42) desk)
approve-Ends_example = approve-Ends tester tester_access decision 50 42 locked desk

reject-Ends_example :
    Ends tester tester_access decision 50 locked desk
      (reject_rows tester decision 50 locked desk)
      (request (reject tester tester_access decision 50) desk)
reject-Ends_example = reject-Ends tester tester_access decision 50 locked desk

supersede-cases_example :
    let (answer, db) =
      request (supersede_with_replacement tester tester_access replacement none fresh 50) desk in
    ((is_ok answer ≡ false) × (db ≡ desk))
    ⊎ ((found : ToolSpec) × (some spec ≡ some found)
        × (answer ≡ ok tt)
        × (db
            ≡ supersede_rows lineage call approval journal replacement found tester none fresh 50
                desk)
        × Replaceable tester tester_access replacement locked)
supersede-cases_example = supersede-cases tester tester_access replacement none fresh 50 locked desk

-- The batch expires the one approval that is due.
one_expired : (expire_due_summary 5 100 none (desk ∷ [])).0.expired ≡ 1
unfolding expire_due_summary due_approvals in_order insert_due approvals_of scan_due expire_one
    expire_approval mark_expired_locked add_mutation log_event block_queue append_event
one_expired = refl
