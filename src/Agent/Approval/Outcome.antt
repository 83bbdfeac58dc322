-- ===== src/Agent/Approval/Outcome.antt =====
-- What a decision on an approval leaves in the database, on success and on each refusal
-- (app/services/agent_approval_service.py).
use test_platform_backend.Prelude.{
  is_some, Bool-cases, Option-cases, String, ◌⊎◌, inl, inr, ℕ, ◌≡◌, refl, Bool, true, false, Option,
  some, List, arith,
}
use test_platform_backend.Session.{begin, ErrorCode, Result, ok, is_ok, request}
use test_platform_backend.Permission.{User, Access, require_project_access}
use test_platform_backend.Agent.Model.{
  AgentWorkerQueue, AgentApprovalMutationLog, AgentToolCall, AgentApproval, AgentApprovalLineage,
  ApprovalStatus, EventType,
}
use test_platform_backend.Agent.Policy.{require_permissions}
use test_platform_backend.Agent.Approval.Desk.{log_event, Desk, ApprovalDecision}
use test_platform_backend.Agent.Approval.Create.{
  Replacement, Fresh, ToolSpec, supersede_with_replacement, supersede_rows, supersede_blocked,
}
use test_platform_backend.Agent.Approval.Decide.{
  mark_expired_locked, Locked, lock_context, validate_decision, approve, approve_rows, reject,
  reject_rows, expire_approval, detached, other_epoch, is_due, is_approvable,
}

-- The rows of a desk that a decision locks, when all are there.
abbrev pub locked_rows : Locked → Desk → Desk
locked_rows k d = record d {
  journal = some k.journal;
  lineage = some k.lineage;
  call = some k.call;
  approval = some k.approval;
}

-- Everything but the run and its events: of the run, whether it is there.
abbrev pub core :
    Desk
    → Bool
      × Option AgentApprovalLineage
      × Option AgentToolCall
      × Option AgentApproval
      × List AgentWorkerQueue
      × List AgentApprovalMutationLog
      × List (AgentToolCall × AgentApproval)
core d = (is_some d.journal, d.lineage, d.call, d.approval, d.queue, d.mutations, d.past)

pub core-log_event :
    (kind : EventType) (call : Option ℕ) (code : Option ErrorCode) (d : Desk)
    → core (log_event kind call code d) ≡ core d
unfolding log_event
core-log_event kind call code d = ground arith

-- What must hold of the locked rows and of the request for the checks to pass.
pub record Valid (u : User) (access : Access) (p : ApprovalDecision) (now : ℕ) (k : Locked)
    : Type 0 where
  pub member : is_ok (require_project_access u access) ≡ true
  pub permitted : require_permissions u access k.approval.required_permissions ≡ ok tt
  pub pending : k.approval.approval_status ≡ ApprovalStatus.pending
  pub input : k.approval.input_hash ≡ p.input_hash
  pub snapshot : k.approval.runtime_snapshot_id ≡ p.runtime_snapshot_id
  pub scope : k.approval.resource_scope_hash ≡ p.resource_scope_hash
  pub lineage : k.approval.approval_lineage_id ≡ p.approval_lineage_id
  pub epoch : k.approval.approval_epoch ≡ p.approval_epoch
  pub not_due : is_due k.approval.expires_at now ≡ false
  pub approvable : is_approvable k.call.status ≡ true

-- `_lock_context` on rows that are there: it locks them, or raises with nothing written but an
-- event.
lock_context-cases :
    (kind : EventType) (p : ApprovalDecision) (k : Locked) (d : Desk)
    → let (r, s) = lock_context kind p (begin (locked_rows k d)) in
      ((r ≡ ok k)
        × (s ≡ begin (locked_rows k d))
        × (detached k.lineage k.call ≡ false)
        × (other_epoch p k.lineage k.call ≡ false))
      ⊎ ((is_ok r ≡ false) × (core s.saved ≡ core (locked_rows k d)))
unfolding lock_context
lock_context-cases kind p k d = elim (Bool-cases (detached k.lineage k.call)) [
  | inl bad ↦ inr (rw bad refl, rw bad refl)
  | inr good ↦ elim (Bool-cases (other_epoch p k.lineage k.call)) [
    | inl bad ↦ inr (rw (good, bad) refl, rw (good, bad) refl)
    | inr fine ↦ inl (rw (good, fine) refl, rw (good, fine) refl, good, fine)
  ]
]

-- The checks on rows that were locked: they pass and write nothing, or they raise and leave in the
-- database what they found, or, for an approval that is due, the rows marked as expired.
validate_decision-cases :
    (kind : EventType) (u : User) (access : Access) (p : ApprovalDecision) (now : ℕ) (k : Locked)
    (d : Desk)
    → let rows = locked_rows k d in
      let (r, s) = validate_decision kind u access p now k (begin rows) in
      ((r ≡ ok tt) × (s ≡ begin rows) × Valid u access p now k)
      ⊎ ((is_ok r ≡ false) × (core s.saved ≡ core rows))
      ⊎ ((is_ok r ≡ false)
          × (core s.saved ≡ core (mark_expired_locked k.approval k.lineage k.call now rows))
          × (k.approval.approval_status ≡ ApprovalStatus.pending)
          × (is_due k.approval.expires_at now ≡ true))
unfolding validate_decision
validate_decision-cases kind u access p now k d = ground arith

-- A decision that goes through: what `_lock_context` and the checks require.
pub record Decidable (u : User) (access : Access) (p : ApprovalDecision) (now : ℕ) (k : Locked)
    : Type 0 where
  pub attached : detached k.lineage k.call ≡ false
  pub current : other_epoch p k.lineage k.call ≡ false
  pub valid : Valid u access p now k

-- How a decision on rows that are there can end: it goes through and leaves the rows `after`, or
-- it is refused and leaves the rows it found, or it is refused since the approval is due, and
-- leaves it marked as expired.
abbrev pub Ends :
    User → Access → ApprovalDecision → ℕ → Locked → Desk → Desk → Result Unit × Desk → Type 0
Ends u access p now k before after (r, db) =
    ((r ≡ ok tt) × (db ≡ after) × Decidable u access p now k)
    ⊎ ((is_ok r ≡ false) × (core db ≡ core before))
    ⊎ ((is_ok r ≡ false)
        × (core db ≡ core (mark_expired_locked k.approval k.lineage k.call now before))
        × (k.approval.approval_status ≡ ApprovalStatus.pending)
        × (is_due k.approval.expires_at now ≡ true))

-- On rows that are there, whatever they and the request say, approving ends in one of three ways:
-- it goes through, the checks all hold, and the rows are those approved; it is refused, and of the
-- rows nothing changes but the events; or it is refused since the pending approval is due, and
-- leaves it marked as expired.
pub approve-Ends :
    (u : User) (access : Access) (p : ApprovalDecision) (now fresh : ℕ) (k : Locked) (d : Desk)
    → Ends u access p now k
        (locked_rows k d)
        (approve_rows u p now fresh k (locked_rows k d))
        (request (approve u access p now fresh) (locked_rows k d))
unfolding approve
approve-Ends u access p now fresh k d =
    let kind = EventType.approval_approve_conflict in
    ground (arith, lock_context-cases kind p k d, validate_decision-cases kind u access p now k d)

-- On rows that are there, whatever they and the request say, rejecting ends in one of three ways:
-- it goes through, the checks all hold, and the rows are those rejected; it is refused, and of the
-- rows nothing changes but the events; or it is refused since the pending approval is due, and
-- leaves it marked as expired.
pub reject-Ends :
    (u : User) (access : Access) (p : ApprovalDecision) (now : ℕ) (k : Locked) (d : Desk)
    → Ends u access p now k
        (locked_rows k d)
        (reject_rows u p now k (locked_rows k d))
        (request (reject u access p now) (locked_rows k d))
unfolding reject
reject-Ends u access p now k d =
    let kind = EventType.approval_reject_conflict in
    ground (arith, lock_context-cases kind p k d, validate_decision-cases kind u access p now k d)

-- On rows that are there, expiring changes nothing but events, or the approval is pending and due,
-- and it and its call are marked as expired.
pub expire_approval-cases :
    (now : ℕ) (k : Locked) (d : Desk)
    → let before = locked_rows k d in
      let db = (request (expire_approval now) before).1 in
      (core db ≡ core before)
      ⊎ ((core db ≡ core (mark_expired_locked k.approval k.lineage k.call now before))
          × (k.approval.approval_status ≡ ApprovalStatus.pending)
          × (is_due k.approval.expires_at now ≡ true))
unfolding expire_approval
expire_approval-cases now k d = ground arith

-- What superseding requires of the locked rows and of the request.
pub record Replaceable (u : User) (access : Access) (r : Replacement) (k : Locked) : Type 0 where
  pub pending : k.approval.approval_status ≡ ApprovalStatus.pending
  pub lineage : k.approval.approval_lineage_id ≡ k.lineage.approval_lineage_id
  pub epoch : k.approval.approval_epoch ≡ k.lineage.current_epoch
  pub of_call : k.approval.tool_call_id ≡ k.call.tool_call_id
  pub of_run : r.run_id ≡ k.journal.run.run_id
  pub member : is_ok (require_project_access u access) ≡ true
  pub free : supersede_blocked k.call.status ≡ false

-- On rows that are there, superseding writes nothing when it is refused. When it goes through, the
-- approval was pending, of the lineage, at its current epoch, and of the call; the replacement was
-- for the run, the user had access, the call's status did not forbid it, and the tool was found.
pub supersede-cases :
    (u : User) (access : Access) (r : Replacement) (reason : Option String) (f : Fresh) (now : ℕ)
    (k : Locked) (d : Desk)
    → let before = locked_rows k d in
      let (answer, db) = request (supersede_with_replacement u access r reason f now) before in
      ((is_ok answer ≡ false) × (db ≡ before))
      ⊎ ((spec : ToolSpec) × (r.spec ≡ some spec)
          × (answer ≡ ok tt)
          × (db ≡ supersede_rows k.lineage k.call k.approval k.journal r spec u reason f now before)
          × Replaceable u access r k)
unfolding supersede_with_replacement
supersede-cases u access r reason f now k d = elim (Option-cases r.spec) [
  | inl missing ↦ inl (ground arith)
  | inr (spec, found) ↦ elim (both spec found) [
    | inl refused ↦ inl refused
    | inr (answer, after, checks) ↦ inr (spec, found, answer, after, checks)
  ]
]
  where
    both :
        (spec : ToolSpec)
        → r.spec ≡ some spec
        → let before = locked_rows k d in
          let (answer, db) = request (supersede_with_replacement u access r reason f now) before in
          ((is_ok answer ≡ false) × (db ≡ before))
          ⊎ ((answer ≡ ok tt)
              × (db
                  ≡ supersede_rows k.lineage k.call k.approval k.journal r spec u reason f now
                      before)
              × Replaceable u access r k)
    both spec found = ground arith
