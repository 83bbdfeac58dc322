-- ===== src/Agent/Approval/Decide.antt =====
-- `approve`, `reject` and `expire_approval` of `ApprovalMutationGuard`
-- (app/services/agent_approval_service.py). `now` is the clock, `fresh` a new queue id. The lock
-- wait times, which are only logged, are left out.
use test_platform_backend.Prelude.{
  ℕ, Bool, true, false, ◌||◌, not, Option, none, some, ◌==◌, same_opt, leb, if◌then◌else◌,
  or_default,
}
use test_platform_backend.Session.{
  ErrorCode, HttpException, Result, ok, err, http, not_found, conflict, Exec, commit, modify, pure,
  raise, catch, branch, case_some, lift, some_or, gets, ◌>>=◌, ◌>>◌, approval_stale_or_superseded,
  approval_epoch_conflict, approval_input_changed, approval_expired, approval_rejected,
  tool_call_not_approvable,
}
use test_platform_backend.Permission.{User, Access, require_project_access}
use test_platform_backend.Agent.Model.{
  AgentToolCall, AgentApproval, AgentApprovalLineage, ApprovalStatus, CallStatus, EventType,
  Mutation,
}
use test_platform_backend.Agent.Events.{Journal}
use test_platform_backend.Agent.Policy.{require_permissions}
use test_platform_backend.Agent.Approval.Desk.{
  Desk, ApprovalDecision, log_event, add_mutation, block_queue, released_call, released_queue,
  latest_item,
}

-- What `_lock_context` returns.
pub record Locked : Type 0 where
  pub lineage : AgentApprovalLineage
  pub call : AgentToolCall
  pub approval : AgentApproval
  pub journal : Journal

abbrev stale : HttpException
stale = http conflict (some approval_stale_or_superseded)

-- `_record_decision_conflict`: without a run it writes nothing, and does not commit.
unfoldable pub record_decision_conflict : EventType → AgentToolCall → ErrorCode → Exec Desk Unit
unfolding log_event
record_decision_conflict kind c code = do
  journal ← gets (λ d. d.journal)
  case_some journal (pure tt)
      (λ _. do modify (log_event kind (some c.tool_call_id) (some code)); commit)

-- A conflict that `_lock_context` finds is recorded, and raised.
unfoldable pub conflict_found : EventType → AgentToolCall → ErrorCode → Exec Desk Locked
unfolding record_decision_conflict
conflict_found kind c code = do
  record_decision_conflict kind c code
  raise (http conflict (some code))

-- The comparisons of the call with the lineage, and of the epochs.
abbrev pub detached : AgentApprovalLineage → AgentToolCall → Bool
detached l c =
    not (same_opt c.approval_lineage_id (some l.approval_lineage_id))
    || not (l.tool_call_id == c.tool_call_id)

abbrev pub other_epoch : ApprovalDecision → AgentApprovalLineage → AgentToolCall → Bool
other_epoch p l c =
    not (p.approval_epoch == l.current_epoch) || not (p.approval_epoch == c.approval_epoch)

unfoldable pub lock_context : EventType → ApprovalDecision → Exec Desk Locked
unfolding conflict_found
lock_context kind p = do
  lineage ← gets (λ d. d.lineage)
  l ← some_or lineage (http not_found none)
  call ← gets (λ d. d.call)
  c ← some_or call (http not_found none)
  branch (detached l c) (conflict_found kind c approval_stale_or_superseded) (
      branch (other_epoch p l c) (conflict_found kind c approval_epoch_conflict) (do
        approval ← gets (λ d. d.approval)
        a ← some_or approval (http not_found none)
        journal ← gets (λ d. d.journal)
        j ← some_or journal (http not_found none)
        pure (record { lineage = l; call = c; approval = a; journal = j })))

abbrev pub is_pending : ApprovalStatus → Bool
is_pending ApprovalStatus.pending = true
is_pending _ = false

-- `_validate_pending_immutable`
unfoldable pub validate_pending_immutable : AgentApproval → ApprovalDecision → Result Unit
validate_pending_immutable a p =
    if not (is_pending a.approval_status)
    then err stale
    else if not (a.input_hash == p.input_hash)
    then err (http conflict (some approval_input_changed))
    else if not (a.runtime_snapshot_id == p.runtime_snapshot_id)
        || not (a.resource_scope_hash == p.resource_scope_hash)
        || not (a.approval_lineage_id == p.approval_lineage_id)
        || not (a.approval_epoch == p.approval_epoch)
    then err stale
    else ok tt

-- `expires_at is not None and expires_at <= now`
abbrev pub is_due : Option ℕ → ℕ → Bool
is_due none now = false
is_due (some t) now = leb t now

-- The rows that `_mark_expired_locked` writes.
abbrev pub expired_approval : AgentApproval → ℕ → AgentApproval
expired_approval a now = record a {
  approval_status = ApprovalStatus.expired;
  decided_at = some now;
}

abbrev pub expired_lineage : AgentApprovalLineage → ℕ → AgentApprovalLineage
expired_lineage l now = record l { status = ApprovalStatus.expired; updated_at = now }

abbrev pub expired_call : AgentToolCall → AgentToolCall
expired_call c = record c {
  status = CallStatus.manual_intervention;
  error_code = some approval_expired;
}

unfoldable pub mark_expired_locked :
    AgentApproval → AgentApprovalLineage → AgentToolCall → ℕ → Desk → Desk
unfolding add_mutation log_event block_queue
mark_expired_locked a l c now d =
    if not (is_pending a.approval_status)
    then d
    else let d₁ = record d {
      approval = some (expired_approval a now);
      lineage = some (expired_lineage l now);
      call = some (expired_call c);
      queue = block_queue c.tool_call_id approval_expired d.queue;
    } in
      let d₂ =
        add_mutation a l.approval_lineage_id Mutation.expire (some a.approval_status)
          ApprovalStatus.expired none (some "approval_expired") d₁ in
      log_event EventType.approval_expired (some c.tool_call_id) none d₂

-- `_expire_if_needed`
unfoldable pub expire_if_needed :
    AgentApproval → AgentApprovalLineage → AgentToolCall → ℕ → Exec Desk Unit
unfolding mark_expired_locked
expire_if_needed a l c now =
    branch (is_due a.expires_at now) (do modify (mark_expired_locked a l c now); raise stale)
      (pure tt)

-- APPROVABLE_TOOL_CALL_STATUSES
abbrev pub is_approvable : CallStatus → Bool
is_approvable CallStatus.planned = true
is_approvable CallStatus.pending_approval = true
is_approvable _ = false

unfoldable pub validate_call_approvable : AgentToolCall → Result Unit
validate_call_approvable c =
    if is_approvable c.status then ok tt else err (http conflict (some tool_call_not_approvable))

-- The checks that `approve` and `reject` make on the locked rows, with their `except` clause.
unfoldable pub validate_decision :
    EventType → User → Access → ApprovalDecision → ℕ → Locked → Exec Desk Unit
unfolding validate_pending_immutable expire_if_needed validate_call_approvable
    record_decision_conflict
validate_decision kind u access p now k = do
  lift (require_project_access u access)
  lift (require_permissions u access k.approval.required_permissions)
  catch
      (do
        lift (validate_pending_immutable k.approval p)
        expire_if_needed k.approval k.lineage k.call now
        lift (validate_call_approvable k.call))
      (λ e. do
        record_decision_conflict kind k.call (or_default e.code approval_stale_or_superseded)
        raise e)

-- The rows that `approve` writes.
unfoldable pub approved_call : User → ℕ → AgentApproval → AgentToolCall → AgentToolCall
approved_call u now a c = record c {
  approved_approval_id = some a.approval_id;
  approved_by = some u.id;
  approved_at = some now;
  approval_epoch = a.approval_epoch;
  error_code = none;
  error_message = none;
}

abbrev pub decided : ApprovalStatus → User → ApprovalDecision → ℕ → AgentApproval → AgentApproval
decided status u p now a = record a {
  approval_status = status;
  decided_by = some u.id;
  decided_at = some now;
  decision_reason = p.reason;
}

unfoldable pub approve_rows : User → ApprovalDecision → ℕ → ℕ → Locked → Desk → Desk
unfolding approved_call add_mutation log_event released_call released_queue
approve_rows u p now fresh k d =
    let c = approved_call u now k.approval k.call in
    let latest = latest_item c d.queue in
    let d₁ = record d {
      approval = some (decided ApprovalStatus.approved u p now k.approval);
      lineage = some (record (k.lineage) { status = ApprovalStatus.approved; updated_at = now });
      call = some (released_call latest c);
      queue = released_queue latest c fresh now d.queue;
    } in
    let d₂ =
      add_mutation k.approval k.lineage.approval_lineage_id Mutation.approve
        (some k.approval.approval_status) ApprovalStatus.approved (some u.id) p.reason d₁ in
    log_event EventType.approval_approved (some c.tool_call_id) none d₂

unfoldable pub approve : User → Access → ApprovalDecision → ℕ → ℕ → Exec Desk Unit
approve u access p now fresh = do
  k ← lock_context EventType.approval_approve_conflict p
  validate_decision EventType.approval_approve_conflict u access p now k
  modify (approve_rows u p now fresh k)
  commit

-- The rows that `reject` writes.
abbrev pub rejected_call : ApprovalDecision → AgentToolCall → AgentToolCall
rejected_call p c = record c {
  status = CallStatus.manual_intervention;
  error_code = some approval_rejected;
  error_message = some (or_default p.reason "Approval rejected");
}

unfoldable pub reject_rows : User → ApprovalDecision → ℕ → Locked → Desk → Desk
unfolding add_mutation log_event block_queue
reject_rows u p now k d =
    let d₁ = record d {
      approval = some (decided ApprovalStatus.rejected u p now k.approval);
      lineage = some (record (k.lineage) { status = ApprovalStatus.rejected; updated_at = now });
      call = some (rejected_call p k.call);
      queue = block_queue k.call.tool_call_id approval_rejected d.queue;
    } in
    let d₂ =
      add_mutation k.approval k.lineage.approval_lineage_id Mutation.reject
        (some k.approval.approval_status) ApprovalStatus.rejected (some u.id) p.reason d₁ in
    log_event EventType.approval_rejected (some k.call.tool_call_id) none d₂

unfoldable pub reject : User → Access → ApprovalDecision → ℕ → Exec Desk Unit
reject u access p now = do
  k ← lock_context EventType.approval_reject_conflict p
  validate_decision EventType.approval_reject_conflict u access p now k
  modify (reject_rows u p now k)
  commit

-- `expire_approval`, where `d.approval` is the approval asked for: the rows after it.
unfoldable pub expire_approval : ℕ → Exec Desk Unit
expire_approval now = do
  d ← gets (λ d. d)
  case_some d.approval (pure tt) (λ a. branch (not (is_pending a.approval_status)) (pure tt) (
      branch (not (is_due a.expires_at now)) (pure tt) (
        case_some d.lineage (pure tt) (λ l. case_some d.call (pure tt) (λ c.
          case_some d.journal (pure tt)
            (λ _. do modify (mark_expired_locked a l c now); commit))))))
