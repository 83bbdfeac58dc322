-- ===== src/Agent/Approval/Desk.antt =====
-- The rows that one decision works on, and the private methods of `ApprovalMutationGuard` that
-- write to them (app/services/agent_approval_service.py).
use test_platform_backend.Prelude.{
  ℕ, String, Bool, true, false, ◌&&◌, Option, none, some, List, ◌∷◌, ◌==◌, if◌then◌else◌, find,
  update_where,
}
use test_platform_backend.Session.{
  ErrorCode, approval_expired, approval_rejected, approval_required_before_execution,
}
use test_platform_backend.Agent.Model.{
  AgentToolCall, AgentApproval, AgentApprovalLineage, AgentApprovalMutationLog, AgentWorkerQueue,
  ApprovalStatus, QueueStatus, CallStatus, EventType, Mutation,
}
use test_platform_backend.Agent.Events.{Journal, append_event}

-- `lineage`, `call` and `approval` are what the queries of a decision return, `journal` the
-- call's run with its events. `queue` is the table of queue items, the newest first, and
-- `mutations` the mutation log, the newest first. `past` holds the superseded calls with their
-- approvals.
pub record Desk : Type 0 where
  pub journal : Option Journal
  pub lineage : Option AgentApprovalLineage
  pub call : Option AgentToolCall
  pub approval : Option AgentApproval
  pub queue : List AgentWorkerQueue
  pub mutations : List AgentApprovalMutationLog
  pub past : List (AgentToolCall × AgentApproval)

-- AgentApprovalDecisionRequest
pub record ApprovalDecision : Type 0 where
  pub approval_lineage_id : ℕ
  pub approval_epoch : ℕ
  pub input_hash : ℕ
  pub runtime_snapshot_id : ℕ
  pub resource_scope_hash : ℕ
  pub reason : Option String

-- An event of the run, if the run is there.
unfoldable pub log_event : EventType → Option ℕ → Option ErrorCode → Desk → Desk
log_event kind call code d = elim d.journal [
  | none ↦ d
  | some j ↦ record d { journal = some (append_event j kind call code) }
]

-- `_add_mutation`
unfoldable pub add_mutation :
    AgentApproval
    → ℕ
    → Mutation
    → Option ApprovalStatus
    → ApprovalStatus
    → Option ℕ
    → Option String
    → Desk
    → Desk
add_mutation a lineage_id kind from to actor reason d = record d {
  mutations =
      record {
        approval_lineage_id = lineage_id;
        approval_id = a.approval_id;
        tool_call_id = a.tool_call_id;
        run_id = a.run_id;
        mutation_type = kind;
        from_status = from;
        to_status = to;
        actor_user_id = actor;
        reason = reason;
      }
      ∷ d.mutations;
}

-- `status in ["queued", "leased", "blocked_approval"]`
abbrev pub is_blockable : QueueStatus → Bool
is_blockable QueueStatus.queued = true
is_blockable QueueStatus.leased = true
is_blockable QueueStatus.blocked_approval = true
is_blockable _ = false

abbrev pub block_item : ErrorCode → AgentWorkerQueue → AgentWorkerQueue
block_item code i = record i {
  status = QueueStatus.blocked_approval;
  last_error_code = some code;
  lease_owner = none;
  lease_expires_at = none;
}

-- `_block_queue`
unfoldable pub block_queue : ℕ → ErrorCode → List AgentWorkerQueue → List AgentWorkerQueue
block_queue call code =
    update_where (λ i. i.tool_call_id == call && is_blockable i.status) (block_item code)

-- `last_error_code in {"approval_required_before_execution", "approval_rejected",
-- "approval_expired", None}`
abbrev pub releasable_error : Option ErrorCode → Bool
releasable_error none = true
releasable_error (some approval_required_before_execution) = true
releasable_error (some approval_rejected) = true
releasable_error (some approval_expired) = true
releasable_error (some _) = false

-- `status in {"blocked_approval", "failed"}`
abbrev pub is_stopped : QueueStatus → Bool
is_stopped QueueStatus.blocked_approval = true
is_stopped QueueStatus.failed = true
is_stopped _ = false

abbrev pub queued_item : AgentToolCall → ℕ → ℕ → AgentWorkerQueue
queued_item c fresh now = record {
  queue_id = fresh;
  run_id = c.run_id;
  tool_call_id = c.tool_call_id;
  status = QueueStatus.queued;
  priority = 100;
  available_at = now;
  lease_owner = none;
  lease_expires_at = none;
  attempt_count = 0;
  last_error_code = none;
}

abbrev pub requeue_item : AgentWorkerQueue → AgentWorkerQueue
requeue_item i = record i {
  status = QueueStatus.queued;
  last_error_code = none;
  lease_owner = none;
  lease_expires_at = none;
}

abbrev releasable : AgentWorkerQueue → Bool
releasable i = is_stopped i.status && releasable_error i.last_error_code

-- `_release_or_enqueue`: `latest` is the newest queue item of the call. The writes to the call
-- and to the queue; `fresh` is the id of a new item.
unfoldable pub released_call : Option AgentWorkerQueue → AgentToolCall → AgentToolCall
released_call none c = c
released_call (some i) c = if releasable i then record c { status = CallStatus.planned } else c

unfoldable pub released_queue :
    Option AgentWorkerQueue → AgentToolCall → ℕ → ℕ → List AgentWorkerQueue → List AgentWorkerQueue
released_queue none c fresh now queue = queued_item c fresh now ∷ queue
released_queue (some i) c fresh now queue =
    if releasable i then update_where (λ x. x.queue_id == i.queue_id) requeue_item queue else queue

abbrev pub latest_item : AgentToolCall → List AgentWorkerQueue → Option AgentWorkerQueue
latest_item c = find (λ i. i.tool_call_id == c.tool_call_id)
