-- ===== src/Agent/Queue.antt =====
-- `AgentWorkerQueueService` of app/services/agent_runtime_service.py. A table is the list of its
-- rows, the oldest first.
pub mod Claim
pub mod Leases
use test_platform_backend.Prelude.{
  ℕ, zero, suc, ◌+◌, Bool, true, false, ◌&&◌, not, Option, none, some, List, [], ◌∷◌, ◌++◌, ◌==◌,
  ltb, leb, same_opt, is_some, if◌then◌else◌, find, select, take, update_where, length,
}
use test_platform_backend.Session.{
  ErrorCode, Result, ok, err, http, not_found, approval_required_before_execution,
  tool_call_uncertain_reconcile_required,
}
use test_platform_backend.Agent.Model.{
  AgentToolCall, AgentWorkerQueue, CallStatus, QueueStatus, EventType, Recovery,
}
use test_platform_backend.Agent.Events.{Journal, append_event}

-- The tables of queue items and of tool calls, and the runs with their events.
pub record Pool : Type 0 where
  pub items : List AgentWorkerQueue
  pub calls : List AgentToolCall
  pub journals : List Journal

abbrev pub is_queued : QueueStatus → Bool
is_queued QueueStatus.queued = true
is_queued _ = false

abbrev pub is_leased_item : QueueStatus → Bool
is_leased_item QueueStatus.leased = true
is_leased_item _ = false

abbrev pub is_leased_call : CallStatus → Bool
is_leased_call CallStatus.leased = true
is_leased_call _ = false

-- `status in {"uncertain", "reconciling"}`
abbrev pub needs_reconcile : CallStatus → Bool
needs_reconcile CallStatus.uncertain = true
needs_reconcile CallStatus.reconciling = true
needs_reconcile _ = false

-- `status == "queued" and available_at <= now`
abbrev pub is_claimable : ℕ → AgentWorkerQueue → Bool
is_claimable now i = is_queued i.status && leb i.available_at now

-- The earlier of two rows in the order by priority; ties go to the one created first.
abbrev pub earlier : AgentWorkerQueue → Option AgentWorkerQueue → Option AgentWorkerQueue
earlier i none = some i
earlier i (some j) = if ltb j.priority i.priority then some j else some i

-- `order_by(priority, created_at).limit(1)` over the claimable rows.
unfoldable pub next_item : ℕ → List AgentWorkerQueue → Option AgentWorkerQueue
next_item now [] = none
next_item now (i ∷ rest) =
    let later = next_item now rest in if is_claimable now i then earlier i later else later

unfoldable pub set_item : ℕ → (AgentWorkerQueue → AgentWorkerQueue) → Pool → Pool
set_item id f p = record p { items = update_where (λ i. i.queue_id == id) f p.items }

unfoldable pub set_call : ℕ → (AgentToolCall → AgentToolCall) → Pool → Pool
set_call id f p = record p { calls = update_where (λ c. c.tool_call_id == id) f p.calls }

-- An event of the run with this id, if there is one.
unfoldable pub log_to : ℕ → EventType → Option ℕ → Option ErrorCode → Pool → Pool
log_to run kind call code p = record p {
  journals =
      update_where (λ j. j.run.run_id == run) (λ j. append_event j kind call code) p.journals;
}

unfoldable pub find_call : ℕ → List AgentToolCall → Option AgentToolCall
find_call id = find (λ c. c.tool_call_id == id)

-- `enqueue_tool_call`
unfoldable pub enqueue_tool_call : AgentToolCall → ℕ → ℕ → ℕ → Pool → Pool
enqueue_tool_call c priority fresh now p = record p {
  items =
      p.items
      ++ record {
        queue_id = fresh;
        run_id = c.run_id;
        tool_call_id = c.tool_call_id;
        status = QueueStatus.queued;
        priority = priority;
        available_at = now;
        lease_owner = none;
        lease_expires_at = none;
        attempt_count = 0;
        last_error_code = none;
      }
        ∷ [];
}

abbrev pub lease_item : ℕ → ℕ → AgentWorkerQueue → AgentWorkerQueue
lease_item worker until i = record i {
  status = QueueStatus.leased;
  lease_owner = some worker;
  lease_expires_at = some until;
  attempt_count = i.attempt_count + 1;
}

abbrev pub lease_call : ℕ → ℕ → AgentToolCall → AgentToolCall
lease_call worker until c = record c {
  status = CallStatus.leased;
  lease_owner = some worker;
  lease_expires_at = some until;
}

abbrev pub lacks_approval : AgentToolCall → Bool
lacks_approval c = c.approval_required && not (is_some c.approved_approval_id)

unfoldable pub claim_blocked : AgentWorkerQueue → AgentToolCall → Pool → Pool
unfolding set_item set_call
claim_blocked i c p =
    set_call c.tool_call_id
      (λ c. record c {
        status = CallStatus.planned;
        recovery_decision = some Recovery.awaiting_approval;
      })
      (set_item i.queue_id
        (λ i. record i {
          status = QueueStatus.blocked_approval;
          last_error_code = some approval_required_before_execution;
        })
        p)

unfoldable pub claim_uncertain : AgentWorkerQueue → AgentToolCall → Pool → Pool
unfolding set_item set_call log_to
claim_uncertain i c p =
    log_to c.run_id EventType.tool_failed (some c.tool_call_id)
      (some tool_call_uncertain_reconcile_required)
      (set_call c.tool_call_id
        (λ c. record c {
          error_code = some tool_call_uncertain_reconcile_required;
          recovery_decision = some Recovery.reconcile_required_before_execution;
        })
        (set_item i.queue_id
          (λ i. record i {
            status = QueueStatus.failed;
            last_error_code = some tool_call_uncertain_reconcile_required;
          })
          p))

-- The item that the worker gets, if any, and the tables after the claim.
unfoldable pub claim_item :
    ℕ → ℕ → AgentWorkerQueue → Option AgentToolCall → Pool → Option AgentWorkerQueue × Pool
claim_item worker until i none p =
    (some (lease_item worker until i), set_item i.queue_id (lease_item worker until) p)
claim_item worker until i (some c) p =
    if lacks_approval c
    then (none, claim_blocked i c p)
    else if needs_reconcile c.status
    then (none, claim_uncertain i c p)
    else (
      some (lease_item worker until i),
      set_call c.tool_call_id (lease_call worker until)
          (set_item i.queue_id (lease_item worker until) p),
    )

abbrev pub claim_found : ℕ → ℕ → Option AgentWorkerQueue → Pool → Option AgentWorkerQueue × Pool
claim_found worker until none p = (none, p)
claim_found worker until (some i) p = claim_item worker until i (find_call i.tool_call_id p.calls) p

-- `claim_next`, at the time `now`.
unfoldable pub claim_next : ℕ → ℕ → ℕ → Pool → Option AgentWorkerQueue × Pool
claim_next worker lease_seconds now p =
    claim_found worker (now + lease_seconds) (next_item now p.items) p

-- The query of `heartbeat`.
unfoldable pub held_item : ℕ → ℕ → List AgentWorkerQueue → Option AgentWorkerQueue
held_item id worker = find (λ i. i.queue_id == id && same_opt i.lease_owner (some worker))

abbrev pub beat : ℕ → ℕ → Option AgentWorkerQueue → Pool → Result Pool
beat until now none p = err (http not_found none)
beat until now (some i) p = ok (
    set_call i.tool_call_id
      (λ c. record c { last_heartbeat_at = some now; lease_expires_at = some until })
      (set_item i.queue_id (λ i. record i { lease_expires_at = some until }) p))

-- `heartbeat`
unfoldable pub heartbeat : ℕ → ℕ → ℕ → ℕ → Pool → Result Pool
heartbeat id worker lease_seconds now p =
    beat (now + lease_seconds) now (held_item id worker p.items) p

-- `lease_expires_at is not None and lease_expires_at <= now`
abbrev pub lease_over : Option ℕ → ℕ → Bool
lease_over none now = false
lease_over (some t) now = leb t now

abbrev pub is_orphan : ℕ → AgentWorkerQueue → Bool
is_orphan now i = is_leased_item i.status && lease_over i.lease_expires_at now

abbrev pub expires_before : Option ℕ → Option ℕ → Bool
expires_before (some a) (some b) = ltb a b
expires_before _ _ = false

-- `order_by(lease_expires_at.asc())`, by insertion.
unfoldable pub insert_by_expiry : AgentWorkerQueue → List AgentWorkerQueue → List AgentWorkerQueue
insert_by_expiry i [] = i ∷ []
insert_by_expiry i (j ∷ js) =
    let rest = insert_by_expiry i js in
    if expires_before j.lease_expires_at i.lease_expires_at then j ∷ rest else i ∷ j ∷ js

unfoldable pub by_expiry : List AgentWorkerQueue → List AgentWorkerQueue
unfolding insert_by_expiry
by_expiry [] = []
by_expiry (i ∷ is) = insert_by_expiry i (by_expiry is)

abbrev pub release_item : AgentWorkerQueue → AgentWorkerQueue
release_item i = record i {
  status = QueueStatus.queued;
  lease_owner = none;
  lease_expires_at = none;
}

abbrev pub release_call : AgentToolCall → AgentToolCall
release_call c =
    if is_leased_call c.status
    then record c {
      status = CallStatus.planned;
      lease_owner = none;
      lease_expires_at = none;
      recovery_decision = some Recovery.lease_expired_requeued;
    }
    else c

unfoldable pub recover_all : List AgentWorkerQueue → Pool → Pool
recover_all [] p = p
recover_all (i ∷ is) p =
    recover_all is (set_call i.tool_call_id release_call (set_item i.queue_id release_item p))

-- `recover_orphans`: how many items were recovered, and the tables after it.
unfoldable pub recover_orphans : ℕ → ℕ → Pool → ℕ × Pool
recover_orphans now limit p =
    let orphans = take limit (by_expiry (select (is_orphan now) p.items)) in
    (length orphans, recover_all orphans p)

-- `mark_completed` and `mark_failed`
abbrev pub mark_completed : AgentWorkerQueue → AgentWorkerQueue
mark_completed i = record i { status = QueueStatus.completed }

abbrev pub mark_failed : ErrorCode → AgentWorkerQueue → AgentWorkerQueue
mark_failed code i = record i { status = QueueStatus.failed; last_error_code = some code }
