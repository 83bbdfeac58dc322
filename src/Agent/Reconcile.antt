-- ===== src/Agent/Reconcile.antt =====
-- `ReconcileWorker.reconcile_tool_call` with the registry, the adapters and the router
-- (app/services/agent_reconcile_service.py): what became of a call whose effect is uncertain.
mod Adapters
pub mod Attempts
pub mod Outcomes
pub mod Ledger
pub mod Run
use test_platform_backend.Prelude.{
  ℕ, String, ◌+◌, Bool, true, false, ◌&&◌, ◌||◌, not, Option, none, some, List, [], ◌∷◌, max, ltb,
  leb, ◌==◌, if◌then◌else◌, or_default, is_some,
}
use test_platform_backend.Session.{
  ErrorCode, Result, ok, err, http, unprocessable, backend_contract_unsupported,
  backend_reconcile_not_supported, idempotency_conflict, backend_reconcile_failed,
  reconcile_not_found, reconcile_not_found_after_commit, unsupported_schema_version,
  backend_reconcile_adapter_missing,
}
use test_platform_backend.Agent.Model.{
  AgentRun, AgentToolCall, AgentReconcileAttempt, CallStatus, Capability, EffectState, EventType,
  Recovery, ResultStatus, is_safe,
}
use test_platform_backend.Agent.Events.{Journal, append_event}
use test_platform_backend.Agent.Migration.{Site, BlockRow, create_tool_call_block}
unfoldable pub use Adapters.*

-- The rows that the worker works on: the run with its events and blocks, the call, and the call's
-- attempts, the newest first.
pub record Docket : Type 0 where
  pub journal : Journal
  pub blocks : List BlockRow
  pub call : AgentToolCall
  pub attempts : List AgentReconcileAttempt

-- What a reconciliation is given: the adapters of the router, the contract that the registry's
-- query finds, and its environment.
pub record Setup : Type 0 where
  pub adapters : ℕ → ℕ → Option Adapter
  pub contract : Option Contract
  pub autoflush : Bool
  pub fresh : ℕ
  pub backoff_seconds : ℕ
  pub fingerprint : Option String → ℕ
  pub mask : Option String → Option String
  pub now : ℕ

-- `select(func.max(attempt_seq))`, 0 if there is none.
unfoldable pub max_seq : List AgentReconcileAttempt → ℕ
max_seq [] = 0
max_seq (a ∷ rest) = max a.attempt_seq (max_seq rest)

abbrev pub new_attempt : AgentToolCall → ReconcileResult → ℕ → AgentReconcileAttempt
new_attempt c r last = record {
  tool_call_id = c.tool_call_id;
  attempt_seq = last + 1;
  result_status = r.status;
  error_code = r.error_code;
  next_retry_at = none;
}

-- `_record_attempt`
unfoldable pub record_attempt : ReconcileResult → Docket → Docket
unfolding max_seq
record_attempt r d = record d { attempts = new_attempt d.call r (max_seq d.attempts) ∷ d.attempts }

-- `attempt.next_retry_at = ...`, for the attempt recorded last.
abbrev pub retry_first : ℕ → List AgentReconcileAttempt → List AgentReconcileAttempt
retry_first t [] = []
retry_first t (a ∷ rest) = record a { next_retry_at = some t } ∷ rest

abbrev pub retry_at : ℕ → Docket → Docket
retry_at t d = record d { attempts = retry_first t d.attempts }

abbrev pub put_call : (AgentToolCall → AgentToolCall) → Docket → Docket
put_call f d = record d { call = f d.call }

abbrev pub log : EventType → Docket → Docket
log kind d = record d { journal = append_event d.journal kind (some d.call.tool_call_id) none }

abbrev pub log_failed : Docket → Docket
log_failed d = record d {
  journal =
      append_event d.journal EventType.tool_failed (some d.call.tool_call_id) d.call.error_code;
}

abbrev pub log_blocked : Docket → Docket
log_blocked d = record d {
  journal = append_event d.journal EventType.run_migration_blocked none none;
}

-- A call left to people.
abbrev pub manual : Recovery → ErrorCode → AgentToolCall → AgentToolCall
manual why code c = record c {
  status = CallStatus.manual_intervention;
  recovery_decision = some why;
  error_code = some code;
}

abbrev pub add_message : Option String → AgentToolCall → AgentToolCall
add_message m c = record c { error_message = m }

-- `RECONCILE_BACKOFF_EFFECT_STATES` with `RECONCILE_BACKOFF_CAPABILITIES`
abbrev pub backs_off : Option Capability → Bool
backs_off (some Capability.receipt_first) = true
backs_off (some Capability.idempotency_index_only) = true
backs_off _ = false

abbrev pub backed_off : Setup → Docket → Docket
backed_off s d = log EventType.tool_uncertain (
    retry_at (s.now + s.backoff_seconds) (
      put_call
        (λ c. record c {
          status = CallStatus.uncertain;
          recovery_decision = some Recovery.reconcile_backoff;
        })
        d))

abbrev pub unfound_manual : Recovery → ErrorCode → Docket → Docket
unfound_manual why code d = log_failed (put_call (manual why code) d)

-- `_handle_not_found`, by the submission state.
unfoldable pub handle_not_found : Setup → EffectState → Docket → Docket
handle_not_found s EffectState.send_intent_recorded d =
    log EventType.tool_retryable_same_idempotency_key (
      retry_at s.now (
        put_call
          (λ c. record c {
            status = CallStatus.failed_retryable;
            recovery_decision = some Recovery.safe_retry_same_idempotency_key;
          })
          d))
handle_not_found s EffectState.transport_sent_observed d =
    if backs_off d.call.backend_effect_capability
    then backed_off s d
    else unfound_manual Recovery.not_found_manual_review reconcile_not_found d
handle_not_found s EffectState.backend_accepted d =
    unfound_manual Recovery.backend_accepted_not_found_incident reconcile_not_found_after_commit d
handle_not_found s EffectState.effect_committed d =
    unfound_manual Recovery.effect_committed_not_found_incident reconcile_not_found_after_commit d
handle_not_found s _ d = unfound_manual Recovery.not_found_manual_review reconcile_not_found d

abbrev site_of : Docket → Site
site_of d = record { journal = d.journal; blocks = d.blocks; call = some d.call }

abbrev block_call : Setup → Docket → Docket
block_call s d =
    let site = create_tool_call_block s.autoflush s.fresh d.call (site_of d) in
    record d { journal = site.journal; blocks = site.blocks }

-- `_mark_needs_migration`; whether it records an attempt is the caller's.
unfoldable pub mark_needs_migration : Setup → ReconcileResult → (Docket → Docket) → Docket → Docket
mark_needs_migration s r attempt d =
    let d₁ =
      put_call
        (λ c. record c {
          status = CallStatus.needs_migration;
          recovery_decision = some Recovery.backend_contract_migration_required;
          error_code = some (or_default r.error_code unsupported_schema_version);
          error_message = r.error_message;
        })
        d in
    log_blocked (log EventType.tool_needs_migration (block_call s (attempt d₁)))

-- The writes after a result of success.
abbrev pub reconciled_call : Setup → ReconcileResult → AgentToolCall → AgentToolCall
reconciled_call s r c = record c {
  status = CallStatus.succeeded;
  effect_submission_state = EffectState.effect_committed;
  output = s.mask r.summary;
  output_hash = some (s.fingerprint r.summary);
  acceptance_id = elim r.acceptance_id [ none ↦ c.acceptance_id | some a ↦ some a ];
  error_code = none;
  error_message = none;
  recovery_decision = some Recovery.mark_succeeded_from_reconcile;
}

-- The cases on the result's status, after the attempt was recorded.
unfoldable pub settle : Setup → ReconcileResult → ResultStatus → Docket → Docket
unfolding handle_not_found mark_needs_migration
settle s r ResultStatus.succeeded d =
    log EventType.tool_reconciled (put_call (reconciled_call s r) d)
settle s r ResultStatus.running d = log EventType.tool_uncertain (
    retry_at (s.now + s.backoff_seconds) (
      put_call
        (λ c. record c {
          status = CallStatus.reconciling;
          recovery_decision = some Recovery.still_running;
        })
        d))
settle s r ResultStatus.not_found d = handle_not_found s d.call.effect_submission_state d
settle s r ResultStatus.conflict d = log_failed (
    put_call
      (λ c. add_message r.error_message (
        manual Recovery.idempotency_conflict_decision (or_default r.error_code idempotency_conflict)
          c))
      d)
settle s r ResultStatus.failed d = log_failed (
    put_call
      (λ c. record c {
        status = CallStatus.failed;
        recovery_decision = some Recovery.mark_failed_from_reconcile;
        error_code = some (or_default r.error_code backend_reconcile_failed);
        error_message = r.error_message;
      })
      d)
settle s r ResultStatus.unsupported_schema_version d = mark_needs_migration s r (λ d. d) d

-- `RECONCILE_ELIGIBLE_STATUSES`
abbrev pub is_eligible : CallStatus → Bool
is_eligible CallStatus.uncertain = true
is_eligible CallStatus.reconciling = true
is_eligible _ = false

-- `capability == "legacy_no_receipt" and side_effect not in SAFE_SIDE_EFFECT_CLASSES`
abbrev pub has_no_receipt : Option Capability → Bool
has_no_receipt (some Capability.legacy_no_receipt) = true
has_no_receipt _ = false

abbrev pub is_legacy_risk : AgentToolCall → Bool
is_legacy_risk c = has_no_receipt c.backend_effect_capability && not (is_safe c.side_effect)

-- The result that stands for a contract that is not registered.
abbrev pub unregistered : ReconcileResult
unregistered = record {
  status = ResultStatus.unsupported_schema_version;
  summary = none;
  acceptance_id = none;
  error_code = some backend_contract_unsupported;
  error_message = some "Backend contract is not registered.";
}

abbrev pub reconciling_call : AgentToolCall → AgentToolCall
reconciling_call c = record c { status = CallStatus.reconciling }

-- With a contract found: the result is asked for, recorded and settled.
unfoldable pub reconcile_with : Setup → Result Contract → Docket → Docket
unfolding record_attempt settle route
reconcile_with s (err e) d = mark_needs_migration s unregistered (record_attempt unregistered) d
reconcile_with s (ok k) d =
    let d₁ = put_call reconciling_call d in
    let r = route s.adapters d₁.call k in settle s r r.status (record_attempt r d₁)

-- `reconcile_tool_call`, for a run that is there.
unfoldable pub reconcile_tool_call : Setup → Docket → Docket
unfolding reconcile_with
reconcile_tool_call s d =
    if not (is_eligible d.call.status)
    then d
    else if is_legacy_risk d.call
    then log_failed (
        put_call
          (manual Recovery.legacy_no_receipt_high_risk_manual backend_reconcile_not_supported) d)
    else reconcile_with s (get_for_call d.call s.contract) d

-- `_latest_attempt`
unfoldable pub latest_attempt : List AgentReconcileAttempt → Option AgentReconcileAttempt
latest_attempt [] = none
latest_attempt (a ∷ rest) = elim (latest_attempt rest) [
  | none ↦ some a
  | some b ↦ if leb b.attempt_seq a.attempt_seq then some a else some b
]

abbrev pub later_than : Option ℕ → ℕ → Bool
later_than none now = false
later_than (some t) now = ltb now t

-- Whether `reconcile_run` takes a call with these attempts, or skips it.
unfoldable pub is_due : ℕ → List AgentReconcileAttempt → Bool
unfolding latest_attempt
is_due now attempts = elim (latest_attempt attempts) [
  | none ↦ true
  | some a ↦ not (later_than a.next_retry_at now)
]
