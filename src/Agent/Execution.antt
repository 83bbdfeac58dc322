-- ===== src/Agent/Execution.antt =====
-- `ToolExecutor.execute_tool_call` of app/services/agent_runtime_service.py: the guards, the
-- phases of the effect, and the handlers of what fails. Arguments are what the backend answers, when
-- it commits and rolls back the session, which it shares with the executor, and the event types that
-- the event store fails to write.
pub mod Guards
pub mod Effects
pub mod Succeeds
use test_platform_backend.Prelude.{
  ℕ, zero, suc, String, Bool, true, false, ◌&&◌, not, Option, none, some, List, [], ◌∷◌, is_some,
}
use mathlib.Core.Option
use test_platform_backend.Session.{
  ErrorCode, HttpStatus, HttpException, Result, ok, err, http, forbidden, conflict, server_error,
  Session, Exec, branch, case_some, commit, rollback, modify, pure, raise, catch, gets, ◌>>=◌, ◌>>◌,
  approval_required_before_execution, permission_revoked_before_execution,
  backend_capability_too_weak, tool_execution_failed, eventstore_write_failed_after_effect,
  event_outbox_write_failed,
}
use test_platform_backend.Permission.{User, Access}
use test_platform_backend.Agent.Model.{
  AgentToolCall, AgentApproval, AgentContextBuild, AgentWorkerQueue, CallStatus, Capability,
  EffectState, EventType, Phase, Recovery, SideEffect, is_safe,
}
use test_platform_backend.Agent.Events.{Journal, append_event}
use test_platform_backend.Agent.Policy.{
  ensure_approval_allows_execution, ensure_context_allows_execution, require_permissions,
  then_check,
}
use test_platform_backend.Agent.Queue.{mark_completed, mark_failed}

-- The rows that an execution works on: the run with its events, the call, and its queue item.
pub record Bench : Type 0 where
  pub journal : Journal
  pub call : AgentToolCall
  pub item : Option AgentWorkerQueue

-- What the backend does to the session, which is the executor's own (`backend_factory(self.db)`).
pub data Touch : Type 0 where
  commits rolls_back : Touch

-- What the backend answers: it returns an output, or raises an exception with this text.
pub data Backend : Type 0 where
  returned : String → Backend
  threw : String → Backend

-- What an execution is given: the rows that the policy's queries find, the user, and what its
-- environment does. `fingerprint` and `mask` are `request_fingerprint` and `mask_sensitive`.
pub record Setting : Type 0 where
  pub user : User
  pub access : Access
  pub build : Option AgentContextBuild
  pub approval : Option AgentApproval
  pub touches : List Touch
  pub backend : Backend
  pub fails : EventType → Bool
  pub fingerprint : String → ℕ
  pub mask : String → String
  pub now : ℕ

abbrev pub update_call : (AgentToolCall → AgentToolCall) → Bench → Bench
update_call f b = record b { call = f b.call }

abbrev pub update_item : (AgentWorkerQueue → AgentWorkerQueue) → Bench → Bench
update_item f b = record b { item = Option.map f b.item }

abbrev pub log_row : EventType → Option ErrorCode → Bench → Bench
log_row kind code b = record b {
  journal = append_event b.journal kind (some b.call.tool_call_id) code;
}

-- `append_event`: when the event store fails, the session is rolled back and 500 raised.
unfoldable pub write_event : (EventType → Bool) → EventType → Option ErrorCode → Exec Bench Unit
write_event fails kind code =
    branch (fails kind) (do rollback; raise (http server_error (some event_outbox_write_failed)))
      (modify (log_row kind code))

-- The three guards in the order of the `try` block.
unfoldable pub guards : Setting → AgentToolCall → Result Unit
guards s c = then_check (ensure_context_allows_execution c s.build) (
    then_check (ensure_approval_allows_execution c s.approval)
      (require_permissions s.user s.access c.required_permissions))

-- A refusal before the effect: the call's status and error, a `tool.failed` event, the queue item
-- failed, and a commit.
unfoldable pub refuse : Setting → CallStatus → ErrorCode → Option String → Exec Bench Unit
unfolding write_event
refuse s status code message = do
  modify (
      update_call
        (λ c. record c { status = status; error_code = some code; error_message = message }))
  write_event s.fails EventType.tool_failed (some code)
  modify (update_item (mark_failed code))
  commit

abbrev code_or : Option ErrorCode → ErrorCode → ErrorCode
code_or none d = d
code_or (some c) d = c

-- The `except HTTPException` clause of the guards; other statuses are raised again.
unfoldable pub on_guard_error : Setting → HttpStatus → Option ErrorCode → Exec Bench Unit
on_guard_error s forbidden code =
    refuse s CallStatus.failed permission_revoked_before_execution
      (some "Execute-time permission check failed")
on_guard_error s conflict code =
    refuse s CallStatus.manual_intervention (code_or code approval_required_before_execution)
      (some "Approval guard blocked execution")
on_guard_error s status code = raise (http status code)

-- `backend_effect_capability is None and side_effect not in SAFE_SIDE_EFFECT_CLASSES`
abbrev pub too_weak : AgentToolCall → Bool
too_weak c = not (is_some c.backend_effect_capability) && not (is_safe c.side_effect)

unfoldable pub announce : Setting → Exec Bench Unit
unfolding write_event
announce s = do
  modify (
      update_call (λ c. record c {
        status = CallStatus.running_pre_effect;
        execution_phase = some Phase.pre_effect;
      }))
  write_event s.fails EventType.tool_running none
  modify (
      update_call (λ c. record c {
        effect_submission_state = EffectState.send_intent_recorded;
        send_intent_at = some s.now;
      }))
  write_event s.fails EventType.tool_send_intent_recorded none
  modify (
      update_call (λ c. record c {
        effect_submission_state = EffectState.transport_sent_observed;
        observed_sent_at = some s.now;
      }))
  write_event s.fails EventType.tool_transport_sent_observed none

abbrev pub touch : Touch → Exec Bench Unit
touch commits = commit
touch rolls_back = rollback

unfoldable pub touch_all : List Touch → Exec Bench Unit
touch_all [] = pure tt
touch_all (t ∷ ts) = do touch t; touch_all ts

-- How the backend call ends. Its exception has no HTTP status of its own.
abbrev pub backend_answer : Backend → Exec Bench String
backend_answer (returned output) = pure output
backend_answer (threw text) = raise (http server_error none)

-- The backend call: other rows that it writes are not those of a bench.
abbrev pub call_backend : Setting → Exec Bench String
call_backend s = do touch_all s.touches; backend_answer s.backend

abbrev pub is_receipt_first : Option Capability → Bool
is_receipt_first (some Capability.receipt_first) = true
is_receipt_first _ = false

unfoldable pub accept : Setting → Exec Bench Unit
unfolding write_event
accept s = do
  b ← gets (λ b. b)
  branch (is_receipt_first b.call.backend_effect_capability)
      (do
        modify (
            update_call (λ c. record c {
              effect_submission_state = EffectState.backend_accepted;
              acceptance_id = some c.idempotency_key;
              acceptance_at = some s.now;
            }))
        write_event s.fails EventType.tool_backend_accepted none)
      (pure tt)

-- `side_effect not in {"read_only", "deterministic_compute"}`
abbrev pub crosses_boundary : SideEffect → Bool
crosses_boundary SideEffect.read_only = false
crosses_boundary SideEffect.deterministic_compute = false
crosses_boundary _ = true

abbrev pub committed_call : Setting → String → AgentToolCall → AgentToolCall
committed_call s output c = record c {
  effect_submission_state = EffectState.effect_committed;
  effect_boundary_crossed = crosses_boundary c.side_effect;
  output = some (s.mask output);
  output_hash = some (s.fingerprint output);
  status = CallStatus.succeeded;
  execution_phase = some Phase.completed;
}

abbrev first_characters : ℕ → String → String
first_characters zero text = ""
first_characters (suc n) String.[] = ""
first_characters (suc n) (String.◌∷◌ c text) = String.◌∷◌ c (first_characters n text)

-- `text[:512]`
unfoldable pub truncated : String → String
truncated text = first_characters 512 text

-- `_mark_eventstore_write_failed_after_effect`
unfoldable pub mark_eventstore_write_failed_after_effect : String → Exec Bench Unit
mark_eventstore_write_failed_after_effect text = do
  modify (
      update_call (λ c. record c {
        status = CallStatus.uncertain;
        execution_phase = some Phase.completed;
        error_code = some eventstore_write_failed_after_effect;
        error_message = some (truncated text);
        recovery_decision = some Recovery.reconcile_required_after_eventstore_failure;
      }))
  modify (update_item (mark_failed eventstore_write_failed_after_effect))
  commit

-- The text of an exception, `str(exc)`: that of `append_event` has a code.
abbrev pub text_of : Option ErrorCode → Backend → String
text_of (some _) b = "500: {'code': 'event_outbox_write_failed'}"
text_of none (returned _) = ""
text_of none (threw text) = text

-- The last events of an execution; the answer says whether they were written.
unfoldable pub confirm : Setting → Exec Bench Bool
unfolding write_event mark_eventstore_write_failed_after_effect
confirm s =
    catch
      (do
        write_event s.fails EventType.tool_effect_committed none
        write_event s.fails EventType.tool_completed none
        pure true)
      (λ e. do mark_eventstore_write_failed_after_effect (text_of e.code s.backend); pure false)

-- The body of the second `try`.
unfoldable pub run_effect : Setting → Exec Bench Unit
run_effect s = do
  announce s
  output ← call_backend s
  accept s
  modify (update_call (committed_call s output))
  written ← confirm s
  branch written (do modify (update_item mark_completed); commit) (pure tt)

-- Its `except Exception` clause.
unfoldable pub on_effect_error : Setting → Option ErrorCode → Exec Bench Unit
on_effect_error s code =
    refuse s CallStatus.failed tool_execution_failed (some (truncated (text_of code s.backend)))

abbrev pub guarded : Setting → Result Unit → Exec Bench Unit
guarded s (err e) = on_guard_error s e.status_code e.code
guarded s (ok _) = do
  b ← gets (λ b. b)
  branch (too_weak b.call)
      (refuse s CallStatus.manual_intervention backend_capability_too_weak b.call.error_message)
      (catch (run_effect s) (λ e. on_effect_error s e.code))

unfoldable pub execute_tool_call : Setting → Exec Bench Unit
execute_tool_call s = do b ← gets (λ b. b); guarded s (guards s b.call)
