-- ===== src/Agent/Execution/Effects.antt =====
-- What an execution that passes the guards leaves in the database, as the backend answers and as
-- the event store works or fails (app/services/agent_runtime_service.py).
use test_platform_backend.Prelude.{
  String, ◌≡◌, ◌⊎◌, refl, Bool, true, false, Option, none, some, List, [], ◌∷◌, ap, inl, inr,
  Bool-cases, if◌then◌else◌, sym,
}
use mathlib.Core.Option
use mathlib.Core.Path.{subst}
use test_platform_backend.Session.{
  ErrorCode, ok, err, request, catch, Session, begin, http, server_error, event_outbox_write_failed,
  eventstore_write_failed_after_effect,
}
use test_platform_backend.Agent.Model.{
  AgentToolCall, CallStatus, EffectState, EventType, Phase, Recovery,
}
use test_platform_backend.Agent.Events.{Journal, append_event}
use test_platform_backend.Agent.Queue.{mark_failed}
use test_platform_backend.Agent.Execution.{
  Bench, Setting, Touch, commits, rolls_back, touch_all, truncated, returned, threw, guards,
  announce, accept, confirm, run_effect, execute_tool_call, call_backend, too_weak, guarded,
  is_receipt_first, write_event, log_row, on_effect_error,
}

-- The first thing that the backend does to the session is a commit.
abbrev pub commits_first : List Touch → Bool
commits_first (commits ∷ ts) = true
commits_first _ = false

-- The events before the backend is called are written.
abbrev pub Announces : Setting → Type 0
Announces s =
    (s.fails EventType.tool_running ≡ false)
    × (s.fails EventType.tool_send_intent_recorded ≡ false)
    × (s.fails EventType.tool_transport_sent_observed ≡ false)

-- The rows after the events before the backend call, and the call after the acceptance.
abbrev pub announced_call : Setting → AgentToolCall → AgentToolCall
announced_call s c = record c {
  status = CallStatus.running_pre_effect;
  execution_phase = some Phase.pre_effect;
  effect_submission_state = EffectState.transport_sent_observed;
  send_intent_at = some s.now;
  observed_sent_at = some s.now;
}

abbrev pub announced_journal : AgentToolCall → Journal → Journal
announced_journal c j =
    let id = some c.tool_call_id in
    append_event
      (append_event (append_event j EventType.tool_running id none)
        EventType.tool_send_intent_recorded id none)
      EventType.tool_transport_sent_observed id none

abbrev pub announced_bench : Setting → Bench → Bench
announced_bench s b = record b {
  journal = announced_journal b.call b.journal;
  call = announced_call s b.call;
}

-- An event that is written, and one that is not.
pub write_event-ok :
    (fails : EventType → Bool) (kind : EventType) (code : Option ErrorCode)
    → fails kind ≡ false
    → (σ : Session Bench)
    → write_event fails kind code σ ≡ (ok tt, record σ { work = log_row kind code σ.work })
unfolding write_event
write_event-ok fails kind code h σ = rw h refl

pub write_event-fail :
    (fails : EventType → Bool) (kind : EventType) (code : Option ErrorCode)
    → fails kind ≡ true
    → (σ : Session Bench)
    → write_event fails kind code σ
      ≡ (err (http server_error (some event_outbox_write_failed)), begin σ.saved)
unfolding write_event
write_event-fail fails kind code h σ = rw h refl

pub announce-eq :
    (s : Setting) (σ : Session Bench)
    → Announces s
    → announce s σ ≡ (ok tt, record σ { work = announced_bench s σ.work })
unfolding announce
announce-eq s σ (running, intent, sent) =
    rw
      (
        write_event-ok s.fails EventType.tool_running none running,
        write_event-ok s.fails EventType.tool_send_intent_recorded none intent,
        write_event-ok s.fails EventType.tool_transport_sent_observed none sent,
      )
      refl

unfoldable pub accepted_call : Setting → AgentToolCall → AgentToolCall
accepted_call s c =
    if is_receipt_first c.backend_effect_capability
    then record c {
      effect_submission_state = EffectState.backend_accepted;
      acceptance_id = some c.idempotency_key;
      acceptance_at = some s.now;
    }
    else c

unfoldable pub accepted_bench : Setting → Bench → Bench
accepted_bench s b =
    if is_receipt_first b.call.backend_effect_capability
    then log_row EventType.tool_backend_accepted none (record b { call = accepted_call s b.call })
    else b

pub accept-eq :
    (s : Setting) (σ : Session Bench)
    → s.fails EventType.tool_backend_accepted ≡ false
    → accept s σ ≡ (ok tt, record σ { work = accepted_bench s σ.work })
unfolding accept accepted_bench accepted_call
accept-eq s σ written = elim (Bool-cases (is_receipt_first σ.work.call.backend_effect_capability)) [
  | inl first ↦ rw first (write_event-ok s.fails EventType.tool_backend_accepted none written _)
  | inr other ↦ rw other refl
]

-- The rows committed after an event about the effect could not be written: `b` is what was
-- committed before that.
abbrev pub lost_bench : Bench → Bench
lost_bench b = record b {
  call = record (b.call) {
    status = CallStatus.uncertain;
    execution_phase = some Phase.completed;
    error_code = some eventstore_write_failed_after_effect;
    error_message = some (truncated "500: {'code': 'event_outbox_write_failed'}");
    recovery_decision = some Recovery.reconcile_required_after_eventstore_failure;
  };
  item = Option.map (mark_failed eventstore_write_failed_after_effect) b.item;
}

confirm-fail_first :
    (s : Setting) (σ : Session Bench)
    → s.fails EventType.tool_effect_committed ≡ true
    → confirm s σ ≡ (ok false, begin (lost_bench σ.saved))
unfolding confirm
confirm-fail_first s σ h = rw (write_event-fail s.fails EventType.tool_effect_committed none h) refl

confirm-fail_second :
    (s : Setting) (σ : Session Bench)
    → s.fails EventType.tool_effect_committed ≡ false
    → s.fails EventType.tool_completed ≡ true
    → confirm s σ ≡ (ok false, begin (lost_bench σ.saved))
unfolding confirm
confirm-fail_second s σ g h =
    rw
      (
        write_event-ok s.fails EventType.tool_effect_committed none g,
        write_event-fail s.fails EventType.tool_completed none h,
      )
      refl

pub confirm-fail :
    (s : Setting) (σ : Session Bench)
    → (s.fails EventType.tool_effect_committed ≡ true) ⊎ (s.fails EventType.tool_completed ≡ true)
    → confirm s σ ≡ (ok false, begin (lost_bench σ.saved))
confirm-fail s σ (inl h) = confirm-fail_first s σ h
confirm-fail s σ (inr h) = elim (Bool-cases (s.fails EventType.tool_effect_committed)) [
  | inl g ↦ confirm-fail_first s σ g
  | inr g ↦ confirm-fail_second s σ g h
]

-- The last two events of an execution that succeeds.
abbrev pub confirmed_journal : AgentToolCall → Journal → Journal
confirmed_journal c j =
    let id = some c.tool_call_id in
    append_event (append_event j EventType.tool_effect_committed id none) EventType.tool_completed
      id none

pub confirm-ok :
    (s : Setting) (σ : Session Bench)
    → s.fails EventType.tool_effect_committed ≡ false
    → s.fails EventType.tool_completed ≡ false
    → confirm s σ ≡ (
      ok true,
      record σ {
        work = record (σ.work) { journal = confirmed_journal σ.work.call σ.work.journal };
      },
    )
unfolding confirm
confirm-ok s σ g h =
    rw
      (
        write_event-ok s.fails EventType.tool_effect_committed none g,
        write_event-ok s.fails EventType.tool_completed none h,
      )
      refl

-- What the backend leaves of a session: only the first thing that it does to it matters.
abbrev pub settled : List Touch → Session Bench → Session Bench
settled [] σ = σ
settled (commits ∷ ts) σ = begin σ.work
settled (rolls_back ∷ ts) σ = begin σ.saved

touch_all-begin : (ts : List Touch) (b : Bench) → touch_all ts (begin b) ≡ (ok tt, begin b)
unfolding touch_all
touch_all-begin [] b = refl
touch_all-begin (commits ∷ ts) b = touch_all-begin ts b
touch_all-begin (rolls_back ∷ ts) b = touch_all-begin ts b

touch_all-settled : (ts : List Touch) (σ : Session Bench) → touch_all ts σ ≡ (ok tt, settled ts σ)
unfolding touch_all
touch_all-settled [] σ = refl
touch_all-settled (commits ∷ ts) σ = touch_all-begin ts σ.work
touch_all-settled (rolls_back ∷ ts) σ = touch_all-begin ts σ.saved

-- What the saved and the current rows have in common stays so.
pub settled-keeps :
    {A : Type 0} (f : Bench → A) (ts : List Touch) (σ : Session Bench)
    → f σ.work ≡ f σ.saved
    → f (settled ts σ).work ≡ f σ.saved
settled-keeps f [] σ h = h
settled-keeps f (commits ∷ ts) σ h = h
settled-keeps f (rolls_back ∷ ts) σ h = refl

pub call_backend-returned :
    (s : Setting) (output : String)
    → s.backend ≡ returned output
    → (σ : Session Bench) → call_backend s σ ≡ (ok output, settled s.touches σ)
call_backend-returned s output h σ = rw (touch_all-settled s.touches σ, h) refl

pub call_backend-threw :
    (s : Setting) (text : String)
    → s.backend ≡ threw text
    → (σ : Session Bench) → call_backend s σ ≡ (err (http server_error none), settled s.touches σ)
call_backend-threw s text h σ = rw (touch_all-settled s.touches σ, h) refl

-- The session when the backend has answered.
abbrev pub answered : Setting → Bench → Session Bench
answered s b = settled s.touches (record { saved = b; work = announced_bench s b })

-- With the guards passed, an execution is its second `try` block.
pub execute-run :
    (s : Setting) (b : Bench)
    → guards s b.call ≡ ok tt
    → too_weak b.call ≡ false
    → execute_tool_call s (begin b) ≡ catch (run_effect s) (λ e. on_effect_error s e.code) (begin b)
unfolding execute_tool_call
execute-run s b allowed strong =
    subst
      (λ g. guarded s g (begin b) ≡ catch (run_effect s) (λ e. on_effect_error s e.code) (begin b))
      (sym allowed) (rw strong refl)

-- For a call that the guards pass, with a backend that is strong enough for it, when the backend
-- returns, the events up to then are written, and one about the effect cannot be written: the
-- rollback of `append_event` takes back everything since the last commit. If the backend first of
-- all committed the session, that commit kept the events and the state that announce the effect;
-- otherwise the rows are those from before the execution. In both cases the call is marked as
-- uncertain and its item as failed, and the output and its hash are the old ones.
pub execute_tool_call-event_store_failure :
    (s : Setting) (b : Bench)
    → guards s b.call ≡ ok tt
    → too_weak b.call ≡ false
    → Announces s
    → (output : String) → s.backend ≡ returned output
    → s.fails EventType.tool_backend_accepted ≡ false
    → (s.fails EventType.tool_effect_committed ≡ true) ⊎ (s.fails EventType.tool_completed ≡ true)
    → request (execute_tool_call s) b
      ≡ (ok tt, lost_bench (if commits_first s.touches then announced_bench s b else b))
unfolding run_effect
execute_tool_call-event_store_failure s b allowed strong announced output done accepted failing =
    rw (execute-run s b allowed strong) (
      rw (announce-eq s (begin b) announced) (
        rw (call_backend-returned s output done _) (
          rw (accept-eq s _ accepted) (
            rw (confirm-fail s _ failing) (ap (λ x. (ok tt, lost_bench x)) (saved_of s.touches))))))
  where
    saved_of :
        (ts : List Touch)
        → (settled ts (record { saved = b; work = announced_bench s b })).saved
          ≡ (if commits_first ts then announced_bench s b else b)
    saved_of [] = refl
    saved_of (commits ∷ ts) = refl
    saved_of (rolls_back ∷ ts) = refl
