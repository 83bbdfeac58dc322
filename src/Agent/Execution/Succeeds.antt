-- ===== src/Agent/Execution/Succeeds.antt =====
-- When a call is marked as succeeded by `execute_tool_call`
-- (app/services/agent_runtime_service.py).
use test_platform_backend.Prelude.{String, ◌≡◌, ◌⊎◌, Bool, true, false, ◌&&◌, Option, some}
use mathlib.Core.Option
use test_platform_backend.Session.{Result, ok, Session}
use test_platform_backend.Agent.Model.{CallStatus, EffectState, EventType, Capability}
use test_platform_backend.Agent.Queue.{mark_completed}
use test_platform_backend.Agent.Execution.{
  Bench, Setting, returned, guards, too_weak, is_receipt_first,
}
use test_platform_backend.Agent.Execution.Effects.{Announces}

abbrev pub is_succeeded : CallStatus → Bool
is_succeeded CallStatus.succeeded = true
is_succeeded _ = false

-- The rows in the database do not have the call as succeeded.
abbrev Undone : Session Bench → Type 0
Undone σ = is_succeeded σ.saved.call.status ≡ false

-- The event that a receipt-first backend has accepted the call is written, where there is one.
abbrev pub Accepts : Setting → Option Capability → Type 0
Accepts s capability =
    (is_receipt_first capability && s.fails EventType.tool_backend_accepted) ≡ false

-- Everything that an execution which succeeds needs, and what it leaves in the rows `after`.
pub record Succeeded (s : Setting) (b after : Bench) : Type 0 where
  pub output : String
  pub answer : s.backend ≡ returned output
  pub allowed : guards s b.call ≡ ok tt
  pub strong : too_weak b.call ≡ false
  pub announced : Announces s
  pub accepted : Accepts s b.call.backend_effect_capability
  pub committed : s.fails EventType.tool_effect_committed ≡ false
  pub completed : s.fails EventType.tool_completed ≡ false
  pub state : after.call.effect_submission_state ≡ EffectState.effect_committed
  pub masked : after.call.output ≡ some (s.mask output)
  pub hashed : after.call.output_hash ≡ some (s.fingerprint output)
  pub finished : after.item ≡ Option.map mark_completed b.item

module _ (s : Setting) (b : Bench) (unfinished : is_succeeded b.call.status ≡ false) where
  -- Either the call has not succeeded, or everything that this needs holds.
  abbrev Judged : Result Unit × Session Bench → Type 0
  Judged (r, σ) = Undone σ ⊎ Succeeded s b σ.saved

  abbrev Marked : Result Unit × Session Bench → Type 0
  Marked (r, σ) = σ.saved.call.status ≡ CallStatus.succeeded
