-- ===== src/Agent/Events.antt =====
-- `AgentRuntimeService.append_event` (app/services/agent_runtime_service.py): the events of a run
-- are numbered by its `last_event_sequence`.
use test_platform_backend.Prelude.{ℕ, ◌+◌, ◌≡◌, refl, Option, List, [], ◌∷◌}
use test_platform_backend.Session.{ErrorCode}
use test_platform_backend.Agent.Model.{AgentRun, AgentEvent, EventType}

-- The run's row and its events, the newest first.
pub record Journal : Type 0 where
  pub run : AgentRun
  pub events : List AgentEvent

-- The event that the code builds, and the sequence number that it writes to the run.
unfoldable pub append_event : Journal → EventType → Option ℕ → Option ErrorCode → Journal
append_event j kind call code =
    let seq = j.run.last_event_sequence + 1 in
    record {
      run = record (j.run) { last_event_sequence = seq };
      events =
          record {
            run_id = j.run.run_id;
            event_seq = seq;
            event_type = kind;
            tool_call_id = call;
            error_code = code;
          }
          ∷ j.events;
    }

-- The events of run `r` in a list, the newest first, are numbered `n`, `n - 1`, …, 1.
abbrev pub Numbered : ℕ → ℕ → List AgentEvent → Type 0
Numbered r n [] = n ≡ 0
Numbered r n (e ∷ es) = (e.run_id ≡ r) × (e.event_seq ≡ n) × (m : ℕ) × (n ≡ m + 1) × Numbered r m es

-- A run's events are numbered without a gap, and the run's row holds the last number.
abbrev pub IsJournal : Journal → Type 0
IsJournal j = Numbered j.run.run_id j.run.last_event_sequence j.events

-- Appending keeps the numbering gapless.
pub append_event-IsJournal :
    (j : Journal) (kind : EventType) (call : Option ℕ) (code : Option ErrorCode)
    → IsJournal j
    → IsJournal (append_event j kind call code)
unfolding append_event
append_event-IsJournal j kind call code h = (refl, refl, j.run.last_event_sequence, refl, h)
