-- ===== src/Agent/Memory/Feedback.antt =====
-- `MemoryFeedbackWorker.process_due` of app/services/agent_memory_service.py.
pub mod Once
use test_platform_backend.Prelude.{
  ℕ, ◌+◌, String, Bool, true, false, ◌&&◌, ◌||◌, not, Option, none, some, List, [], ◌∷◌, ◌++◌, map,
  select, find, elem, take, ltb, leb, length, ◌==◌, update_where, is_some, if◌then◌else◌,
}
use test_platform_backend.Permission.{has_code}
use test_platform_backend.Session.{Exec, pure, modify, commit, gets, ◌>>=◌, ◌>>◌}
use test_platform_backend.Agent.Memory.{Floats, Severity, medium, ProjectMemory}
use test_platform_backend.Agent.Memory.Change.{contradicted, feedback_stale, feedback_positive}
use test_platform_backend.Agent.Memory.Rows.{
  FeedbackState, pending, retry, processed, other_state, UsageEvent, MemoryRows,
}
use test_platform_backend.Agent.Memory.Manage.{
  memory_by_id, change_memory, parse_severity, record_validation,
}
use test_platform_backend.Agent.Memory.Workers.{is_rejected}
use text.Mathlib.Text.{◌==◌ as str_eq}
use Prim.Native.String.{◌++◌ as append}

abbrev pub positive_outcomes : List String
positive_outcomes = "confirmed" ∷ "succeeded" ∷ "helped" ∷ "accepted" ∷ "useful" ∷ "validated" ∷ []

abbrev pub neutral_outcomes : List String
neutral_outcomes = "unused" ∷ "no_effect" ∷ "ignored" ∷ "not_used" ∷ "neutral" ∷ []

abbrev pub stale_outcomes : List String
stale_outcomes = "stale" ∷ "superseded" ∷ "outdated" ∷ "needs_revalidation" ∷ []

abbrev pub contradiction_outcomes : List String
contradiction_outcomes =
    "contradicted" ∷ "misleading" ∷ "caused_failure" ∷ "failed_due_to_memory" ∷ "incorrect" ∷ []

-- The "decision" of a result; each but two is of an event that counts as processed.
pub data Decision : Type 0 where
  memory_missing_or_rejected memory_validated confidence_adjusted marked_stale : Decision
  contradiction_recorded neutral_outcome unknown_outcome_ignored : Decision

abbrev pub counts_as_processed : Decision → Bool
counts_as_processed memory_missing_or_rejected = false
counts_as_processed unknown_outcome_ignored = false
counts_as_processed _ = true

abbrev pub is_contradiction : Decision → Bool
is_contradiction contradiction_recorded = true
is_contradiction _ = false

abbrev pub is_validation : Decision → Bool
is_validation memory_validated = true
is_validation _ = false

abbrev pub is_waiting : FeedbackState → Bool
is_waiting pending = true
is_waiting retry = true
is_waiting _ = false

-- `order_by(created_at, id)`: the tables have the newest event first.
abbrev pub oldest_first : List UsageEvent → List UsageEvent
oldest_first [] = []
oldest_first (e ∷ es) = oldest_first es ++ e ∷ []

-- The conditions of the query.
abbrev pub is_due : UsageEvent → Bool
is_due e = is_some e.outcome && is_waiting e.feedback_state

abbrev pub outcome_of : UsageEvent → String
outcome_of e = text_of e.outcome
  where
    text_of : Option String → String
    text_of none = ""
    text_of (some text) = text

-- The severity in the metadata, or by default.
abbrev pub severity_of : UsageEvent → Severity
severity_of e = checked (parse_severity (named e.severity))
  where
    named : Option String → String
    named none = if e.caused_tool_input_change then "high" else "medium"
    named (some text) = text

    checked : Option Severity → Severity
    checked none = medium
    checked (some s) = s

-- The answer of `process_due`, without the results.
pub record Processed : Type 0 where
  pub attempted : ℕ
  pub processed : ℕ
  pub skipped : ℕ
  pub contradictions_recorded : ℕ
  pub validations_recorded : ℕ

module _ {F : Type 0} (fl : Floats F) where
  -- The writes for an outcome, on a memory that is there and is not rejected.
  abbrev pub feed : ℕ → UsageEvent → ProjectMemory F → MemoryRows F → MemoryRows F × Decision
  feed now e m d =
      let outcome = outcome_of e in
      let validating = str_eq outcome "validated" in
      let used = e.active_for_policy || e.caused_tool_input_change in
      let severity = severity_of e in
      if has_code outcome positive_outcomes
      then (
        (if validating
            then record_validation fl m (feedback_positive fl true used now m)
                (change_memory m.id (feedback_positive fl true used now) d)
            else change_memory m.id (feedback_positive fl false used now) d),
        (if validating then memory_validated else confidence_adjusted),
      )
      else if has_code outcome stale_outcomes
      then (
        change_memory m.id
            (feedback_stale fl (append "memory_feedback." outcome) e.active_for_policy) d,
        marked_stale,
      )
      else if has_code outcome contradiction_outcomes
      then (
        change_memory m.id (contradicted fl severity e.fingerprint e.active_for_policy now)
            (record d {
              contradictions =
                  record {
                    memory_id = m.id;
                    severity = severity;
                    failure_fingerprint = e.fingerprint;
                    occurred_at = now;
                  }
                  ∷ d.contradictions;
            }),
        contradiction_recorded,
      )
      else (
        d,
        if has_code outcome neutral_outcomes then neutral_outcome else unknown_outcome_ignored,
      )

  abbrev pub feed_found :
      ℕ → UsageEvent → Option (ProjectMemory F) → MemoryRows F → MemoryRows F × Decision
  feed_found now e none d = (d, memory_missing_or_rejected)
  feed_found now e (some m) d =
      if is_rejected m.status then (d, memory_missing_or_rejected) else feed now e m d

  -- `_mark_processed`
  abbrev pub mark_processed : ℕ → MemoryRows F → MemoryRows F
  mark_processed id d = record d {
    usages =
        update_where (λ (e : UsageEvent). e.id == id) (λ e. record e { feedback_state = processed })
          d.usages;
  }

  -- `_process_usage_event`
  unfoldable pub process_usage_event : ℕ → UsageEvent → MemoryRows F → MemoryRows F × Decision
  unfolding contradicted feedback_stale feedback_positive
  process_usage_event now e d =
      let (d', decision) = feed_found now e (memory_by_id e.memory_id d) d in
      (mark_processed e.id d', decision)

  unfoldable pub process_events : ℕ → List UsageEvent → MemoryRows F → MemoryRows F × List Decision
  unfolding process_usage_event
  process_events now [] d = (d, [])
  process_events now (e ∷ es) d =
      let (d', decision) = process_usage_event now e d in
      let (d'', decisions) = process_events now es d' in (d'', decision ∷ decisions)

  -- The events that the query returns.
  abbrev pub due_events : ℕ → MemoryRows F → List UsageEvent
  due_events limit d = take limit (select is_due (oldest_first d.usages))

  -- `process_due`, for all usage events
  unfoldable pub process_due : ℕ → ℕ → Exec (MemoryRows F) Processed
  unfolding process_events
  process_due now limit = do
    d ← gets (λ (d : MemoryRows F). d)
    let (d', decisions) = process_events now (due_events limit d) d
    modify (λ _. d')
    commit
    pure (record {
      attempted = length (due_events limit d);
      processed = length (select counts_as_processed decisions);
      skipped = length (select (λ x. not (counts_as_processed x)) decisions);
      contradictions_recorded = length (select is_contradiction decisions);
      validations_recorded = length (select is_validation decisions);
    })
