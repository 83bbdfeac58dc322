-- ===== src/Tests/Memories.antt =====
-- Two memories of a project, scores being numbers of hundredths.
use test_platform_backend.Prelude.{
  ℕ, ◌+◌, ◌-◌, ◌≡◌, refl, leb, true, false, none, some, [], ◌∷◌, All, arith,
}
use test_platform_backend.Session.{ok, request}
use test_platform_backend.Agent.Memory.{Floats, IsOrdered, ProjectMemory, SourceProfile, active}
use test_platform_backend.Agent.Memory.Rows.{
  MemoryRows, UsageEvent, pending, processed, default_source_profiles,
}
use test_platform_backend.Agent.Memory.Gate.{retrieve}
use test_platform_backend.Agent.Memory.Gate.Ranked.{RetrieveEnd, retrieve-RetrieveEnd}
use test_platform_backend.Agent.Memory.Manage.{validate_memory}
use test_platform_backend.Agent.Memory.Scores.{IsScored, Within}
use test_platform_backend.Agent.Memory.Service.{validated_by, Served-IsScored}
use test_platform_backend.Agent.Memory.Feedback.{Processed, is_due, due_events, process_due}
use test_platform_backend.Agent.Memory.Feedback.Once.{process_due_once}
use test_platform_backend.Tests.Rows.{owner, tester_access}

abbrev hundredths : Floats ℕ
hundredths = record { leb = leb; add = λ a b. a + b; sub = λ a b. a - b; hundredths = λ n. n }

abbrev hundredths_ordered : IsOrdered hundredths
hundredths_ordered = record {
  total = λ a b h. ground arith;
  transitive = λ a b c p q. ground arith;
  monotone = λ m n h. ground arith;
}

abbrev memory : ℕ → ℕ → ProjectMemory ℕ
memory id confidence = record {
  id = id;
  project_id = 1;
  memory_type = "fact";
  title = "login";
  content = "needs a token";
  memory_version = 1;
  source_type = "user_confirmed";
  authority = "user";
  confidence = confidence;
  initial_confidence = 85;
  stale_score = 0;
  stale_reason = none;
  status = active;
  validation_count = 0;
  recent_validation_count = 0;
  contradiction_count = 0;
  recent_contradiction_count = 0;
  last_validated_at = none;
  last_contradicted_at = none;
  last_used_at = none;
  last_failure_fingerprint = none;
  max_recent_severity = none;
  expires_at = none;
}

abbrev usage : UsageEvent
usage = record {
  id = 60;
  memory_id = 1;
  usage_role = "policy_dependency";
  active_for_policy = true;
  caused_tool_input_change = false;
  outcome = some "misleading";
  severity = some "critical";
  fingerprint = none;
  feedback_state = pending;
}

abbrev rows : MemoryRows ℕ
rows = record {
  memories = memory 1 90 ∷ memory 2 40 ∷ [];
  links = [];
  source_profiles = default_source_profiles hundredths;
  retrieval_profiles = [];
  usages = usage ∷ record usage { id = 61; feedback_state = processed } ∷ [];
  contradictions = [];
  validations = [];
  stalenesses = [];
}

abbrev confidence_of : ProjectMemory ℕ → ℕ
confidence_of m = m.confidence

abbrev fresh_id : ℕ → ℕ
fresh_id n = n + 70

retrieve-RetrieveEnd_example :
    RetrieveEnd hundredths confidence_of hundredths_ordered 100 owner tester_access 1
      "high_risk_action_v1" true 1 rows
      (request
        (retrieve hundredths confidence_of 100 owner tester_access 1 "high_risk_action_v1" true
          "policy_dependency" fresh_id 1)
        rows)
retrieve-RetrieveEnd_example =
    retrieve-RetrieveEnd hundredths confidence_of hundredths_ordered 100 owner tester_access 1
      "high_risk_action_v1" true "policy_dependency" fresh_id 1 rows

abbrev validated : MemoryRows ℕ
validated = (request (validate_memory hundredths owner (λ project. tester_access) 1 100) rows).1

Served-IsScored_example :
    All (IsScored hundredths) validated.memories
    × All
        (λ (p : SourceProfile ℕ). Within hundredths p.initial_confidence 0 95)
        validated.source_profiles
Served-IsScored_example =
    Served-IsScored hundredths hundredths_ordered rows validated
      (validated_by owner (λ project. tester_access) 1 100 rows)
      (
        record { confidence = (refl, refl); staleness = (refl, refl) },
        (record { confidence = (refl, refl); staleness = (refl, refl) }, tt),
      )
      (
        (refl, refl),
        ((refl, refl), ((refl, refl), ((refl, refl), ((refl, refl), ((refl, refl), tt))))),
      )

process_due_once_example :
    (out : Processed) × (after : MemoryRows ℕ) × (request (process_due hundredths 100 5) rows
      ≡ (ok out, after))
    × (out.attempted ≡ 1)
    × (out.processed + out.skipped ≡ out.attempted)
    × All (λ e. is_due e ≡ false) after.usages
    × ((request (process_due hundredths 200 5) after).1 ≡ after)
    × (due_events hundredths 5 after ≡ [])
process_due_once_example = process_due_once hundredths 100 200 5 5 rows (omega arith)
