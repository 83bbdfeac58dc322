-- ===== src/Agent/Memory/Change.antt =====
-- What the operations of app/services/agent_memory_service.py do to one memory.
use test_platform_backend.Prelude.{
  ℕ, ◌+◌, String, Bool, true, false, ◌&&◌, ◌||◌, Option, none, some, [], ◌∷◌, same_opt,
  if◌then◌else◌,
}
use test_platform_backend.Permission.{has_code}
use test_platform_backend.Agent.Memory.{
  Floats, min_float, clamp, MemoryStatus, active, needs_review, needs_revalidation, suspect,
  rejected, Severity, high, critical, max_severity, ProjectMemory,
}
use text.Mathlib.Text.{◌==◌ as str_eq}

-- `_same_failure_repeated`; an empty fingerprint counts as none.
abbrev pub same_failure_repeated : Option ℕ → Option ℕ → Bool
same_failure_repeated last none = false
same_failure_repeated last (some fingerprint) = same_opt last (some fingerprint)

-- The status after a contradiction; `for_policy` is `usage.active_for_policy`.
abbrev pub contradicted_status : Severity → Bool → Bool → MemoryStatus → MemoryStatus
contradicted_status critical for_policy repeated s = needs_revalidation
contradicted_status high for_policy repeated s = if for_policy then needs_revalidation else suspect
contradicted_status _ for_policy repeated s =
    if for_policy then needs_revalidation else if repeated then suspect else s

module _ {F : Type 0} (fl : Floats F) where
  -- `_stale_delta`
  abbrev pub stale_delta : String → F
  stale_delta reason =
      if str_eq reason "environment.updated"
      then fl.hundredths 30
      else if has_code reason ("document.updated" ∷ "manifest.changed" ∷ [])
      then fl.hundredths 25
      else fl.hundredths 20

  abbrev pub confidence_by : F → F
  confidence_by f = clamp fl f (fl.hundredths 0) (fl.hundredths 95)

  abbrev pub staleness_by : F → F
  staleness_by f = clamp fl f (fl.hundredths 0) (fl.hundredths 100)

  -- The writes of `validate_memory`
  unfoldable pub validated : ℕ → ProjectMemory F → ProjectMemory F
  unfolding clamp
  validated now m = record m {
    status = active;
    validation_count = m.validation_count + 1;
    recent_validation_count = m.recent_validation_count + 1;
    last_validated_at = some now;
    confidence = confidence_by (fl.add m.confidence (fl.hundredths 10));
    stale_score = staleness_by (fl.sub m.stale_score (fl.hundredths 25));
    memory_version = m.memory_version + 1;
  }

  -- The writes of `reject_memory`
  unfoldable pub rejected_by_user : ProjectMemory F → ProjectMemory F
  rejected_by_user m = record m {
    status = rejected;
    confidence = min_float fl m.confidence (fl.hundredths 10);
    stale_score = fl.hundredths 100;
    memory_version = m.memory_version + 1;
  }

  -- The writes of `record_contradiction`, and those of `_process_usage_event` for a contradiction
  unfoldable pub contradicted : Severity → Option ℕ → Bool → ℕ → ProjectMemory F → ProjectMemory F
  unfolding clamp max_severity
  contradicted severity fingerprint for_policy now m = record m {
    contradiction_count = m.contradiction_count + 1;
    recent_contradiction_count = m.recent_contradiction_count + 1;
    last_contradicted_at = some now;
    last_failure_fingerprint = fingerprint;
    max_recent_severity = some (max_severity m.max_recent_severity severity);
    confidence = confidence_by (fl.sub m.confidence (fl.hundredths 15));
    stale_score = staleness_by (fl.add m.stale_score (fl.hundredths 25));
    status =
        contradicted_status severity for_policy
          (same_failure_repeated m.last_failure_fingerprint fingerprint) m.status;
  }

  -- More staleness: the memory needs revalidation if `at_once`, or from a score of 0.8 on.
  abbrev pub staler : F → String → Bool → ProjectMemory F → ProjectMemory F
  staler delta reason at_once m =
      let score = staleness_by (fl.add m.stale_score delta) in
      record m {
        stale_score = score;
        stale_reason = some reason;
        status =
            if at_once || fl.leb (fl.hundredths 80) score then needs_revalidation else m.status;
      }

  -- The writes of `mark_memories_stale_for_ref`
  unfoldable pub marked_stale : String → ProjectMemory F → ProjectMemory F
  unfolding clamp
  marked_stale reason m =
      staler (stale_delta reason) reason
        (has_code reason ("manifest.changed" ∷ "environment.updated" ∷ [])) m

  -- The writes of `process_expired_ttl`
  unfoldable pub ttl_expired : ProjectMemory F → ProjectMemory F
  unfolding clamp
  ttl_expired m = staler (fl.hundredths 10) "memory_ttl.expired" false m

  -- The writes of `_process_usage_event` for a stale outcome
  unfoldable pub feedback_stale : String → Bool → ProjectMemory F → ProjectMemory F
  unfolding clamp
  feedback_stale reason for_policy m =
      staler (if for_policy then fl.hundredths 30 else fl.hundredths 20) reason for_policy m

  abbrev pub awaits_validation : MemoryStatus → Bool
  awaits_validation needs_review = true
  awaits_validation needs_revalidation = true
  awaits_validation suspect = true
  awaits_validation _ = false

  abbrev pub is_needs_revalidation : MemoryStatus → Bool
  is_needs_revalidation needs_revalidation = true
  is_needs_revalidation _ = false

  -- The scores of `_process_usage_event` after a positive outcome; `used` tells that the memory
  -- was active for policy or changed a tool's input.
  abbrev pub confirmed_scores : Bool → Bool → ProjectMemory F → ProjectMemory F
  confirmed_scores is_validation used m = record m {
    confidence =
        confidence_by (fl.add m.confidence (if used then fl.hundredths 5 else fl.hundredths 3));
    stale_score =
        staleness_by
          (fl.sub m.stale_score (if is_validation then fl.hundredths 10 else fl.hundredths 8));
  }

  abbrev pub count_validation : Bool → ℕ → ProjectMemory F → ProjectMemory F
  count_validation false now m = m
  count_validation true now m = record m {
    validation_count = m.validation_count + 1;
    recent_validation_count = m.recent_validation_count + 1;
    last_validated_at = some now;
    memory_version = m.memory_version + 1;
  }

  -- The writes of `_process_usage_event` for a positive outcome
  unfoldable pub feedback_positive : Bool → Bool → ℕ → ProjectMemory F → ProjectMemory F
  unfolding clamp
  feedback_positive is_validation used now m₀ =
      let m = count_validation is_validation now (confirmed_scores is_validation used m₀) in
      record m {
        status =
            if is_needs_revalidation m.status
                && fl.leb m.stale_score (fl.hundredths 50)
                && fl.leb m.initial_confidence m.confidence
              || is_validation && awaits_validation m.status
            then active
            else m.status;
      }
