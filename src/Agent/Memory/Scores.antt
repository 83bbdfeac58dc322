-- ===== src/Agent/Memory/Scores.antt =====
-- The bounds of the scores of a memory, through every change that
-- app/services/agent_memory_service.py makes to it.
use test_platform_backend.Prelude.{
  ℕ, ◌≡◌, inl, inr, String, Bool, true, false, Option, some, Bool-cases, arith,
}
use test_platform_backend.Agent.Memory.{
  Floats, IsOrdered, min_float, max_float, clamp, Severity, MemoryStatus, ProjectMemory,
}
use test_platform_backend.Agent.Memory.Change.{
  validated, rejected_by_user, contradicted, marked_stale, ttl_expired, feedback_stale,
  feedback_positive, count_validation, confirmed_scores,
}
use test_platform_backend.Agent.Memory.Manage.{MemoryUpdate, updated}

module _ {F : Type 0} (fl : Floats F) where
  abbrev pub Within : F → ℕ → ℕ → Type 0
  Within f low high = (fl.leb (fl.hundredths low) f ≡ true) × (fl.leb f (fl.hundredths high) ≡ true)

  -- The confidence is between 0 and 0.95, and the staleness between 0 and 1.
  pub record IsScored (m : ProjectMemory F) : Type 0 where
    pub confidence : Within m.confidence 0 95
    pub staleness : Within m.stale_score 0 100

  -- What the service may do to a memory.
  pub data Change : ProjectMemory F → ProjectMemory F → Type 0 where
    update :
        (p : MemoryUpdate) (s : Option MemoryStatus) (m : ProjectMemory F)
        → Change m (updated fl p s m)
    validate : (now : ℕ) (m : ProjectMemory F) → Change m (validated fl now m)
    reject : (m : ProjectMemory F) → Change m (rejected_by_user fl m)
    contradict :
        (s : Severity) (f : Option ℕ) (for_policy : Bool) (now : ℕ) (m : ProjectMemory F)
        → Change m (contradicted fl s f for_policy now m)
    be_used : (now : ℕ) (m : ProjectMemory F) → Change m (record m { last_used_at = some now })
    stale : (reason : String) (m : ProjectMemory F) → Change m (marked_stale fl reason m)
    expire : (m : ProjectMemory F) → Change m (ttl_expired fl m)
    tell_stale :
        (reason : String) (for_policy : Bool) (m : ProjectMemory F)
        → Change m (feedback_stale fl reason for_policy m)
    tell_positive :
        (is_validation was_used : Bool) (now : ℕ) (m : ProjectMemory F)
        → Change m (feedback_positive fl is_validation was_used now m)

  module _ (ordered : IsOrdered fl) where
    pub reflexive : (f : F) → fl.leb f f ≡ true
    reflexive f = elim (Bool-cases (fl.leb f f)) [ inl le ↦ le | inr n ↦ ordered.total f f n ]

    pub clamp-Within :
        (value : F) (high : ℕ)
        → Within (clamp fl value (fl.hundredths 0) (fl.hundredths high)) 0 high
    unfolding clamp
    clamp-Within value high =
        let top = fl.hundredths high in
        let bottom = fl.hundredths 0 in
        let apart = ordered.monotone 0 high (omega arith) in
        elim (Bool-cases (fl.leb top value)) [
          | inl above ↦ rw above (raise top apart (reflexive top))
          | inr below ↦ rw below (raise value apart (ordered.total top value below))
        ]
      where
        raise :
            (x : F)
            → fl.leb (fl.hundredths 0) (fl.hundredths high) ≡ true
            → fl.leb x (fl.hundredths high) ≡ true
            → Within (max_float fl (fl.hundredths 0) x) 0 high
        raise x apart le = elim (Bool-cases (fl.leb x (fl.hundredths 0))) [
          | inl low ↦ rw low (reflexive (fl.hundredths 0), apart)
          | inr up ↦ rw up (ordered.total x (fl.hundredths 0) up, le)
        ]

    min_float-Within : (f : F) → Within f 0 95 → Within (min_float fl f (fl.hundredths 10)) 0 95
    min_float-Within f h = elim (Bool-cases (fl.leb f (fl.hundredths 10))) [
      | inl le ↦ rw le h
      | inr more ↦
          rw more (ordered.monotone 0 10 (omega arith), ordered.monotone 10 95 (omega arith))
    ]

    count_validation-IsScored :
        (b : Bool) (now : ℕ) (m : ProjectMemory F)
        → IsScored m
        → IsScored (count_validation fl b now m)
    count_validation-IsScored true now m h = record {
      confidence = h.confidence;
      staleness = h.staleness;
    }
    count_validation-IsScored false now m h = h

    -- Every change of the service keeps the scores of a memory in their bounds: the confidence
    -- between 0 and 0.95, the staleness between 0 and 1.
    pub Change-IsScored : (m n : ProjectMemory F) → Change m n → IsScored m → IsScored n
    unfolding updated validated rejected_by_user contradicted marked_stale ttl_expired
        feedback_stale feedback_positive
    Change-IsScored _ _ (update p s m) h = record {
      confidence = h.confidence;
      staleness = h.staleness;
    }
    Change-IsScored _ _ (validate now m) h = record {
      confidence = clamp-Within _ 95;
      staleness = clamp-Within _ 100;
    }
    Change-IsScored _ _ (reject m) h = record {
      confidence = min_float-Within m.confidence h.confidence;
      staleness = (ordered.monotone 0 100 (omega arith), reflexive (fl.hundredths 100));
    }
    Change-IsScored _ _ (contradict s f for_policy now m) h = record {
      confidence = clamp-Within _ 95;
      staleness = clamp-Within _ 100;
    }
    Change-IsScored _ _ (be_used now m) h = record {
      confidence = h.confidence;
      staleness = h.staleness;
    }
    Change-IsScored _ _ (stale reason m) h = record {
      confidence = h.confidence;
      staleness = clamp-Within _ 100;
    }
    Change-IsScored _ _ (expire m) h = record {
      confidence = h.confidence;
      staleness = clamp-Within _ 100;
    }
    Change-IsScored _ _ (tell_stale reason for_policy m) h = record {
      confidence = h.confidence;
      staleness = clamp-Within _ 100;
    }
    Change-IsScored _ _ (tell_positive is_validation was_used now m) h =
        let k =
          count_validation-IsScored is_validation now (confirmed_scores fl is_validation was_used m)
            (record { confidence = clamp-Within _ 95; staleness = clamp-Within _ 100 }) in
        record { confidence = k.confidence; staleness = k.staleness }
