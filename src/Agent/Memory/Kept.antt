-- ===== src/Agent/Memory/Kept.antt =====
-- What holds of every memory through all requests and workers of
-- app/services/agent_memory_service.py.
use test_platform_backend.Prelude.{
  ℕ, inl, inr, String, Bool, true, false, ◌||◌, Option, none, some, List, [], ◌∷◌, ◌==◌,
  update_where, All, Bool-cases,
}
use test_platform_backend.Permission.{has_code}
use test_platform_backend.Agent.Memory.{Floats, ProjectMemory, SourceProfile}
use test_platform_backend.Agent.Memory.Change.{
  contradicted, marked_stale, ttl_expired, feedback_stale, feedback_positive,
}
use test_platform_backend.Agent.Memory.Rows.{EvidenceLink, UsageEvent, MemoryRows}
use test_platform_backend.Agent.Memory.Manage.{memory_by_id, change_memory}
use test_platform_backend.Agent.Memory.Workers.{is_rejected, touch, mark_links, expire_all}
use test_platform_backend.Agent.Memory.Feedback.{
  outcome_of, severity_of, positive_outcomes, stale_outcomes, contradiction_outcomes, feed,
  feed_found, process_usage_event, process_events,
}
use test_platform_backend.Agent.Memory.Scores.{
  Change, contradict, stale, expire, tell_stale, tell_positive,
}
use Prim.Native.String.{◌++◌ as append}
use text.Mathlib.Text.{◌==◌ as str_eq}

module _ {F : Type 0} (fl : Floats F) (P : ProjectMemory F → Type 0) (R : SourceProfile F → Type 0)
    (kept : (m n : ProjectMemory F) → Change fl m n → P m → P n) where
  -- The memories have the first property, and the profiles of the sources the second.
  abbrev pub Holds : MemoryRows F → Type 0
  Holds d = All P d.memories × All R d.source_profiles

  pub update_where-All :
      (test : ProjectMemory F → Bool) (f : ProjectMemory F → ProjectMemory F)
      (ms : List (ProjectMemory F))
      → ((m : ProjectMemory F) → Change fl m (f m))
      → All P ms
      → All P (update_where test f ms)
  update_where-All test f [] step h = tt
  update_where-All test f (m ∷ ms) step h = elim (Bool-cases (test m)) [
    | inl hit ↦ rw hit (kept m (f m) (step m) h.0, update_where-All test f ms step h.1)
    | inr miss ↦ rw miss (h.0, update_where-All test f ms step h.1)
  ]

  pub change_memory-Holds :
      (id : ℕ) (f : ProjectMemory F → ProjectMemory F)
      → ((m : ProjectMemory F) → Change fl m (f m))
      → (d : MemoryRows F) → Holds d
      → Holds (change_memory id f d)
  change_memory-Holds id f step d h =
      (update_where-All (λ (m : ProjectMemory F). m.id == id) f d.memories step h.0, h.1)

  touch-Holds :
      (reason : String) (found : Option (ProjectMemory F)) (d : MemoryRows F)
      → Holds d
      → Holds (touch fl reason found d).0
  touch-Holds reason none d h = h
  touch-Holds reason (some m) d h = elim (Bool-cases (is_rejected m.status)) [
    | inl out ↦ rw out h
    | inr in_use ↦ rw in_use (change_memory-Holds m.id (marked_stale fl reason) (stale reason) d h)
  ]

  pub mark_links-Holds :
      (reason : String) (links : List EvidenceLink) (d : MemoryRows F)
      → Holds d
      → Holds (mark_links fl reason links d).0
  unfolding mark_links
  mark_links-Holds reason [] d h = h
  mark_links-Holds reason (l ∷ ls) d h =
      mark_links-Holds reason ls (touch fl reason (memory_by_id l.memory_id d) d).0
        (touch-Holds reason (memory_by_id l.memory_id d) d h)

  pub expire_all-Holds :
      (ms : List (ProjectMemory F)) (d : MemoryRows F) → Holds d → Holds (expire_all fl ms d)
  expire_all-Holds [] d h = h
  expire_all-Holds (m ∷ ms) d h =
      expire_all-Holds ms (change_memory m.id (ttl_expired fl) d)
        (change_memory-Holds m.id (ttl_expired fl) expire d h)

  feed-Holds :
      (now : ℕ) (e : UsageEvent) (m : ProjectMemory F) (d : MemoryRows F)
      → Holds d
      → Holds (feed fl now e m d).0
  feed-Holds now e m d h =
      let was_used = e.active_for_policy || e.caused_tool_input_change in
      elim (Bool-cases (has_code (outcome_of e) positive_outcomes)) [
        | inl positive ↦ rw positive (elim (Bool-cases (str_eq (outcome_of e) "validated")) [
          | inl same ↦ rw same (
              change_memory-Holds m.id (feedback_positive fl true was_used now)
                (tell_positive true was_used now) d h)
          | inr other ↦ rw other (
              change_memory-Holds m.id (feedback_positive fl false was_used now)
                (tell_positive false was_used now) d h)
        ])
        | inr p ↦ elim (Bool-cases (has_code (outcome_of e) stale_outcomes)) [
          | inl s ↦
              rw (p, s)
                (change_memory-Holds m.id
                  (feedback_stale fl (append "memory_feedback." (outcome_of e)) e.active_for_policy)
                  (tell_stale (append "memory_feedback." (outcome_of e)) e.active_for_policy) d h)
          | inr s ↦ elim (Bool-cases (has_code (outcome_of e) contradiction_outcomes)) [
            | inl c ↦
                rw (p, s, c)
                  (change_memory-Holds m.id
                    (contradicted fl (severity_of e) e.fingerprint e.active_for_policy now)
                    (contradict (severity_of e) e.fingerprint e.active_for_policy now) d h)
            | inr c ↦ rw (p, s, c) h
          ]
        ]
      ]

  feed_found-Holds :
      (now : ℕ) (e : UsageEvent) (found : Option (ProjectMemory F)) (d : MemoryRows F)
      → Holds d
      → Holds (feed_found fl now e found d).0
  feed_found-Holds now e none d h = h
  feed_found-Holds now e (some m) d h = elim (Bool-cases (is_rejected m.status)) [
    | inl out ↦ rw out h
    | inr in_use ↦ rw in_use (feed-Holds now e m d h)
  ]

  pub process_events-Holds :
      (now : ℕ) (es : List UsageEvent) (d : MemoryRows F)
      → Holds d
      → Holds (process_events fl now es d).0
  unfolding process_events process_usage_event
  process_events-Holds now [] d h = h
  process_events-Holds now (e ∷ es) d h =
      process_events-Holds now es (process_usage_event fl now e d).0
        (feed_found-Holds now e (memory_by_id e.memory_id d) d h)
