-- ===== src/Agent/Memory/Requests.antt =====
-- What the requests and workers of app/services/agent_memory_service.py that change one memory at
-- a time keep.
use test_platform_backend.Prelude.{
  ℕ, inl, inr, String, Bool, false, Option, none, some, List, select, Bool-cases, Option-cases,
}
use test_platform_backend.Permission.{User, Access, has_code, require_project_access}
use test_platform_backend.Session.{request, Result-split}
use test_platform_backend.Agent.Memory.{Floats, ProjectMemory, SourceProfile}
use test_platform_backend.Agent.Memory.Change.{validated, rejected_by_user, contradicted}
use test_platform_backend.Agent.Memory.Rows.{
  MemoryRef, MemoryRows, ensure_source_profiles, get_retrieval_profile, ensure_retrieval_profiles,
}
use test_platform_backend.Agent.Memory.Manage.{
  memory_by_id, get_memory_for_update, replace_links, validate_memory, reject_memory,
  parse_severity, record_contradiction,
}
use test_platform_backend.Agent.Memory.Workers.{
  links_to, non_stale_memory_events, mark_memories_stale_for_ref, expired_memories,
  process_expired_ttl,
}
use test_platform_backend.Agent.Memory.Feedback.{due_events, process_due}
use test_platform_backend.Agent.Memory.Scores.{Change, validate, reject, contradict, be_used}
use test_platform_backend.Agent.Memory.Kept.{
  Holds, update_where-All, change_memory-Holds, mark_links-Holds, expire_all-Holds,
  process_events-Holds,
}
use test_platform_backend.Agent.Memory.Gate.{is_among, selected, retrieve}
use test_platform_backend.Agent.Memory.Gate.Ranked.{profile_named, of_project}
use text.Mathlib.Text.{◌==◌ as str_eq}

module _ {F : Type 0} (fl : Floats F) (P : ProjectMemory F → Type 0) (R : SourceProfile F → Type 0)
    (kept : (m n : ProjectMemory F) → Change fl m n → P m → P n) where
  module _ (u : User) (access : ℕ → Access) (id : ℕ) (d : MemoryRows F)
      (h : Holds fl P R kept d) where
    pub validate_memory-Holds :
        (now : ℕ) → Holds fl P R kept (request (validate_memory fl u access id now) d).1
    unfolding validate_memory get_memory_for_update
    validate_memory-Holds now = elim (Option-cases (memory_by_id id d)) [
      | inl absent ↦ rw absent h
      | inr (m, there) ↦ elim (Result-split (require_project_access u (access m.project_id))) [
        | inr (e, denied) ↦ rw (there, denied) h
        | inl (a, may) ↦ elim (Bool-cases (str_eq m.source_type "repair_inferred")) [
          | inl repair ↦ rw (there, may, repair) h
          | inr other ↦
              rw (there, may, other)
                (change_memory-Holds fl P R kept id (validated fl now) (validate now) d h)
        ]
      ]
    ]

    pub reject_memory-Holds : Holds fl P R kept (request (reject_memory fl u access id) d).1
    unfolding reject_memory get_memory_for_update
    reject_memory-Holds = elim (Option-cases (memory_by_id id d)) [
      | inl absent ↦ rw absent h
      | inr (m, there) ↦ elim (Result-split (require_project_access u (access m.project_id))) [
        | inr (e, denied) ↦ rw (there, denied) h
        | inl (a, may) ↦
            rw (there, may) (change_memory-Holds fl P R kept id (rejected_by_user fl) reject d h)
      ]
    ]

    pub record_contradiction-Holds :
        (severity : String) (fingerprint : Option ℕ) (now : ℕ)
        → Holds fl P R kept
            (request (record_contradiction fl u access id severity fingerprint now) d).1
    unfolding record_contradiction get_memory_for_update
    record_contradiction-Holds severity fingerprint now = elim (Option-cases (memory_by_id id d)) [
      | inl absent ↦ rw absent h
      | inr (m, there) ↦ elim (Result-split (require_project_access u (access m.project_id))) [
        | inr (e, denied) ↦ rw (there, denied) h
        | inl (a, may) ↦ elim (Option-cases (parse_severity severity)) [
          | inl unknown ↦ rw (there, may, unknown) h
          | inr (s, known) ↦
              rw (there, may, known)
                (change_memory-Holds fl P R kept id (contradicted fl s fingerprint false now)
                  (contradict s fingerprint false now) d h)
        ]
      ]
    ]

    pub replace_links-Holds :
        (refs : Option (List MemoryRef)) (d : MemoryRows F)
        → Holds fl P R kept d
        → Holds fl P R kept (replace_links fl id refs d)
    replace_links-Holds none d h = h
    replace_links-Holds (some refs) d h = h

  pub mark_memories_stale_for_ref-Holds :
      (kind : String) (id : ℕ) (reason : String) (d : MemoryRows F)
      → Holds fl P R kept d
      → Holds fl P R kept (request (mark_memories_stale_for_ref fl kind id reason) d).1
  unfolding mark_memories_stale_for_ref
  mark_memories_stale_for_ref-Holds kind id reason d h =
      elim (Bool-cases (has_code reason non_stale_memory_events)) [
        | inl bad ↦ rw bad h
        | inr good ↦
            rw good (mark_links-Holds fl P R kept reason (select (links_to kind id) d.links) d h)
      ]

  pub process_expired_ttl-Holds :
      (now : ℕ) (project : Option ℕ) (limit : ℕ) (d : MemoryRows F)
      → Holds fl P R kept d
      → Holds fl P R kept (request (process_expired_ttl fl now project limit) d).1
  unfolding process_expired_ttl
  process_expired_ttl-Holds now project limit d h =
      expire_all-Holds fl P R kept (expired_memories fl now project limit d) d h

  pub process_due-Holds :
      (now limit : ℕ) (d : MemoryRows F)
      → Holds fl P R kept d
      → Holds fl P R kept (request (process_due fl now limit) d).1
  unfolding process_due
  process_due-Holds now limit d h = process_events-Holds fl P R kept now (due_events fl limit d) d h

  pub retrieve-Holds :
      (score : ProjectMemory F → F) (now : ℕ) (u : User) (access : Access) (project : ℕ)
      (name : String) (high_risk : Bool) (role : String) (fresh : ℕ → ℕ) (limit : ℕ)
      (d : MemoryRows F)
      → Holds fl P R kept d
      → Holds fl P R kept
          (request (retrieve fl score now u access project name high_risk role fresh limit) d).1
  unfolding retrieve get_retrieval_profile ensure_retrieval_profiles
  retrieve-Holds score now u access project name high_risk role fresh limit d h =
      elim (Result-split (require_project_access u access)) [
        | inr (e, refused) ↦ rw refused h
        | inl (a, may) ↦ elim (Option-cases (profile_named fl score d name)) [
          | inl absent ↦ rw (may, absent) h
          | inr (p, there) ↦
              let chosen =
                selected fl score now (ensure_source_profiles fl d).source_profiles p high_risk
                  limit (of_project fl score project d) in
              rw (may, there)
                (
                  update_where-All fl P R kept (is_among fl score chosen)
                      (λ (m : ProjectMemory F). record m { last_used_at = some now }) d.memories
                      (be_used now) h.0,
                  h.1,
                )
        ]
      ]
