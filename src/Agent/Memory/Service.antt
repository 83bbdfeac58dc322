-- ===== src/Agent/Memory/Service.antt =====
-- The requests and workers of app/services/agent_memory_service.py together, and what they keep.
use test_platform_backend.Prelude.{
  ℕ, ◌≤◌, ◌≡◌, inl, inr, String, Bool, true, ◌&&◌, not, Option, none, some, List, ◌++◌, map, select,
  All, All-Has, All-of_Has, Has-of_select, Has-split, find_cases, Bool-cases, Option-cases, arith,
}
use test_platform_backend.Permission.{User, Access, has_code, require_project_access}
use test_platform_backend.Session.{
  request, Result-split, Result-cases, lift, modify, commit, ◌>>=◌, ◌>>◌,
}
use test_platform_backend.Agent.Memory.{Floats, IsOrdered, ProjectMemory, SourceProfile}
use test_platform_backend.Agent.Memory.Rows.{
  MemoryRows, default_source_profiles, ensure_source_profiles, source_profile, get_source_profile,
}
use test_platform_backend.Agent.Memory.Manage.{
  SourceRef, MemoryRequest, MemoryUpdate, memory_by_id, change_memory, get_memory_for_update,
  new_memory, is_given, validate_source_ref_requirements, validate_source_evidence_requirements,
  create_memory, check_source_ref, check_evidence, wanted_status, replace_links, updated,
  update_memory, validate_memory, reject_memory, record_contradiction,
}
use test_platform_backend.Agent.Memory.Gate.{retrieve}
use test_platform_backend.Agent.Memory.Workers.{mark_memories_stale_for_ref, process_expired_ttl}
use test_platform_backend.Agent.Memory.Feedback.{process_due}
use test_platform_backend.Agent.Memory.Scores.{
  Change, update, IsScored, Within, Change-IsScored, reflexive,
}
use test_platform_backend.Agent.Memory.Kept.{Holds, change_memory-Holds}
use test_platform_backend.Agent.Memory.Requests.{
  validate_memory-Holds, reject_memory-Holds, record_contradiction-Holds, replace_links-Holds,
  mark_memories_stale_for_ref-Holds, process_expired_ttl-Holds, process_due-Holds, retrieve-Holds,
}
use text.Mathlib.Text.{◌==◌ as str_eq}

-- One request or one run of a worker: the tables before it, and those that it leaves.
pub data Served {F : Type 0} (fl : Floats F) : MemoryRows F → MemoryRows F → Type 0 where
  created :
      (u : User) (access : Access) (project : ℕ) (p : MemoryRequest) (now fresh : ℕ)
      (d : MemoryRows F)
      → Served fl d (request (create_memory fl u access project p now fresh) d).1
  updated_by :
      (u : User) (access : ℕ → Access) (id : ℕ) (p : MemoryUpdate) (d : MemoryRows F)
      → Served fl d (request (update_memory fl u access id p) d).1
  validated_by :
      (u : User) (access : ℕ → Access) (id now : ℕ) (d : MemoryRows F)
      → Served fl d (request (validate_memory fl u access id now) d).1
  rejected_by :
      (u : User) (access : ℕ → Access) (id : ℕ) (d : MemoryRows F)
      → Served fl d (request (reject_memory fl u access id) d).1
  contradicted_by :
      (u : User) (access : ℕ → Access) (id : ℕ) (severity : String) (fingerprint : Option ℕ)
      (now : ℕ) (d : MemoryRows F)
      → Served fl d (request (record_contradiction fl u access id severity fingerprint now) d).1
  retrieved :
      (score : ProjectMemory F → F) (now : ℕ) (u : User) (access : Access) (project : ℕ)
      (name : String) (high_risk : Bool) (role : String) (fresh : ℕ → ℕ) (limit : ℕ)
      (d : MemoryRows F)
      → Served fl d
          (request (retrieve fl score now u access project name high_risk role fresh limit) d).1
  marked :
      (kind : String) (id : ℕ) (reason : String) (d : MemoryRows F)
      → Served fl d (request (mark_memories_stale_for_ref fl kind id reason) d).1
  expired :
      (now : ℕ) (project : Option ℕ) (limit : ℕ) (d : MemoryRows F)
      → Served fl d (request (process_expired_ttl fl now project limit) d).1
  fed_back :
      (now limit : ℕ) (d : MemoryRows F) → Served fl d (request (process_due fl now limit) d).1

module _ {F : Type 0} (fl : Floats F) (P : ProjectMemory F → Type 0) (R : SourceProfile F → Type 0)
    (kept : (m n : ProjectMemory F) → Change fl m n → P m → P n) where
  module _ (seeded : All R (default_source_profiles fl)) where
    ensure_source_profiles-Holds :
        (d : MemoryRows F) → Holds fl P R kept d → Holds fl P R kept (ensure_source_profiles fl d)
    unfolding ensure_source_profiles
    ensure_source_profiles-Holds d h = (
      h.0,
      All-of_Has R (d.source_profiles ++ new) (λ r there.
          elim (Has-split r d.source_profiles new there) [
            | inl old ↦ All-Has R r d.source_profiles h.1 old
            | inr more ↦
                All-Has R r (default_source_profiles fl) seeded
                  (Has-of_select r (λ (p : SourceProfile F). not (has_code p.source_type existing))
                    (default_source_profiles fl) more).0
          ]),
    )
      where
        existing : List String
        existing = map (λ (p : SourceProfile F). p.source_type) d.source_profiles

        new : List (SourceProfile F)
        new =
            select (λ (p : SourceProfile F). not (has_code p.source_type existing))
              (default_source_profiles fl)

    module _ (u : User) (access : ℕ → Access) (id : ℕ) (p : MemoryUpdate) (d : MemoryRows F)
        (h : Holds fl P R kept d) where
      -- The rest of `update_memory`, from rows that may have been seeded.
      update_rest-Holds :
          (m : ProjectMemory F) (d' : MemoryRows F)
          → Holds fl P R kept d'
          → Holds fl P R kept
              ((do
                lift (check_evidence fl m.source_type p.evidence_refs)
                status ← lift (wanted_status m.source_type p.status_value)
                modify (replace_links fl id p.evidence_refs)
                modify (change_memory id (updated fl p status))
                commit)
                (record { saved = d; work = d' })).1.saved
      update_rest-Holds m d' h' =
          elim (Result-cases (check_evidence fl m.source_type p.evidence_refs)) [
            | inr (e, bad) ↦ rw bad h
            | inl good ↦ elim (Result-split (wanted_status m.source_type p.status_value)) [
              | inr (e, bad) ↦ rw (good, bad) h
              | inl (s, fine) ↦
                  rw (good, fine)
                    (change_memory-Holds fl P R kept id (updated fl p s) (update p s)
                      (replace_links fl id p.evidence_refs d')
                      (replace_links-Holds fl P R kept u access id d h p.evidence_refs d' h'))
            ]
          ]

      checked_rest-Holds :
          (m : ProjectMemory F) (ref : Option SourceRef)
          → Holds fl P R kept
              ((do
                check_source_ref fl m.source_type ref
                lift (check_evidence fl m.source_type p.evidence_refs)
                status ← lift (wanted_status m.source_type p.status_value)
                modify (replace_links fl id p.evidence_refs)
                modify (change_memory id (updated fl p status))
                commit)
                (record { saved = d; work = d })).1.saved
      unfolding get_source_profile
      checked_rest-Holds m none = update_rest-Holds m d h
      checked_rest-Holds m (some ref) =
          let d' = ensure_source_profiles fl d in
          elim (Option-cases (source_profile fl d'.source_profiles m.source_type)) [
            | inl no_profile ↦ rw no_profile h
            | inr (profile, known) ↦
                elim (Result-cases (
                  validate_source_ref_requirements m.source_type (some ref)
                    profile.requires_content_hash)) [
                      | inr (e, bad) ↦ rw (known, bad) h
                      | inl good ↦
                          rw (known, good)
                            (update_rest-Holds m d' (ensure_source_profiles-Holds d h))
                    ]
          ]

      update_memory-Holds : Holds fl P R kept (request (update_memory fl u access id p) d).1
      unfolding update_memory get_memory_for_update
      update_memory-Holds = elim (Option-cases (memory_by_id id d)) [
        | inl absent ↦ rw absent h
        | inr (m, there) ↦ elim (Result-split (require_project_access u (access m.project_id))) [
          | inr (e, denied) ↦ rw (there, denied) h
          | inl (a, may) ↦ rw (there, may) (checked_rest-Holds m p.source_ref)
        ]
      ]

    module _
        (made : (p : MemoryRequest) (profile : SourceProfile F) (project now fresh : ℕ)
          → R profile
          → P (new_memory fl p profile project now fresh)) where
      create_memory-Holds :
          (u : User) (access : Access) (project : ℕ) (p : MemoryRequest) (now fresh : ℕ)
          (d : MemoryRows F)
          → Holds fl P R kept d
          → Holds fl P R kept (request (create_memory fl u access project p now fresh) d).1
      unfolding create_memory get_source_profile
      create_memory-Holds u access project p now fresh d h =
          let d' = ensure_source_profiles fl d in
          let h' = ensure_source_profiles-Holds d h in
          elim (Result-split (require_project_access u access)) [
            | inr (e, denied) ↦ rw denied h
            | inl (a, may) ↦
                elim (find_cases
                  (λ (q : SourceProfile F). str_eq q.source_type p.source_type && q.is_active)
                  d'.source_profiles) [
                    | inr (absent, _) ↦ rw (may, absent) h
                    | inl (profile, known, _, there) ↦
                        elim (Bool-cases
                          (profile.requires_source_ref && not (is_given p.source_ref))) [
                            | inl bad ↦ rw (may, known, bad) h
                            | inr ok₁ ↦
                                elim (Result-cases (
                                  validate_source_ref_requirements p.source_type p.source_ref
                                    profile.requires_content_hash)) [
                                      | inr (e, bad) ↦ rw (may, known, ok₁, bad) h
                                      | inl ok₂ ↦
                                          elim (Result-cases (
                                            validate_source_evidence_requirements p.source_type
                                              p.evidence_refs)) [
                                                | inr (e, bad) ↦ rw (may, known, ok₁, ok₂, bad) h
                                                | inl ok₃ ↦
                                                    rw (may, known, ok₁, ok₂, ok₃)
                                                      (
                                                        (
                                                          made p profile project now fresh (
                                                            All-Has R profile d'.source_profiles
                                                            h'.1 there),
                                                          h'.0,
                                                        ),
                                                        h'.1,
                                                      )
                                              ]
                                    ]
                          ]
                  ]
          ]

      Served-Holds :
          (before after : MemoryRows F)
          → Served fl before after
          → Holds fl P R kept before
          → Holds fl P R kept after
      Served-Holds _ _ (created u access project p now fresh d) h =
          create_memory-Holds u access project p now fresh d h
      Served-Holds _ _ (updated_by u access id p d) h = update_memory-Holds u access id p d h
      Served-Holds _ _ (validated_by u access id now d) h =
          validate_memory-Holds fl P R kept u access id d h now
      Served-Holds _ _ (rejected_by u access id d) h =
          reject_memory-Holds fl P R kept u access id d h
      Served-Holds _ _ (contradicted_by u access id severity fingerprint now d) h =
          record_contradiction-Holds fl P R kept u access id d h severity fingerprint now
      Served-Holds _ _ (retrieved score now u access project name high_risk role fresh limit d) h =
          retrieve-Holds fl P R kept score now u access project name high_risk role fresh limit d h
      Served-Holds _ _ (marked kind id reason d) h =
          mark_memories_stale_for_ref-Holds fl P R kept kind id reason d h
      Served-Holds _ _ (expired now project limit d) h =
          process_expired_ttl-Holds fl P R kept now project limit d h
      Served-Holds _ _ (fed_back now limit d) h = process_due-Holds fl P R kept now limit d h

-- A request or a run of a worker leaves the scores of every memory in their bounds, the confidence
-- between 0 and 0.95 and the staleness between 0 and 1, if they were and if the confidence that a
-- profile gives to a new memory is; the profiles stay so.
pub Served-IsScored :
    {F : Type 0} (fl : Floats F) (ordered : IsOrdered fl) (before after : MemoryRows F)
    → Served fl before after
    → All (IsScored fl) before.memories
    → All (λ (p : SourceProfile F). Within fl p.initial_confidence 0 95) before.source_profiles
    → All (IsScored fl) after.memories
      × All (λ (p : SourceProfile F). Within fl p.initial_confidence 0 95) after.source_profiles
Served-IsScored fl ordered before after step scored profiles =
    let given : (m n : ℕ) → m ≤ n → fl.leb (fl.hundredths m) (fl.hundredths n) ≡ true =
      ordered.monotone in
    let within : (n : ℕ) → n ≤ 95 → Within fl (fl.hundredths n) 0 95 =
      λ n le. (given 0 n (omega arith), given n 95 le) in
    Served-Holds fl (IsScored fl) (λ p. Within fl p.initial_confidence 0 95)
      (Change-IsScored fl ordered)
      (
        within 85 (omega arith),
        (
          within 70 (omega arith),
          (
            within 75 (omega arith),
            (within 45 (omega arith), (within 40 (omega arith), (within 55 (omega arith), tt))),
          ),
        ),
      )
      (λ p profile project now fresh r. record {
        confidence = r;
        staleness = (reflexive fl ordered (fl.hundredths 0), given 0 100 (omega arith));
      })
      before after step (scored, profiles)
