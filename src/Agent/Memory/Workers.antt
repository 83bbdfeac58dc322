-- ===== src/Agent/Memory/Workers.antt =====
-- `MemoryStalenessWorker` and `MemoryMaintenanceWorker` of app/services/agent_memory_service.py.
use test_platform_backend.Prelude.{
  ℕ, ◌+◌, String, Bool, true, false, ◌&&◌, ◌||◌, not, Option, none, some, List, [], ◌∷◌, select,
  take, ltb, leb, length, ◌==◌, update_where, if◌then◌else◌,
}
use test_platform_backend.Permission.{has_code}
use test_platform_backend.Session.{
  Exec, http, unprocessable, memory_event_not_stale_event, require, pure, modify, commit, gets,
  ◌>>=◌, ◌>>◌,
}
use test_platform_backend.Agent.Memory.{Floats, MemoryStatus, rejected, archived, ProjectMemory}
use test_platform_backend.Agent.Memory.Change.{marked_stale, ttl_expired}
use test_platform_backend.Agent.Memory.Rows.{EvidenceLink, MemoryRows}
use test_platform_backend.Agent.Memory.Manage.{memory_by_id, change_memory}
use text.Mathlib.Text.{◌==◌ as str_eq}

abbrev pub is_rejected : MemoryStatus → Bool
is_rejected rejected = true
is_rejected _ = false

abbrev pub is_archived : MemoryStatus → Bool
is_archived archived = true
is_archived _ = false

-- NON_STALE_MEMORY_EVENTS
abbrev pub non_stale_memory_events : List String
non_stale_memory_events =
    "execution_record.created" ∷ "permission.changed" ∷ "memory.status_changed" ∷ []

abbrev pub links_to : String → ℕ → EvidenceLink → Bool
links_to kind id l = str_eq l.evidence.ref_type kind && l.evidence.ref_id == id

module _ {F : Type 0} (fl : Floats F) where
  -- The loop's body for the memory of a link.
  abbrev pub touch : String → Option (ProjectMemory F) → MemoryRows F → MemoryRows F × ℕ
  touch reason none d = (d, 0)
  touch reason (some m) d = if is_rejected m.status then (d, 0) else (
    record d {
      memories =
          update_where (λ (x : ProjectMemory F). x.id == m.id) (marked_stale fl reason) d.memories;
      stalenesses =
          record {
            memory_id = m.id;
            stale_reason = reason;
            previous_stale_score = m.stale_score;
            new_stale_score = (marked_stale fl reason m).stale_score;
            previous_status = m.status;
            new_status = (marked_stale fl reason m).status;
          }
          ∷ d.stalenesses;
    },
    1,
  )

  -- The loop over the links; the second part counts the memories touched.
  unfoldable pub mark_links : String → List EvidenceLink → MemoryRows F → MemoryRows F × ℕ
  unfolding marked_stale
  mark_links reason [] d = (d, 0)
  mark_links reason (l ∷ ls) d =
      let (d', n) = touch reason (memory_by_id l.memory_id d) d in
      let (d'', k) = mark_links reason ls d' in (d'', n + k)

  -- `mark_memories_stale_for_ref`
  unfoldable pub mark_memories_stale_for_ref : String → ℕ → String → Exec (MemoryRows F) ℕ
  unfolding mark_links
  mark_memories_stale_for_ref kind id reason = do
    require (not (has_code reason non_stale_memory_events))
        (http unprocessable (some memory_event_not_stale_event))
    d ← gets (λ (d : MemoryRows F). d)
    let (d', touched) = mark_links reason (select (links_to kind id) d.links) d
    modify (λ _. d')
    commit
    pure touched

  abbrev pub is_due : Option ℕ → ℕ → Bool
  is_due none now = false
  is_due (some time) now = leb time now

  abbrev pub in_project : Option ℕ → ℕ → Bool
  in_project none project = true
  in_project (some p) project = project == p

  -- The conditions of the query.
  unfoldable pub is_expired : ℕ → Option ℕ → ProjectMemory F → Bool
  is_expired now project m =
      is_due m.expires_at now
      && m.validation_count == 0
      && not (is_rejected m.status || is_archived m.status)
      && in_project project m.project_id

  abbrev time_or : Option ℕ → ℕ
  time_or none = 0
  time_or (some time) = time

  abbrev pub expires_before : ProjectMemory F → ProjectMemory F → Bool
  expires_before m n =
      ltb (time_or m.expires_at) (time_or n.expires_at)
      || time_or m.expires_at == time_or n.expires_at && leb m.id n.id

  -- `order_by(expires_at, id)`
  unfoldable pub insert_expired : ProjectMemory F → List (ProjectMemory F) → List (ProjectMemory F)
  insert_expired m [] = m ∷ []
  insert_expired m (n ∷ ns) =
      let rest = insert_expired m ns in if expires_before m n then m ∷ n ∷ ns else n ∷ rest

  unfoldable pub by_expiry : List (ProjectMemory F) → List (ProjectMemory F)
  unfolding insert_expired
  by_expiry [] = []
  by_expiry (m ∷ ms) = insert_expired m (by_expiry ms)

  unfoldable pub expired_memories : ℕ → Option ℕ → ℕ → MemoryRows F → List (ProjectMemory F)
  unfolding is_expired by_expiry
  expired_memories now project limit d =
      take limit (by_expiry (select (is_expired now project) d.memories))

  abbrev pub expire_all : List (ProjectMemory F) → MemoryRows F → MemoryRows F
  expire_all [] d = d
  expire_all (m ∷ ms) d = expire_all ms (change_memory m.id (ttl_expired fl) d)

  -- `process_expired_ttl`, with how many memories it processed
  unfoldable pub process_expired_ttl : ℕ → Option ℕ → ℕ → Exec (MemoryRows F) ℕ
  unfolding expired_memories ttl_expired
  process_expired_ttl now project limit = do
    d ← gets (λ (d : MemoryRows F). d)
    let ms = expired_memories now project limit d
    modify (expire_all ms)
    commit
    pure (length ms)
