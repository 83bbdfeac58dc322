-- ===== src/Agent/Memory/Gate.antt =====
-- `retrieve` of app/services/agent_memory_service.py, with its gate. The score of a memory
-- (`_retrieval_score`, on floats) is an argument.
pub mod Safe
pub mod Ranked
use test_platform_backend.Prelude.{
  ℕ, ◌+◌, String, Bool, true, false, ◌&&◌, ◌||◌, not, Option, none, some, List, [], ◌∷◌, ◌++◌, map,
  select, find, elem, take, ltb, ◌==◌, update_where, if◌then◌else◌,
}
use test_platform_backend.Permission.{has_code, User, Access, require_project_access}
use test_platform_backend.Session.{
  Exec, http, unprocessable, memory_retrieval_profile_missing, some_or, pure, modify, commit, gets,
  lift, ◌>>=◌, ◌>>◌,
}
use test_platform_backend.Agent.Memory.{
  Floats, MemoryStatus, active, needs_revalidation, ProjectMemory, SourceProfile, RetrievalProfile,
}
use test_platform_backend.Agent.Memory.Rows.{
  MemoryRows, UsageEvent, pending, ensure_source_profiles, source_profile, get_retrieval_profile,
}
use text.Mathlib.Text.{◌==◌ as str_eq}

-- Why a memory is left out.
pub data GateReason : Type 0 where
  status_not_retrievable expired environment_updated low_confidence stale_score_high : GateReason
  profile_disallows_high_risk source_profile_missing source_disallows_high_risk : GateReason
  agent_memory_disallowed_for_high_risk : GateReason

abbrev pub is_retrievable : MemoryStatus → Bool
is_retrievable active = true
is_retrievable needs_revalidation = true
is_retrievable _ = false

abbrev pub passed : Option ℕ → ℕ → Bool
passed none now = false
passed (some time) now = ltb time now

abbrev pub is_environment_updated : Option String → Bool
is_environment_updated none = false
is_environment_updated (some reason) = str_eq reason "environment.updated"

abbrev pub unless_filtered : Bool → GateReason → Option GateReason → Option GateReason
unless_filtered bad reason rest = if bad then some reason else rest

module _ {F : Type 0} where
  -- What a high-risk task asks of the source, and of who wrote the memory.
  unfoldable pub source_gate : Option (SourceProfile F) → String → Option GateReason
  source_gate none authority = some source_profile_missing
  source_gate (some p) authority =
      unless_filtered (not p.allowed_for_high_risk) source_disallows_high_risk
        (unless_filtered (str_eq authority "agent") agent_memory_disallowed_for_high_risk none)

  module _ (fl : Floats F) where
    -- `_hard_gate_filter_reason`; `high_risk` is `task_risk == "high"`.
    unfoldable pub hard_gate_filter_reason :
        ℕ → List (SourceProfile F) → ProjectMemory F → RetrievalProfile F → Bool → Option GateReason
    unfolding source_gate
    hard_gate_filter_reason now profiles m p high_risk =
        unless_filtered (not (is_retrievable m.status)) status_not_retrievable (
          unless_filtered (passed m.expires_at now) expired (
            unless_filtered (high_risk && is_environment_updated m.stale_reason) environment_updated
              (unless_filtered (not (fl.leb p.min_confidence m.confidence)) low_confidence (
                unless_filtered (not (fl.leb m.stale_score p.max_stale_score)) stale_score_high (
                  unless_filtered (high_risk && not p.allow_memory_for_high_risk)
                    profile_disallows_high_risk
                    (if high_risk
                      then source_gate (source_profile fl profiles m.source_type) m.authority
                      else none))))))

    abbrev pub passes : Option GateReason → Bool
    passes none = true
    passes (some _) = false

    module _ (score : ProjectMemory F → F) where
      -- `candidates.sort(key=retrieval_score, reverse=True)`, which is stable.
      unfoldable pub insert_candidate :
          ProjectMemory F → List (ProjectMemory F) → List (ProjectMemory F)
      insert_candidate m [] = m ∷ []
      insert_candidate m (c ∷ cs) =
          let rest = insert_candidate m cs in
          if fl.leb (score c) (score m) then m ∷ c ∷ cs else c ∷ rest

      unfoldable pub by_score : List (ProjectMemory F) → List (ProjectMemory F)
      unfolding insert_candidate
      by_score [] = []
      by_score (m ∷ ms) = insert_candidate m (by_score ms)

      -- The candidates that `retrieve` returns, from the memories of the project, the most recently
      -- updated first.
      unfoldable pub selected :
          ℕ
          → List (SourceProfile F)
          → RetrievalProfile F
          → Bool
          → ℕ
          → List (ProjectMemory F)
          → List (ProjectMemory F)
      unfolding by_score hard_gate_filter_reason
      selected now profiles p high_risk limit ms =
          take limit (
            by_score (select (λ m. passes (hard_gate_filter_reason now profiles m p high_risk)) ms))

      -- The usage event of a candidate; `fresh` gives it an id, and `outcome` is not known yet.
      abbrev pub used : String → (ℕ → ℕ) → ProjectMemory F → UsageEvent
      used role fresh m = record {
        id = fresh m.id;
        memory_id = m.id;
        usage_role = role;
        active_for_policy = str_eq role "policy_dependency";
        caused_tool_input_change = false;
        outcome = none;
        severity = none;
        fingerprint = none;
        feedback_state = pending;
      }

      abbrev pub is_among : List (ProjectMemory F) → ProjectMemory F → Bool
      is_among ms m = elem m.id (map (λ (m : ProjectMemory F). m.id) ms)

      abbrev pub record_usage :
          ℕ → String → (ℕ → ℕ) → List (ProjectMemory F) → MemoryRows F → MemoryRows F
      record_usage now role fresh ms d = record d {
        memories =
            update_where (is_among ms)
              (λ (m : ProjectMemory F). record m { last_used_at = some now }) d.memories;
        usages = map (used role fresh) ms ++ d.usages;
      }

      -- `retrieve`, called without a run; the memories of `d` have the most recently updated first.
      -- The gate seeds the source profiles before it reads one; that those rows stay is left out.
      unfoldable pub retrieve :
          ℕ
          → User
          → Access
          → ℕ
          → String
          → Bool
          → String
          → (ℕ → ℕ)
          → ℕ
          → Exec (MemoryRows F) (List (ProjectMemory F))
      unfolding selected get_retrieval_profile ensure_source_profiles
      retrieve now u access project profile_name high_risk role fresh limit = do
        lift (require_project_access u access)
        p ← get_retrieval_profile fl profile_name
        d ← gets (λ (d : MemoryRows F). d)
        let chosen =
            selected now (ensure_source_profiles fl d).source_profiles p high_risk limit
              (select (λ (m : ProjectMemory F). m.project_id == project) d.memories)
        modify (record_usage now role fresh chosen)
        commit
        pure chosen
