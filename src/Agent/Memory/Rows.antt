-- ===== src/Agent/Memory/Rows.antt =====
-- The tables of app/services/agent_memory_service.py, and the resolvers of its profiles.
use test_platform_backend.Prelude.{
  ℕ, String, Bool, true, false, ◌&&◌, not, Option, none, some, List, [], ◌∷◌, ◌++◌, map, select,
  find,
}
use test_platform_backend.Permission.{has_code}
use test_platform_backend.Session.{
  Exec, http, unprocessable, memory_source_profile_missing, memory_retrieval_profile_missing,
  some_or, modify, gets, ◌>>=◌, ◌>>◌,
}
use test_platform_backend.Agent.Memory.{
  Floats, MemoryStatus, Severity, ProjectMemory, SourceProfile, RetrievalProfile,
}
use text.Mathlib.Text.{◌==◌ as str_eq}

-- What the code uses of a parsed evidence reference.
pub record MemoryRef : Type 0 where
  pub ref_type : String
  pub ref_id : ℕ

-- A row of AgentMemoryEvidenceLink
pub record EvidenceLink : Type 0 where
  pub memory_id : ℕ
  pub evidence : MemoryRef

-- A row of AgentMemoryContradictionEvent
pub record ContradictionEvent : Type 0 where
  pub memory_id : ℕ
  pub severity : Severity
  pub failure_fingerprint : Option ℕ
  pub occurred_at : ℕ

-- FeedbackState, of which the code tests these
pub data FeedbackState : Type 0 where
  pending retry processed other_state : FeedbackState

-- A row of AgentMemoryUsageEvent; `outcome` is stripped and in lower case, and `severity` and
-- `fingerprint` are those of its metadata.
pub record UsageEvent : Type 0 where
  pub id : ℕ
  pub memory_id : ℕ
  pub usage_role : String
  pub active_for_policy : Bool
  pub caused_tool_input_change : Bool
  pub outcome : Option String
  pub severity : Option String
  pub fingerprint : Option ℕ
  pub feedback_state : FeedbackState

module _ (F : Type 0) where
  -- A row of AgentMemoryValidationEvent
  pub record ValidationEvent : Type 0 where
    pub memory_id : ℕ
    pub previous_confidence : F
    pub new_confidence : F
    pub previous_stale_score : F
    pub new_stale_score : F
    pub previous_status : MemoryStatus
    pub new_status : MemoryStatus
    pub validation_count : ℕ

  -- A row of AgentMemoryStalenessEvent
  pub record StalenessEvent : Type 0 where
    pub memory_id : ℕ
    pub stale_reason : String
    pub previous_stale_score : F
    pub new_stale_score : F
    pub previous_status : MemoryStatus
    pub new_status : MemoryStatus

  -- The tables; events have the newest first.
  pub record MemoryRows : Type 0 where
    pub memories : List (ProjectMemory F)
    pub links : List EvidenceLink
    pub source_profiles : List (SourceProfile F)
    pub retrieval_profiles : List (RetrievalProfile F)
    pub usages : List UsageEvent
    pub contradictions : List ContradictionEvent
    pub validations : List ValidationEvent
    pub stalenesses : List StalenessEvent

module _ {F : Type 0} (fl : Floats F) where
  abbrev source_row : String → ℕ → String → Bool → Bool → Bool → SourceProfile F
  source_row source confidence authority needs_ref needs_hash high_risk = record {
    source_type = source;
    initial_confidence = fl.hundredths confidence;
    authority = authority;
    requires_source_ref = needs_ref;
    requires_content_hash = needs_hash;
    allowed_for_high_risk = high_risk;
    default_ttl_days = none;
    is_active = true;
  }

  -- `_default_source_profiles`
  abbrev pub default_source_profiles : List (SourceProfile F)
  default_source_profiles =
      source_row "user_confirmed" 85 "user" false false true
      ∷ source_row "execution_learned" 70 "system_record" true false true
      ∷ source_row "document_imported" 75 "document" true true true
      ∷ source_row "agent_summarized" 45 "agent" false false false
      ∷ source_row "repair_inferred" 40 "agent" false false false
      ∷ source_row "external_imported" 55 "external" true false false
      ∷ []

  -- `MemorySourceProfileResolver.ensure_defaults`
  unfoldable pub ensure_source_profiles : MemoryRows F → MemoryRows F
  ensure_source_profiles d =
      let existing = map (λ (p : SourceProfile F). p.source_type) d.source_profiles in
      record d {
        source_profiles =
            d.source_profiles
            ++ select (λ (p : SourceProfile F). not (has_code p.source_type existing))
                default_source_profiles;
      }

  abbrev pub source_profile : List (SourceProfile F) → String → Option (SourceProfile F)
  source_profile profiles source =
      find (λ (p : SourceProfile F). str_eq p.source_type source && p.is_active) profiles

  -- `MemorySourceProfileResolver.get`
  unfoldable pub get_source_profile : String → Exec (MemoryRows F) (SourceProfile F)
  unfolding ensure_source_profiles
  get_source_profile source = do
    modify ensure_source_profiles
    d ← gets (λ (d : MemoryRows F). d)
    some_or (source_profile d.source_profiles source)
        (http unprocessable (some memory_source_profile_missing))

  abbrev retrieval_row : String → ℕ → ℕ → Bool → RetrievalProfile F
  retrieval_row name confidence staleness high_risk = record {
    profile_name = name;
    min_confidence = fl.hundredths confidence;
    max_stale_score = fl.hundredths staleness;
    allow_memory_for_high_risk = high_risk;
    is_active = true;
  }

  -- `_default_retrieval_profiles`, without the weights
  abbrev pub default_retrieval_profiles : List (RetrievalProfile F)
  default_retrieval_profiles =
      retrieval_row "normal_plan_v1" 45 70 false
      ∷ retrieval_row "repair_v1" 55 60 false
      ∷ retrieval_row "high_risk_action_v1" 75 30 true
      ∷ retrieval_row "audit_explain_v1" 20 90 false
      ∷ []

  -- `MemoryRetrievalProfileResolver.ensure_defaults`
  unfoldable pub ensure_retrieval_profiles : MemoryRows F → MemoryRows F
  ensure_retrieval_profiles d =
      let existing = map (λ (p : RetrievalProfile F). p.profile_name) d.retrieval_profiles in
      record d {
        retrieval_profiles =
            d.retrieval_profiles
            ++ select (λ (p : RetrievalProfile F). not (has_code p.profile_name existing))
                default_retrieval_profiles;
      }

  -- `MemoryRetrievalProfileResolver.get`
  unfoldable pub get_retrieval_profile : String → Exec (MemoryRows F) (RetrievalProfile F)
  unfolding ensure_retrieval_profiles
  get_retrieval_profile name = do
    modify ensure_retrieval_profiles
    d ← gets (λ (d : MemoryRows F). d)
    some_or
        (find (λ (p : RetrievalProfile F). str_eq p.profile_name name && p.is_active)
          d.retrieval_profiles)
        (http unprocessable (some memory_retrieval_profile_missing))
