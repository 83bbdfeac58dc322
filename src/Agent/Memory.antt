-- ===== src/Agent/Memory.antt =====
-- app/services/agent_memory_service.py: the memories of a project, with the profiles of their
-- sources and of their retrieval (app/models/agent.py).
pub mod Change
pub mod Rows
pub mod Gate
pub mod Manage
pub mod Workers
pub mod Feedback
pub mod Scores
pub mod Kept
pub mod Requests
pub mod Service
use test_platform_backend.Prelude.{
  ℕ, ◌≤◌, ◌<◌, ◌≡◌, String, Bool, true, false, ◌&&◌, not, Option, none, some, List, [], ◌∷◌,
  if◌then◌else◌, ltb,
}

-- What the code does with scores, which are floats: comparison, sum and difference, and the
-- literals, given in hundredths.
pub record Floats (F : Type 0) : Type 0 where
  pub leb : F → F → Bool
  pub add : F → F → F
  pub sub : F → F → F
  pub hundredths : ℕ → F

-- Comparison is as on floats that are not NaN, and the literals are in order.
pub record IsOrdered {F : Type 0} (fl : Floats F) : Type 0 where
  pub total : (a b : F) → fl.leb a b ≡ false → fl.leb b a ≡ true
  pub transitive : (a b c : F) → fl.leb a b ≡ true → fl.leb b c ≡ true → fl.leb a c ≡ true
  pub monotone : (m n : ℕ) → m ≤ n → fl.leb (fl.hundredths m) (fl.hundredths n) ≡ true

module _ {F : Type 0} (fl : Floats F) where
  -- Python's `min(a, b)` and `max(a, b)`
  abbrev pub min_float : F → F → F
  min_float a b = if fl.leb a b then a else b

  abbrev pub max_float : F → F → F
  max_float a b = if fl.leb b a then a else b

  -- `_clamp`
  unfoldable pub clamp : F → F → F → F
  clamp value low high = max_float low (min_float high value)

pub data MemoryStatus : Type 0 where
  active needs_review needs_revalidation suspect rejected archived : MemoryStatus

-- The keys of SEVERITY_MULTIPLIER
pub data Severity : Type 0 where
  low medium high critical : Severity

-- The order of `_max_severity`
abbrev pub severity_rank : Severity → ℕ
severity_rank low = 1
severity_rank medium = 2
severity_rank high = 3
severity_rank critical = 4

-- `_max_severity`
unfoldable pub max_severity : Option Severity → Severity → Severity
max_severity none new = new
max_severity (some current) new =
    if ltb (severity_rank current) (severity_rank new) then new else current

module _ (F : Type 0) where
  -- A row of the memories. What it says and where it is from is left out but for the source's
  -- type; `stale_reason` is `stale_reason_json["reason"]`, and a time is a number of seconds.
  pub record ProjectMemory : Type 0 where
    pub id : ℕ
    pub project_id : ℕ
    pub memory_type : String
    pub title : String
    pub content : String
    pub memory_version : ℕ
    pub source_type : String
    pub authority : String
    pub confidence : F
    pub initial_confidence : F
    pub stale_score : F
    pub stale_reason : Option String
    pub status : MemoryStatus
    pub validation_count : ℕ
    pub recent_validation_count : ℕ
    pub contradiction_count : ℕ
    pub recent_contradiction_count : ℕ
    pub last_validated_at : Option ℕ
    pub last_contradicted_at : Option ℕ
    pub last_used_at : Option ℕ
    pub last_failure_fingerprint : Option ℕ
    pub max_recent_severity : Option Severity
    pub expires_at : Option ℕ

  pub record SourceProfile : Type 0 where
    pub source_type : String
    pub initial_confidence : F
    pub authority : String
    pub requires_source_ref : Bool
    pub requires_content_hash : Bool
    pub allowed_for_high_risk : Bool
    pub default_ttl_days : Option ℕ
    pub is_active : Bool

  pub record RetrievalProfile : Type 0 where
    pub profile_name : String
    pub min_confidence : F
    pub max_stale_score : F
    pub allow_memory_for_high_risk : Bool
    pub is_active : Bool
