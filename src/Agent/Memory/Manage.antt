-- ===== src/Agent/Memory/Manage.antt =====
-- `MemoryManager` of app/services/agent_memory_service.py, but for `retrieve`. What the queries of
-- the permission service return for a project is `access`.
use test_platform_backend.Prelude.{
  ℕ, ◌+◌, ◌*◌, String, Bool, true, false, ◌&&◌, ◌||◌, not, Option, none, some, Option, List, [],
  ◌∷◌, ◌++◌, map, select, find, elem, ltb, length, ◌==◌, update_where, is_some, if◌then◌else◌,
}
use test_platform_backend.Permission.{User, Access, has_code, require_project_access}
use test_platform_backend.Session.{
  Exec, ErrorCode, Result, ok, err, http, not_found, unprocessable, conflict, some_or, pure, modify,
  commit, gets, lift, require, ◌>>=◌, ◌>>◌, memory_source_ref_required,
  document_imported_source_hash_required, memory_source_content_hash_required,
  execution_learned_requires_two_execution_evidence, invalid_memory_status,
  memory_requires_explicit_validation, repair_inferred_requires_execution_validation,
  invalid_memory_contradiction_severity,
}
use test_platform_backend.Agent.Memory.{
  Floats, MemoryStatus, active, needs_review, needs_revalidation, suspect, rejected, archived,
  Severity, low, medium, high, critical, ProjectMemory, SourceProfile,
}
use test_platform_backend.Agent.Memory.Change.{validated, rejected_by_user, contradicted}
use test_platform_backend.Agent.Memory.Rows.{
  MemoryRef, EvidenceLink, MemoryRows, get_source_profile,
}
use text.Mathlib.Text.{◌==◌ as str_eq}

-- What the code reads of a `source_ref_json`.
pub record SourceRef : Type 0 where
  pub is_empty : Bool
  pub has_hash : Bool

-- `bool(source_ref_json)`
abbrev pub is_given : Option SourceRef → Bool
is_given none = false
is_given (some r) = not r.is_empty

abbrev pub has_source_hash : Option SourceRef → Bool
has_source_hash none = false
has_source_hash (some r) = r.has_hash

abbrev pub is_trusted_source : String → Bool
is_trusted_source source = has_code source ("user_confirmed" ∷ "document_imported" ∷ [])

-- The ids of the execution records among the references, each once.
unfoldable pub execution_record_ids : List MemoryRef → List ℕ
execution_record_ids [] = []
execution_record_ids (r ∷ rs) =
    let rest = execution_record_ids rs in
    if str_eq r.ref_type "execution_record" && not (elem r.ref_id rest)
    then r.ref_id ∷ rest
    else rest

abbrev pub refuse : {A : Type 0} → ErrorCode → Result A
refuse code = err (http unprocessable (some code))

-- `_validate_source_evidence_requirements`
unfoldable pub validate_source_evidence_requirements : String → List MemoryRef → Result Unit
unfolding execution_record_ids
validate_source_evidence_requirements source refs =
    if str_eq source "execution_learned" && ltb (length (execution_record_ids refs)) 2
    then refuse execution_learned_requires_two_execution_evidence
    else ok tt

-- `_validate_source_ref_requirements`; the flag is `profile.requires_content_hash`.
unfoldable pub validate_source_ref_requirements : String → Option SourceRef → Bool → Result Unit
validate_source_ref_requirements source ref needs_hash =
    if needs_hash && not (has_source_hash ref)
    then refuse (
        if str_eq source "document_imported"
        then document_imported_source_hash_required
        else memory_source_content_hash_required)
    else ok tt

-- The texts that `_validate_memory_status_transition` allows.
abbrev pub parse_status : String → Option MemoryStatus
parse_status text =
    if str_eq text "active"
    then some active
    else if str_eq text "needs_review"
    then some needs_review
    else if str_eq text "needs_revalidation"
    then some needs_revalidation
    else if str_eq text "suspect"
    then some suspect
    else if str_eq text "rejected"
    then some rejected
    else if str_eq text "archived"
    then some archived
    else none

abbrev pub is_active : MemoryStatus → Bool
is_active active = true
is_active _ = false

abbrev pub allow_status : String → Option MemoryStatus → Result MemoryStatus
allow_status source none = refuse invalid_memory_status
allow_status source (some s) =
    if is_active s && not (is_trusted_source source)
    then err (http conflict (some memory_requires_explicit_validation))
    else ok s

-- `_validate_memory_status_transition`: the status, or why it may not be set.
unfoldable pub validate_memory_status_transition : String → String → Result MemoryStatus
validate_memory_status_transition source text = allow_status source (parse_status text)

-- The keys of SEVERITY_MULTIPLIER
abbrev pub parse_severity : String → Option Severity
parse_severity text =
    if str_eq text "low"
    then some low
    else if str_eq text "medium"
    then some medium
    else if str_eq text "high"
    then some high
    else if str_eq text "critical"
    then some critical
    else none

-- `now + timedelta(days=default_ttl_days)`; no days are no limit.
abbrev pub expiry : ℕ → Option ℕ → Option ℕ
expiry now none = none
expiry now (some days) = if days == 0 then none else some (now + days * 86400)

abbrev pub links_of : ℕ → List MemoryRef → List EvidenceLink
links_of id = map (λ r. record { memory_id = id; evidence = r })

-- What the code uses of the arguments of `create_memory`.
pub record MemoryRequest : Type 0 where
  pub memory_type : String
  pub title : String
  pub content : String
  pub source_type : String
  pub source_ref : Option SourceRef
  pub evidence_refs : List MemoryRef

-- The arguments of `update_memory`; `source_ref_differs` tells that the masked `source_ref_json`
-- is not the one that is stored.
pub record MemoryUpdate : Type 0 where
  pub memory_type : Option String
  pub title : Option String
  pub content : Option String
  pub source_ref : Option SourceRef
  pub source_ref_differs : Bool
  pub evidence_refs : Option (List MemoryRef)
  pub status_value : Option String

abbrev pub text_or : Option String → String → String
text_or none old = old
text_or (some new) old = new

abbrev pub status_or : Option MemoryStatus → MemoryStatus → MemoryStatus
status_or none old = old
status_or (some new) old = new

abbrev pub differs : Option String → String → Bool
differs none old = false
differs (some new) old = not (str_eq old new)

abbrev status_code : MemoryStatus → ℕ
status_code active = 0
status_code needs_review = 1
status_code needs_revalidation = 2
status_code suspect = 3
status_code rejected = 4
status_code archived = 5

abbrev pub status_differs : Option MemoryStatus → MemoryStatus → Bool
status_differs none old = false
status_differs (some new) old = not (status_code old == status_code new)

-- `validate_memory_status_transition` where a status is given.
abbrev pub wanted_status : String → Option String → Result (Option MemoryStatus)
wanted_status source none = ok none
wanted_status source (some text) = map_result (validate_memory_status_transition source text)
  where
    map_result : Result MemoryStatus → Result (Option MemoryStatus)
    map_result (ok s) = ok (some s)
    map_result (err e) = err e

module _ {F : Type 0} where
  abbrev pub memory_by_id : ℕ → MemoryRows F → Option (ProjectMemory F)
  memory_by_id id d = find (λ (m : ProjectMemory F). m.id == id) d.memories

  abbrev pub change_memory : ℕ → (ProjectMemory F → ProjectMemory F) → MemoryRows F → MemoryRows F
  change_memory id f d = record d {
    memories = update_where (λ (m : ProjectMemory F). m.id == id) f d.memories;
  }

  -- `_get_memory_for_update`
  unfoldable pub get_memory_for_update :
      User → (ℕ → Access) → ℕ → Exec (MemoryRows F) (ProjectMemory F)
  get_memory_for_update u access id = do
    d ← gets (λ (d : MemoryRows F). d)
    m ← some_or (memory_by_id id d) (http not_found none)
    lift (require_project_access u (access m.project_id))
    pure m

  abbrev pub new_memory : Floats F → MemoryRequest → SourceProfile F → ℕ → ℕ → ℕ → ProjectMemory F
  new_memory fl p profile project now fresh = record {
    id = fresh;
    project_id = project;
    memory_type = p.memory_type;
    title = p.title;
    content = p.content;
    memory_version = 1;
    source_type = p.source_type;
    authority = profile.authority;
    confidence = profile.initial_confidence;
    initial_confidence = profile.initial_confidence;
    stale_score = fl.hundredths 0;
    stale_reason = none;
    status = if is_trusted_source p.source_type then active else needs_review;
    validation_count = 0;
    recent_validation_count = 0;
    contradiction_count = 0;
    recent_contradiction_count = 0;
    last_validated_at = none;
    last_contradicted_at = none;
    last_used_at = none;
    last_failure_fingerprint = none;
    max_recent_severity = none;
    expires_at = expiry now profile.default_ttl_days;
  }

  abbrev pub add_memory : ProjectMemory F → List MemoryRef → MemoryRows F → MemoryRows F
  add_memory m refs d = record d {
    memories = m ∷ d.memories;
    links = links_of m.id refs ++ d.links;
  }

  module _ (fl : Floats F) where
    -- `create_memory`
    unfoldable pub create_memory :
        User → Access → ℕ → MemoryRequest → ℕ → ℕ → Exec (MemoryRows F) (ProjectMemory F)
    unfolding get_source_profile validate_source_ref_requirements
        validate_source_evidence_requirements
    create_memory u access project p now fresh = do
      lift (require_project_access u access)
      profile ← get_source_profile fl p.source_type
      require (not (profile.requires_source_ref && not (is_given p.source_ref)))
          (http unprocessable (some memory_source_ref_required))
      lift (
          validate_source_ref_requirements p.source_type p.source_ref profile.requires_content_hash)
      lift (validate_source_evidence_requirements p.source_type p.evidence_refs)
      let m = new_memory fl p profile project now fresh
      modify (add_memory m p.evidence_refs)
      commit
      pure m

    -- Whether `update_memory` changes the memory, and the memory that it stores.
    unfoldable pub is_changed : MemoryUpdate → Option MemoryStatus → ProjectMemory F → Bool
    is_changed p status m =
        differs p.memory_type m.memory_type
        || differs p.title m.title
        || differs p.content m.content
        || is_some p.source_ref && p.source_ref_differs
        || is_some p.evidence_refs
        || status_differs status m.status

    unfoldable pub updated : MemoryUpdate → Option MemoryStatus → ProjectMemory F → ProjectMemory F
    unfolding is_changed
    updated p status m = record m {
      memory_type = text_or p.memory_type m.memory_type;
      title = text_or p.title m.title;
      content = text_or p.content m.content;
      status = status_or status m.status;
      memory_version = m.memory_version + (if is_changed p status m then 1 else 0);
    }

    -- `_replace_evidence_links`, where references are given.
    abbrev pub replace_links : ℕ → Option (List MemoryRef) → MemoryRows F → MemoryRows F
    replace_links id none d = d
    replace_links id (some refs) d = record d {
      links = links_of id refs ++ select (λ (l : EvidenceLink). not (l.memory_id == id)) d.links;
    }

    -- The check of a given `source_ref_json`.
    abbrev pub check_source_ref : String → Option SourceRef → Exec (MemoryRows F) Unit
    check_source_ref source none = pure tt
    check_source_ref source (some ref) = do
      profile ← get_source_profile fl source
      lift (validate_source_ref_requirements source (some ref) profile.requires_content_hash)

    abbrev pub check_evidence : String → Option (List MemoryRef) → Result Unit
    check_evidence source none = ok tt
    check_evidence source (some refs) = validate_source_evidence_requirements source refs

    -- `update_memory`
    unfoldable pub update_memory : User → (ℕ → Access) → ℕ → MemoryUpdate → Exec (MemoryRows F) Unit
    unfolding get_memory_for_update get_source_profile updated validate_source_ref_requirements
        validate_source_evidence_requirements validate_memory_status_transition
    update_memory u access id p = do
      m ← get_memory_for_update u access id
      check_source_ref m.source_type p.source_ref
      lift (check_evidence m.source_type p.evidence_refs)
      status ← lift (wanted_status m.source_type p.status_value)
      modify (replace_links id p.evidence_refs)
      modify (change_memory id (updated p status))
      commit

    abbrev pub record_validation : ProjectMemory F → ProjectMemory F → MemoryRows F → MemoryRows F
    record_validation before after d = record d {
      validations =
          record {
            memory_id = after.id;
            previous_confidence = before.confidence;
            new_confidence = after.confidence;
            previous_stale_score = before.stale_score;
            new_stale_score = after.stale_score;
            previous_status = before.status;
            new_status = after.status;
            validation_count = after.validation_count;
          }
          ∷ d.validations;
    }

    -- `validate_memory`
    unfoldable pub validate_memory : User → (ℕ → Access) → ℕ → ℕ → Exec (MemoryRows F) Unit
    unfolding get_memory_for_update validated
    validate_memory u access id now = do
      m ← get_memory_for_update u access id
      require (not (str_eq m.source_type "repair_inferred"))
          (http conflict (some repair_inferred_requires_execution_validation))
      modify (λ d. record_validation m (validated fl now m) (change_memory id (validated fl now) d))
      commit

    -- `reject_memory`
    unfoldable pub reject_memory : User → (ℕ → Access) → ℕ → Exec (MemoryRows F) Unit
    unfolding get_memory_for_update rejected_by_user
    reject_memory u access id = do
      m ← get_memory_for_update u access id
      modify (change_memory id (rejected_by_user fl))
      commit

    -- `record_contradiction`; the order of its checks is that of `get_memory_for_update`.
    unfoldable pub record_contradiction :
        User → (ℕ → Access) → ℕ → String → Option ℕ → ℕ → Exec (MemoryRows F) Unit
    unfolding get_memory_for_update contradicted
    record_contradiction u access id severity_text fingerprint now = do
      m ← get_memory_for_update u access id
      severity ←
          some_or (parse_severity severity_text)
            (http unprocessable (some invalid_memory_contradiction_severity))
      modify (λ d. record d {
        contradictions =
            record {
              memory_id = id;
              severity = severity;
              failure_fingerprint = fingerprint;
              occurred_at = now;
            }
            ∷ d.contradictions;
      })
      modify (change_memory id (contradicted fl severity fingerprint false now))
      commit
