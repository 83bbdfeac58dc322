-- ===== src/Agent/Loop/Context.antt =====
-- `ContextBuilder` of app/services/agent_loop_service.py, on the rows of one run. The length of the
-- JSON text whose tokens are estimated is an argument.
pub mod Built
use test_platform_backend.Prelude.{
  ℕ, ◌+◌, ◌/◌, max, Bool, true, false, ◌&&◌, not, Option, none, some, List, [], ◌∷◌, ◌==◌, map,
  select, any, elem, if◌then◌else◌,
}
use test_platform_backend.Session.{
  Exec, HttpStatus, http, unprocessable, memory_bypassed, raise, pure, modify, commit, gets, lift,
  branch, ◌>>=◌, ◌>>◌,
}
use test_platform_backend.Permission.{User, Access, require_project_access}
use test_platform_backend.Agent.Model.{AgentContextBuild, EventType, Degradation}
use test_platform_backend.Agent.Events.{Journal, append_event}
use test_platform_backend.Agent.Loop.Evidence.{
  EvidenceRef, AgentEvidenceWatch, is_policy_ref, ids_of, register_watches,
}
use test_platform_backend.Agent.Loop.Budget.{Budgeted, apply_budget, decision_quality_risk}

-- The rows of a run that its decisions use; `builds` has the newest first.
pub record Rows : Type 0 where
  pub journal : Journal
  pub builds : List AgentContextBuild
  pub watches : List AgentEvidenceWatch

-- What the code uses of `AgentContextBuildCreateRequest`.
pub record BuildRequest : Type 0 where
  pub step_index : ℕ
  pub token_budget : ℕ
  pub evidence_refs : List EvidenceRef
  pub memory_ids_used : List ℕ
  pub required_evidence_ref_ids : List ℕ

abbrev pub log_loop : EventType → Rows → Rows
log_loop kind d = record d { journal = append_event d.journal kind none none }

abbrev pub log_when : Bool → EventType → Rows → Rows
log_when test kind d = if test then log_loop kind d else d

-- `func.max(build_seq)` over the builds of an iteration and a step, or 0.
unfoldable pub max_seq : ℕ → ℕ → List AgentContextBuild → ℕ
max_seq iteration step [] = 0
max_seq iteration step (b ∷ bs) =
    let rest = max_seq iteration step bs in
    if b.iteration == iteration && b.step_index == step then max b.build_seq rest else rest

-- `_estimate_tokens`
abbrev pub estimate_tokens : ℕ → ℕ
estimate_tokens characters = max 1 (characters / 4)

abbrev pub same_memory : ℕ → Option ℕ → Bool
same_memory id none = false
same_memory id (some m) = m == id

-- `memory_ids_used - wrapped_memory_ids`
unfoldable pub unwrapped : BuildRequest → List ℕ
unwrapped p =
    select
      (λ id.
        not (
          any (λ (r : EvidenceRef). is_policy_ref r && same_memory id r.memory_id) p.evidence_refs))
      p.memory_ids_used

abbrev pub is_empty : {A : Type 0} → List A → Bool
is_empty [] = true
is_empty (_ ∷ _) = false

-- `_ensure_memory_usage_wrapped`
unfoldable pub ensure_memory_usage_wrapped : BuildRequest → Exec Rows Unit
unfolding unwrapped
ensure_memory_usage_wrapped p = branch (is_empty (unwrapped p)) (pure tt) (do
  modify (log_loop EventType.memory_bypassed_evidence_ref)
  commit
  raise (http unprocessable (some memory_bypassed)))

-- The row that `build` adds, with what the budget left of the references.
unfoldable pub new_build : BuildRequest → Budgeted EvidenceRef → ℕ → Rows → AgentContextBuild
unfolding max_seq decision_quality_risk
new_build p b fresh d =
    let complete = not (any (λ id. elem id (ids_of b.omitted)) p.required_evidence_ref_ids) in
    let iteration = d.journal.run.current_iteration in
    record {
      context_build_id = fresh;
      run_id = d.journal.run.run_id;
      iteration = iteration;
      step_index = p.step_index;
      build_seq = max_seq iteration p.step_index d.builds + 1;
      context_degradation_level = b.degradation;
      omitted_evidence_refs = ids_of b.omitted;
      required_evidence_refs = p.required_evidence_ref_ids;
      required_evidence_complete = complete;
      decision_quality_risk = decision_quality_risk b.degradation complete;
    }

abbrev pub is_degraded : Degradation → Bool
is_degraded Degradation.undegraded = false
is_degraded _ = true

-- The rows after the build, with its events and watches.
unfoldable pub built_rows : BuildRequest → AgentContextBuild → Rows → Rows
unfolding register_watches
built_rows p b d =
    let d₁ = record d { builds = b ∷ d.builds } in
    let d₂ = log_when (is_degraded b.context_degradation_level) EventType.context_degraded d₁ in
    let d₃ =
      log_when (not (is_empty b.omitted_evidence_refs)) EventType.context_evidence_omitted d₂ in
    let d₄ =
      log_when (not b.required_evidence_complete) EventType.context_full_evidence_required d₃ in
    let d₅ = log_loop EventType.context_decision_context_bound d₄ in
    record d₅ { watches = register_watches d.watches p.evidence_refs }

-- `build`: `characters` is the length of the JSON text for a request.
unfoldable pub build :
    User → Access → (BuildRequest → ℕ) → BuildRequest → ℕ → Exec Rows AgentContextBuild
unfolding ensure_memory_usage_wrapped new_build built_rows apply_budget
build u access characters p fresh = do
  lift (require_project_access u access)
  ensure_memory_usage_wrapped p
  d ← gets (λ d. d)
  let b =
      new_build p (apply_budget p.evidence_refs (estimate_tokens (characters p)) p.token_budget)
        fresh d
  modify (built_rows p b)
  commit
  pure b
