-- ===== src/Agent/Loop/Observe.antt =====
-- `LoopController` of app/services/agent_loop_service.py. `le_id`, `float_leb` and `zero_float` are
-- those of the rules; `float_of` makes a float of a count.
pub mod Observed
use test_platform_backend.Prelude.{
  ℕ, String, Bool, true, false, ◌&&◌, not, Option, none, some, List, [], ◌∷◌, ◌++◌, select, find,
  ltb, ◌==◌, length, if◌then◌else◌,
}
use test_platform_backend.Session.{
  Exec, http, not_found, server_error, some_or, require, raise, pure, modify, commit, gets, lift,
  ◌>>=◌, ◌>>◌,
}
use test_platform_backend.Permission.{User, Access, require_project_access}
use test_platform_backend.Agent.Model.{AgentContextBuild, EventType, Degradation, heavy}
use test_platform_backend.Agent.Loop.Context.{Rows, log_loop, is_empty}
use test_platform_backend.Agent.Loop.RootCause.{
  AgentRootCauseRule, Observation, Entry, unset, null, not_number, number, rank,
  primary_stop_reason,
}
use test_platform_backend.Agent.Loop.RootCause.Engine.{ensure_default_rules, evaluate}
use text.Mathlib.Text.{◌==◌ as str_eq}

-- A row of the observations; `next_action` and the texts copied from the rule are left out.
pub record AgentLoopObservation : Type 0 where
  pub observation_id : ℕ
  pub run_id : ℕ
  pub iteration : ℕ
  pub step_index : ℕ
  pub decision_context_build_id : ℕ
  pub decision_context_degradation_level : Degradation
  pub iteration_context_degradation_max : Degradation
  pub required_evidence_complete_for_decision : Bool
  pub omitted_required_evidence_refs : List ℕ
  pub next_action_is_high_risk : Bool
  pub stop_action_reason : Option String
  pub stop_reasons_all : List String
  pub root_cause_primary : String
  pub root_cause_rule_id : String

-- `list(dict.fromkeys(reasons))`: each text once, where it stands first.
unfoldable pub without_repeats : List String → List String
without_repeats [] = []
without_repeats (r ∷ rs) = r ∷ select (λ s. not (str_eq s r)) (without_repeats rs)

abbrev pub when : Bool → String → List String
when true reason = reason ∷ []
when false reason = []

abbrev pub is_heavy : Degradation → Bool
is_heavy Degradation.heavy = true
is_heavy _ = false

-- The reasons of the observation.
unfoldable pub observed_reasons : List String → Bool → AgentContextBuild → List String
unfolding without_repeats
observed_reasons given high_risk b = without_repeats (
    without_repeats given
    ++ (when (high_risk && not b.required_evidence_complete)
          "evidence_incomplete_for_high_risk_action"
        ++ when (is_heavy b.context_degradation_level) "context_degraded_heavy"))

abbrev pub worse : Degradation → Degradation → Degradation
worse a b = if ltb (rank a) (rank b) then b else a

-- `_iteration_degradation_max`, over the builds of the same run and iteration
unfoldable pub iteration_degradation_max : List AgentContextBuild → AgentContextBuild → Degradation
iteration_degradation_max [] b = b.context_degradation_level
iteration_degradation_max (c ∷ cs) b =
    let rest = iteration_degradation_max cs b in
    if c.run_id == b.run_id && c.iteration == b.iteration
    then worse c.context_degradation_level rest
    else rest

module _ (F : Type 0) where
  -- What the code uses of `AgentLoopObservationCreateRequest`.
  pub record ObservationRequest : Type 0 where
    pub decision_context_build_id : ℕ
    pub reasons : List String
    pub next_action_is_high_risk : Bool
    pub observation : String → Entry F

  pub record LoopRows : Type 0 where
    pub rows : Rows
    pub rules : List (AgentRootCauseRule F)
    pub observations : List AgentLoopObservation

-- `build is None or build.run_id != run.run_id`
abbrev pub of_run : ℕ → Option AgentContextBuild → Option AgentContextBuild
of_run run none = none
of_run run (some b) = if b.run_id == run then some b else none

abbrev pub build_of : Rows → ℕ → Option AgentContextBuild
build_of d id =
    of_run d.journal.run.run_id
      (find (λ (b : AgentContextBuild). b.context_build_id == id) d.builds)

module _ {F : Type 0} where
  -- `setdefault`
  abbrev or_default : Entry F → Entry F → Entry F
  or_default unset e = e
  or_default given e = given

  -- `_memory_observation_from_build`: `memory_ids` are those of the memories that the build's
  -- policy references name, each once, and `contradictions` is how often they were contradicted.
  unfoldable pub memory_observation_from_build :
      (ℕ → F) → List ℕ → ℕ → (String → Entry F) → String → Entry F
  memory_observation_from_build float_of memory_ids contradictions entries key =
      if is_empty memory_ids
      then entries key
      else if str_eq key "memory_usage"
      then or_default (entries key) not_number
      else if str_eq key "memory_used_count"
      then or_default (entries key) (number (float_of (length memory_ids)))
      else if str_eq key "memory_contradiction_delta"
      then or_default (entries key) (number (float_of contradictions))
      else entries key

  abbrev pub observation_for : AgentContextBuild → Bool → (String → Entry F) → Observation F
  observation_for b high_risk entries = record {
    degradation_level = b.context_degradation_level;
    evidence_complete = b.required_evidence_complete;
    high_risk_next = high_risk;
    entries = entries;
  }

  -- The row that `record_observation` adds.
  unfoldable pub new_observation :
      ObservationRequest F
      → AgentContextBuild
      → AgentRootCauseRule F
      → ℕ
      → Rows
      → AgentLoopObservation
  unfolding observed_reasons iteration_degradation_max primary_stop_reason
  new_observation p b rule fresh d =
      let reasons = observed_reasons p.reasons p.next_action_is_high_risk b in
      record {
        observation_id = fresh;
        run_id = d.journal.run.run_id;
        iteration = b.iteration;
        step_index = b.step_index;
        decision_context_build_id = b.context_build_id;
        decision_context_degradation_level = b.context_degradation_level;
        iteration_context_degradation_max = iteration_degradation_max d.builds b;
        required_evidence_complete_for_decision = b.required_evidence_complete;
        omitted_required_evidence_refs = b.omitted_evidence_refs;
        next_action_is_high_risk = p.next_action_is_high_risk;
        stop_action_reason = primary_stop_reason reasons;
        stop_reasons_all = reasons;
        root_cause_primary = rule.root_cause_primary;
        root_cause_rule_id = rule.rule_id;
      }

  -- The rows after an observation: with the rules seeded, and an event.
  abbrev pub observed_rows : F → AgentLoopObservation → LoopRows F → LoopRows F
  observed_rows zero_float o d = record {
    rows = log_loop EventType.loop_observed d.rows;
    rules = ensure_default_rules zero_float d.rules;
    observations = o ∷ d.observations;
  }

  module _ (le_id : String → String → Bool) (float_leb : F → F → Bool) (zero_float : F)
      (float_of : ℕ → F) where
    -- `record_observation`
    unfoldable pub record_observation :
        User
        → Access
        → List ℕ
        → ℕ
        → ObservationRequest F
        → ℕ
        → Exec (LoopRows F) AgentLoopObservation
    unfolding evaluate new_observation memory_observation_from_build observed_reasons
    record_observation u access memory_ids contradictions p fresh = do
      lift (require_project_access u access)
      d ← gets (λ (d : LoopRows F). d)
      b ← some_or (build_of d.rows p.decision_context_build_id) (http not_found none)
      rule ←
          some_or
            (evaluate le_id float_leb zero_float d.rules
              (observed_reasons p.reasons p.next_action_is_high_risk b)
              (observation_for b p.next_action_is_high_risk
                (memory_observation_from_build float_of memory_ids contradictions p.observation)))
            (http server_error none)
      let o = new_observation p b rule fresh d.rows
      modify (observed_rows zero_float o)
      commit
      pure o
