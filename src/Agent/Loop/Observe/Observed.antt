-- ===== src/Agent/Loop/Observe/Observed.antt =====
-- What `LoopController.record_observation` writes (app/services/agent_loop_service.py).
use test_platform_backend.Prelude.{
  ℕ, ◌≤◌, ◌≡◌, String, Bool, true, false, ◌&&◌, none, some, ◌∷◌, ◌==◌, All, Has,
}
use test_platform_backend.Session.{Result, ok, err, http, HttpException, not_found}
use test_platform_backend.Permission.{User, Access, require_project_access}
use test_platform_backend.Agent.Model.{AgentContextBuild}
use test_platform_backend.Agent.Loop.RootCause.{AgentRootCauseRule, Entry, rank}
use test_platform_backend.Agent.Loop.RootCause.Rules.{rc_evidence_incomplete}
use test_platform_backend.Agent.Loop.RootCause.Engine.{ensure_default_rules}
use test_platform_backend.Agent.Loop.RootCause.Laws.{Found}
use test_platform_backend.Agent.Loop.Observe.{
  AgentLoopObservation, ObservationRequest, LoopRows, observation_for, build_of,
}
use text.Mathlib.Text.{◌==◌ as str_eq}

module _ {F : Type 0} (le_id : String → String → Bool) (float_leb : F → F → Bool) (zero_float : F)
    (float_of : ℕ → F) where
  -- An observation that was recorded, with the rule that its cause is taken from.
  pub record IsObserved (p : ObservationRequest F) (b : AgentContextBuild)
      (entries : String → Entry F) (before : LoopRows F) (o : AgentLoopObservation)
      (after : LoopRows F) : Type 0 where
    pub rule : AgentRootCauseRule F
    pub diagnosed :
        Found float_leb o.stop_reasons_all
          (observation_for b p.next_action_is_high_risk entries)
          (ensure_default_rules zero_float before.rules)
          (some rule)
    pub named : o.root_cause_rule_id ≡ rule.rule_id
    pub stopped :
        p.next_action_is_high_risk ≡ true
        → b.required_evidence_complete ≡ false
        → (o.stop_action_reason ≡ some "evidence_incomplete_for_high_risk_action")
          × (Has (rc_evidence_incomplete zero_float) (ensure_default_rules zero_float before.rules)
              → rule.priority ≤ 20)
    pub worst :
        All
          (λ (c : AgentContextBuild).
            (c.run_id == b.run_id && c.iteration == b.iteration) ≡ true
            → rank c.context_degradation_level ≤ rank o.iteration_context_degradation_max)
          before.rows.builds
    pub seeded : after.rules ≡ ensure_default_rules zero_float before.rules
    pub stored : after.observations ≡ o ∷ before.observations

  -- How the request ends.
  pub data ObservedEnd (u : User) (access : Access) (p : ObservationRequest F)
      (entries : String → Entry F) (before : LoopRows F)
      : Result AgentLoopObservation × LoopRows F → Type 0 where
    denied :
        (e : HttpException)
        → require_project_access u access ≡ err e
        → ObservedEnd u access p entries before (err e, before)
    unknown_build :
        build_of before.rows p.decision_context_build_id ≡ none
        → ObservedEnd u access p entries before (err (http not_found none), before)
    observed :
        (b : AgentContextBuild)
        → build_of before.rows p.decision_context_build_id ≡ some b
        → (o : AgentLoopObservation) (after : LoopRows F) → IsObserved p b entries before o after
        → ObservedEnd u access p entries before (ok o, after)
