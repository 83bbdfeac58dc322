-- ===== src/Agent/Loop/RootCause/Rules.antt =====
-- `_default_root_cause_rules` of app/services/agent_loop_service.py, in its order.
use test_platform_backend.Prelude.{String, ℕ, true, false, none, some, List, [], ◌∷◌}
use test_platform_backend.Agent.Model.{heavy}
use test_platform_backend.Agent.Loop.RootCause.{
  Band, safety, evidence_context, recovery, repair_quality, resource_limit, fallback,
  MatchExpression, AgentRootCauseRule,
}

module _ {F : Type 0} (zero_float : F) where
  -- An expression that asks for nothing.
  abbrev anything : MatchExpression F
  anything = record {
    always = false;
    all_reasons = [];
    any_reasons = [];
    none_reasons = [];
    decision_context_degradation_level = none;
    required_evidence_complete_for_decision = none;
    next_action_is_high_risk = none;
    numeric_gt = [];
  }

  abbrev seeded :
      String
      → String
      → String
      → List String
      → String
      → ℕ
      → Band
      → MatchExpression F
      → AgentRootCauseRule F
  seeded id key cause chain action priority band match = record {
    rule_id = id;
    reason_key = key;
    root_cause_primary = cause;
    causal_chain = chain;
    mitigation_action = action;
    priority = priority;
    priority_band = band;
    match_expression = match;
    is_active = true;
  }

  abbrev pub rc_context_omitted_high_risk : AgentRootCauseRule F
  rc_context_omitted_high_risk =
      seeded "RC_CONTEXT_OMITTED_HIGH_RISK" "evidence_incomplete_for_high_risk_action"
        "context_degraded_heavy"
        ("context_degraded_heavy" ∷ "required_evidence_omitted" ∷ "same_failure_no_progress" ∷ [])
        "fetch_full_evidence_and_rebuild_context" 10 safety
        (record anything {
          all_reasons = "evidence_incomplete_for_high_risk_action" ∷ [];
          decision_context_degradation_level = some heavy;
          required_evidence_complete_for_decision = some false;
          next_action_is_high_risk = some true;
        })

  abbrev pub rc_permission_revoked : AgentRootCauseRule F
  rc_permission_revoked =
      seeded "RC_PERMISSION_REVOKED" "permission_revoked_before_execution" "permission_revoked"
        ("permission_changed" ∷ "execute_time_check_failed" ∷ []) "request_permission_or_replan" 15
        safety (record anything { any_reasons = "permission_revoked_before_execution" ∷ [] })

  abbrev pub rc_evidence_incomplete : AgentRootCauseRule F
  rc_evidence_incomplete =
      seeded "RC_EVIDENCE_INCOMPLETE" "evidence_incomplete_for_high_risk_action"
        "evidence_incomplete_for_high_risk_action"
        ("evidence_incomplete" ∷ "unsafe_to_continue" ∷ []) "fetch_required_evidence" 20
        evidence_context
        (record anything {
          all_reasons = "evidence_incomplete_for_high_risk_action" ∷ [];
          required_evidence_complete_for_decision = some false;
          next_action_is_high_risk = some true;
        })

  abbrev pub rc_policy_loop : AgentRootCauseRule F
  rc_policy_loop =
      seeded "RC_POLICY_LOOP" "policy_loop" "policy_loop"
        ("same_action" ∷ "policy_rejected" ∷ "repeated_attempt" ∷ []) "change_plan_or_require_human"
        18 safety (record anything { any_reasons = "policy_loop" ∷ [] })

  abbrev pub rc_memory_contradiction : AgentRootCauseRule F
  rc_memory_contradiction =
      seeded "RC_MEMORY_CONTRADICTION" "memory_contradiction" "memory_contradiction"
        ("memory_used" ∷ "contradiction_detected" ∷ "repair_failed" ∷ []) "demote_memory_and_replan"
        30 evidence_context
        (record anything {
          all_reasons = "same_failure_no_progress" ∷ [];
          numeric_gt = ("memory_contradiction_delta", zero_float) ∷ [];
        })

  abbrev pub rc_approval_pending : AgentRootCauseRule F
  rc_approval_pending =
      seeded "RC_APPROVAL_PENDING" "approval_required_before_execution" "approval_pending"
        ("approval_required" ∷ "human_decision_pending" ∷ []) "wait_for_approval" 40 recovery
        (record anything {
          any_reasons = "approval_required_before_execution" ∷ "pending_approval" ∷ [];
        })

  abbrev pub rc_backend_capability_degraded : AgentRootCauseRule F
  rc_backend_capability_degraded =
      seeded "RC_BACKEND_CAPABILITY_DEGRADED" "backend_capability_degraded"
        "backend_capability_degraded"
        ("backend_capability_degraded" ∷ "reconcile_contract_limited" ∷ [])
        "upgrade_backend_operation_contract_or_require_manual_reapproval" 45 recovery
        (record anything {
          any_reasons = "backend_capability_degraded" ∷ "backend_contract_unsupported" ∷ [];
        })

  abbrev pub rc_no_progress_pure : AgentRootCauseRule F
  rc_no_progress_pure =
      seeded "RC_NO_PROGRESS_PURE" "same_failure_no_progress" "same_failure_no_progress"
        ("repair_attempt" ∷ "same_failure" ∷ "no_new_signal" ∷ [])
        "stop_or_escalate_repair_strategy" 60 repair_quality
        (record anything {
          any_reasons = "same_failure_no_progress" ∷ [];
          none_reasons =
              "repair_regression" ∷ "new_failures_outside_scope" ∷ "policy_loop"
              ∷ "evidence_incomplete_for_high_risk_action" ∷ "backend_capability_degraded"
              ∷ "backend_contract_unsupported" ∷ "cost_budget_exceeded" ∷ "context_budget_exhausted"
              ∷ "max_iterations" ∷ [];
        })

  abbrev pub rc_repair_regression : AgentRootCauseRule F
  rc_repair_regression =
      seeded "RC_REPAIR_REGRESSION" "repair_regression" "repair_regression"
        ("patch_applied" ∷ "new_failure" ∷ "regression" ∷ []) "rollback_patch_or_human_review" 65
        repair_quality
        (record anything { any_reasons = "repair_regression" ∷ "new_failures_outside_scope" ∷ [] })

  abbrev pub rc_max_iterations : AgentRootCauseRule F
  rc_max_iterations =
      seeded "RC_MAX_ITERATIONS" "max_iterations" "max_iterations" ("iteration_limit" ∷ "stop" ∷ [])
        "human_review_or_extend_limit" 80 resource_limit
        (record anything { any_reasons = "max_iterations" ∷ [] })

  abbrev pub rc_resource_limit : AgentRootCauseRule F
  rc_resource_limit =
      seeded "RC_RESOURCE_LIMIT" "resource_limit" "resource_limit"
        ("budget_exhausted" ∷ "cannot_continue" ∷ []) "pause_or_request_budget" 85 resource_limit
        (record anything { any_reasons = "cost_budget_exceeded" ∷ "context_budget_exhausted" ∷ [] })

  abbrev pub rc_unknown : AgentRootCauseRule F
  rc_unknown =
      seeded "RC_UNKNOWN" "accepted_unknown" "unknown" ("unknown" ∷ []) "manual_diagnosis" 900
        fallback (record anything { any_reasons = "accepted_unknown" ∷ [] })

  abbrev pub rc_rule_missing : AgentRootCauseRule F
  rc_rule_missing =
      seeded "RC_RULE_MISSING" "rule_missing" "root_cause_rule_missing"
        ("unclassified_reason" ∷ "root_cause_rule_missing" ∷ []) "add_explicit_root_cause_rule" 999
        fallback (record anything { always = true })

  abbrev pub default_root_cause_rules : List (AgentRootCauseRule F)
  default_root_cause_rules =
      rc_context_omitted_high_risk ∷ rc_permission_revoked ∷ rc_evidence_incomplete ∷ rc_policy_loop
      ∷ rc_memory_contradiction ∷ rc_approval_pending ∷ rc_backend_capability_degraded
      ∷ rc_no_progress_pure ∷ rc_repair_regression ∷ rc_max_iterations ∷ rc_resource_limit
      ∷ rc_unknown ∷ rc_rule_missing ∷ []
