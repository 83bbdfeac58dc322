-- ===== src/Agent/Loop/RootCause/Engine.antt =====
-- `RootCauseRuleEngine` of app/services/agent_loop_service.py. The table of rules is a list. How
-- the database compares two rule ids is an argument, `le_id`.
use test_platform_backend.Prelude.{
  ℕ, String, Bool, false, ◌&&◌, ◌||◌, not, Option, none, some, List, [], ◌∷◌, ◌++◌, map, select,
  find, ltb, leb, ◌==◌, if◌then◌else◌,
}
use test_platform_backend.Permission.{has_code}
use test_platform_backend.Agent.Loop.RootCause.{
  Band, safety, evidence_context, recovery, repair_quality, resource_limit, fallback, other_band,
  AgentRootCauseRule, Observation, matches_rule,
}
use test_platform_backend.Agent.Loop.RootCause.Rules.{default_root_cause_rules}
use text.Mathlib.Text.{◌==◌ as str_eq}

-- ROOT_CAUSE_PRIORITY_BANDS
abbrev pub priority_bands : Band → Option (ℕ × ℕ)
priority_bands safety = some (1, 19)
priority_bands evidence_context = some (20, 39)
priority_bands recovery = some (40, 59)
priority_bands repair_quality = some (60, 79)
priority_bands resource_limit = some (80, 89)
priority_bands fallback = some (900, 999)
priority_bands other_band = none

abbrev pub within : Option (ℕ × ℕ) → ℕ → Bool
within none p = false
within (some band) p = leb band.0 p && leb p band.1

module _ {F : Type 0} where
  abbrev pub ids : List (AgentRootCauseRule F) → List String
  ids = map (λ (r : AgentRootCauseRule F). r.rule_id)

  -- `ensure_default_rules`
  unfoldable pub ensure_default_rules :
      F → List (AgentRootCauseRule F) → List (AgentRootCauseRule F)
  ensure_default_rules zero_float rules =
      rules
      ++ select (λ r. not (has_code r.rule_id (ids rules))) (default_root_cause_rules zero_float)

  -- A rule that `audit_rule_governance` lists: its band is unknown, or its priority is outside.
  abbrev pub is_violation : AgentRootCauseRule F → Bool
  is_violation r = not (within (priority_bands r.priority_band) r.priority)

  module _ (le_id : String → String → Bool) where
    -- `order_by(priority, rule_id)`
    abbrev pub rule_before : AgentRootCauseRule F → AgentRootCauseRule F → Bool
    rule_before r s =
        ltb r.priority s.priority || r.priority == s.priority && le_id r.rule_id s.rule_id

    unfoldable pub insert_rule :
        AgentRootCauseRule F → List (AgentRootCauseRule F) → List (AgentRootCauseRule F)
    insert_rule r [] = r ∷ []
    insert_rule r (s ∷ ss) =
        let rest = insert_rule r ss in if rule_before r s then r ∷ s ∷ ss else s ∷ rest

    unfoldable pub by_priority : List (AgentRootCauseRule F) → List (AgentRootCauseRule F)
    unfolding insert_rule
    by_priority [] = []
    by_priority (r ∷ rs) = insert_rule r (by_priority rs)

    -- `audit_rule_governance`: the violations, whose number is the `violation_count`.
    unfoldable pub audit_rule_governance :
        F → List (AgentRootCauseRule F) → List (AgentRootCauseRule F)
    unfolding ensure_default_rules by_priority
    audit_rule_governance zero_float rules =
        select is_violation (by_priority (ensure_default_rules zero_float rules))

    abbrev pub or_missing :
        Option (AgentRootCauseRule F) → List (AgentRootCauseRule F) → Option (AgentRootCauseRule F)
    or_missing (some r) rules = some r
    or_missing none rules = find (λ r. str_eq "RC_RULE_MISSING" r.rule_id) rules

    -- `evaluate`; none is the `RuntimeError`.
    unfoldable pub evaluate :
        (F → F → Bool)
        → F
        → List (AgentRootCauseRule F)
        → List String
        → Observation F
        → Option (AgentRootCauseRule F)
    unfolding ensure_default_rules by_priority matches_rule
    evaluate float_leb zero_float rules reasons o =
        let table = ensure_default_rules zero_float rules in
        or_missing
          (find (λ r. matches_rule float_leb r.match_expression reasons o)
            (by_priority (select (λ r. r.is_active) table)))
          table
