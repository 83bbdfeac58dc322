-- ===== src/Agent/Loop/RootCause.antt =====
-- `_matches_rule`, `_primary_stop_reason` and the tables that they read, of
-- app/services/agent_loop_service.py. A float is an argument with its test `≤`: `F` and `float_leb`.
pub mod Rules
pub mod Engine
pub mod Order
pub mod Laws
use test_platform_backend.Prelude.{
  ℕ, String, Bool, true, false, ◌&&◌, ◌||◌, not, Option, none, some, List, [], ◌∷◌, any, all, ◌==◌,
  if◌then◌else◌,
}
use test_platform_backend.Permission.{has_code}
use test_platform_backend.Agent.Model.{Degradation, undegraded, light, medium, heavy}
use text.Mathlib.Text.{◌==◌ as str_eq}

-- The keys of ROOT_CAUSE_PRIORITY_BANDS
pub data Band : Type 0 where
  safety evidence_context recovery repair_quality resource_limit fallback other_band : Band

-- What an observation has under a key: no entry, null, what `float` refuses, or a number.
pub data Entry (F : Type 0) : Type 0 where
  unset : Entry F
  null : Entry F
  not_number : Entry F
  number : F → Entry F

module _ (F : Type 0) where
  -- `match_expression_json`; a missing list of reasons is empty, as the code reads it.
  pub record MatchExpression : Type 0 where
    pub always : Bool
    pub all_reasons : List String
    pub any_reasons : List String
    pub none_reasons : List String
    pub decision_context_degradation_level : Option Degradation
    pub required_evidence_complete_for_decision : Option Bool
    pub next_action_is_high_risk : Option Bool
    pub numeric_gt : List (String × F)

  -- A row of the rules, with its id, its cause and the steps that it advises.
  pub record AgentRootCauseRule : Type 0 where
    pub rule_id : String
    pub reason_key : String
    pub root_cause_primary : String
    pub causal_chain : List String
    pub mitigation_action : String
    pub priority : ℕ
    pub priority_band : Band
    pub match_expression : MatchExpression
    pub is_active : Bool

  -- What `evaluate` is told: the keys that the controller sets, and the others.
  pub record Observation : Type 0 where
    pub degradation_level : Degradation
    pub evidence_complete : Bool
    pub high_risk_next : Bool
    pub entries : String → Entry F

-- DEGRADATION_RANK
abbrev pub rank : Degradation → ℕ
rank undegraded = 0
rank light = 1
rank medium = 2
rank heavy = 3

abbrev pub same_bool : Bool → Bool → Bool
same_bool true b = b
same_bool false b = not b

-- A key that the match has must have the same value in the observation.
abbrev pub agrees : {A : Type 0} → (A → A → Bool) → Option A → A → Bool
agrees same none a = true
agrees same (some b) a = same b a

abbrev pub no_reasons : List String → Bool
no_reasons [] = true
no_reasons (_ ∷ _) = false

module _ {F : Type 0} (float_leb : F → F → Bool) where
  abbrev pub above : Entry F → F → Bool
  above unset threshold = false
  above null threshold = false
  above not_number threshold = false
  above (number f) threshold = not (float_leb f threshold)

  -- `_matches_rule`
  unfoldable pub matches_rule : MatchExpression F → List String → Observation F → Bool
  matches_rule m reasons o =
      m.always
      || (all (λ r. has_code r reasons) m.all_reasons
          && (no_reasons m.any_reasons || any (λ r. has_code r reasons) m.any_reasons)
          && not (any (λ r. has_code r reasons) m.none_reasons)
          && agrees (λ a b. rank a == rank b) m.decision_context_degradation_level
              o.degradation_level
          && agrees same_bool m.required_evidence_complete_for_decision o.evidence_complete
          && agrees same_bool m.next_action_is_high_risk o.high_risk_next
          && all (λ k. above (o.entries k.0) k.1) m.numeric_gt)

abbrev pub stop_reasons : List String
stop_reasons =
    "evidence_incomplete_for_high_risk_action" ∷ "policy_loop" ∷ "repair_regression"
    ∷ "new_failures_outside_scope" ∷ "same_failure_no_progress"
    ∷ "permission_revoked_before_execution" ∷ "backend_capability_degraded"
    ∷ "backend_contract_unsupported" ∷ "max_iterations" ∷ "cost_budget_exceeded"
    ∷ "context_budget_exhausted" ∷ "accepted_unknown" ∷ []

-- The first of the names that is among the reasons.
abbrev pub first_of : List String → List String → Option String
first_of [] reasons = none
first_of (r ∷ rs) reasons =
    let rest = first_of rs reasons in if has_code r reasons then some r else rest

-- `_primary_stop_reason`
unfoldable pub primary_stop_reason : List String → Option String
primary_stop_reason = first_of stop_reasons
