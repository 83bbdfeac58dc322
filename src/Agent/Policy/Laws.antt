-- ===== src/Agent/Policy/Laws.antt =====
-- What the policy checks of app/services/agent_approval_service.py let through.
use test_platform_backend.Prelude.{
  String, ◌≡◌, ◌⊎◌, ◌↔◌, inl, inr, refl, true, false, Option, none, some, List, [], ◌∷◌, any, All,
  is_some, arith,
}
use test_platform_backend.Session.{ok, is_ok}
use test_platform_backend.Permission.{User, Access, require_project_permission}
use test_platform_backend.Agent.Model.{
  AgentToolCall, AgentApproval, AgentContextBuild, approved, is_high_risk,
}
use test_platform_backend.Agent.Policy.{
  check_approved, check_build, ensure_approval_allows_execution, ensure_context_allows_execution,
  require_permissions, is_trusted_high_risk_evidence, is_agent_memory,
}

-- What an approval must share with a call to allow its execution.
pub record Covers (c : AgentToolCall) (a : AgentApproval) : Type 0 where
  pub is_approved : a.approval_status ≡ approved
  pub input : a.input_hash ≡ c.input_hash
  pub snapshot : a.runtime_snapshot_id ≡ c.runtime_snapshot_id
  pub scope : some a.resource_scope_hash ≡ c.approval_scope_hash
  pub lineage : some a.approval_lineage_id ≡ c.approval_lineage_id
  pub epoch : a.approval_epoch ≡ c.approval_epoch

check_approved-Covers :
    (c : AgentToolCall) (found : Option AgentApproval)
    → check_approved c found ≡ ok tt
    → (a : AgentApproval) × (found ≡ some a) × Covers c a
unfolding check_approved
check_approved-Covers c none h = cc
check_approved-Covers c (some a) h = (a, refl, ground arith)

approval_guard_split :
    (c : AgentToolCall) (found : Option AgentApproval)
    → ensure_approval_allows_execution c found ≡ ok tt
    → (c.approval_required ≡ false)
      ⊎ ((is_some c.approved_approval_id ≡ true) × (check_approved c found ≡ ok tt))
unfolding ensure_approval_allows_execution
approval_guard_split c found h = ground arith

-- The guard lets a call through exactly if it needs no approval, or it names an approval and the
-- one found is approved and has the call's input, snapshot, scope, lineage and epoch.
pub ensure_approval_allows_execution_iff :
    (c : AgentToolCall) (found : Option AgentApproval)
    → (ensure_approval_allows_execution c found ≡ ok tt) ↔ (
        (c.approval_required ≡ false)
        ⊎ ((is_some c.approved_approval_id ≡ true)
            × (a : AgentApproval) × (found ≡ some a)
            × Covers c a))
unfolding ensure_approval_allows_execution
ensure_approval_allows_execution_iff c found = (
  λ h. elim (approval_guard_split c found h) [
    | inl free ↦ inl free
    | inr (named, passed) ↦
        let (a, same, covers) = check_approved-Covers c found passed in inr (named, a, same, covers)
  ],
  λ h. ground arith,
)

check_build_ok :
    (c : AgentToolCall) (found : Option AgentContextBuild)
    → check_build c found ≡ ok tt
    → (b : AgentContextBuild) × (found ≡ some b)
      × (b.run_id ≡ c.run_id)
      × (b.required_evidence_complete ≡ true)
      × (any is_trusted_high_risk_evidence c.policy_evidence_refs ≡ true)
      × (any is_agent_memory c.policy_evidence_refs ≡ false)
unfolding check_build
check_build_ok c none h = cc
check_build_ok c (some b) h = (b, refl, ground arith, ground arith, ground arith, ground arith)

context_guard_split :
    (c : AgentToolCall) (found : Option AgentContextBuild)
    → is_high_risk c.side_effect ≡ true
    → ensure_context_allows_execution c found ≡ ok tt
    → check_build c found ≡ ok tt
unfolding ensure_context_allows_execution
context_guard_split c found risky h = ground arith

-- A high-risk call passes the context guard only with a context build of its own run, with all
-- required evidence, with some trusted evidence, and with none that is an agent's memory.
pub ensure_context_allows_execution_high_risk :
    (c : AgentToolCall) (found : Option AgentContextBuild)
    → is_high_risk c.side_effect ≡ true
    → ensure_context_allows_execution c found ≡ ok tt
    → (b : AgentContextBuild) × (found ≡ some b)
      × (b.run_id ≡ c.run_id)
      × (b.required_evidence_complete ≡ true)
      × (any is_trusted_high_risk_evidence c.policy_evidence_refs ≡ true)
      × (any is_agent_memory c.policy_evidence_refs ≡ false)
ensure_context_allows_execution_high_risk c found risky h =
    check_build_ok c found (context_guard_split c found risky h)

-- The loop over the permissions passes exactly if each of them is granted.
pub require_permissions_iff :
    (u : User) (a : Access) (ps : List String)
    → (require_permissions u a ps ≡ ok tt)
      ↔ All (λ p. is_ok (require_project_permission u a p) ≡ true) ps
unfolding require_permissions
require_permissions_iff u a [] = (λ h. tt, λ h. refl)
require_permissions_iff u a (p ∷ ps) =
    let ih = require_permissions_iff u a ps in
    (λ h. (ground arith, ih.0 (ground arith)), λ h. let e = ih.1 h.1 in ground arith)
