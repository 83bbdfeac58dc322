-- ===== src/Agent/Policy.antt =====
-- `PolicyManager` and `_is_trusted_high_risk_evidence` of app/services/agent_approval_service.py.
-- The rows that its queries return, an approval and a context build, are arguments.
pub mod Laws
use test_platform_backend.Prelude.{
  String, Bool, true, false, ◌||◌, ◌&&◌, not, Option, none, some, List, [], ◌∷◌, any, ◌==◌,
  same_opt, if◌then◌else◌,
}
use test_platform_backend.Session.{
  ErrorCode, Result, ok, err, http, conflict, approval_required_before_execution,
  approval_stale_or_superseded, context_decision_build_required,
  required_evidence_incomplete_for_high_risk, high_risk_action_cannot_depend_only_on_memory,
  agent_memory_used_for_high_risk,
}
use test_platform_backend.Permission.{User, Access, has_code, require_project_permission}
use test_platform_backend.Agent.Model.{
  EvidenceRef, AgentToolCall, AgentApproval, AgentContextBuild, ApprovalStatus, is_high_risk,
}
use text.Mathlib.Text.{◌==◌ as str_eq, starts_with}

abbrev pub conflict_with : {A : Type 0} → ErrorCode → Result A
conflict_with code = err (http conflict (some code))

-- A check that lets execution go on, or raises 409 with the code.
abbrev pub unless : Bool → ErrorCode → Result Unit → Result Unit
unless bad code rest = if bad then conflict_with code else rest

abbrev pub is_approved : ApprovalStatus → Bool
is_approved ApprovalStatus.approved = true
is_approved _ = false

-- The comparison of an approval with the call that it is for.
unfoldable pub stale_for : AgentToolCall → AgentApproval → Bool
stale_for c a =
    not (a.input_hash == c.input_hash)
    || not (a.runtime_snapshot_id == c.runtime_snapshot_id)
    || not (same_opt (some a.resource_scope_hash) c.approval_scope_hash)
    || not (same_opt (some a.approval_lineage_id) c.approval_lineage_id)
    || not (a.approval_epoch == c.approval_epoch)

unfoldable pub check_approved : AgentToolCall → Option AgentApproval → Result Unit
unfolding stale_for
check_approved c none = conflict_with approval_required_before_execution
check_approved c (some a) =
    unless (not (is_approved a.approval_status)) approval_required_before_execution
      (unless (stale_for c a) approval_stale_or_superseded (ok tt))

-- `found` is the approval whose id is `call.approved_approval_id`.
unfoldable pub ensure_approval_allows_execution : AgentToolCall → Option AgentApproval → Result Unit
unfolding check_approved
ensure_approval_allows_execution c found =
    if not c.approval_required then ok tt else elim c.approved_approval_id [
      | none ↦ conflict_with approval_required_before_execution
      | some _ ↦ check_approved c found
    ]

-- TRUSTED_HIGH_RISK_EVIDENCE_REF_TYPES, which are the TRUSTED_HIGH_RISK_EVIDENCE_AUTHORITIES too
abbrev pub trusted_sources : List String
trusted_sources = "system_record" ∷ "project_config" ∷ "execution_record" ∷ "document_imported" ∷ []

unfoldable pub is_trusted_high_risk_evidence : EvidenceRef → Bool
unfolding has_code
is_trusted_high_risk_evidence r =
    (has_code r.ref_type trusted_sources || has_code r.authority trusted_sources)
    && ((has_code r.mutability_class ("immutable" ∷ "versioned" ∷ []) && r.pinned)
        || str_eq r.freshness_policy "revalidate_before_side_effect")

unfoldable pub is_agent_memory : EvidenceRef → Bool
is_agent_memory r = str_eq r.ref_type "memory" && starts_with r.authority "memory:agent"

unfoldable pub check_build : AgentToolCall → Option AgentContextBuild → Result Unit
check_build c none = conflict_with context_decision_build_required
check_build c (some b) = unless (not (b.run_id == c.run_id)) context_decision_build_required (
    unless (not b.required_evidence_complete) required_evidence_incomplete_for_high_risk (
      unless (not (any is_trusted_high_risk_evidence c.policy_evidence_refs))
        high_risk_action_cannot_depend_only_on_memory
        (unless (any is_agent_memory c.policy_evidence_refs) agent_memory_used_for_high_risk
          (ok tt))))

-- `found` is the build whose id is `call.decision_context_build_id`.
unfoldable pub ensure_context_allows_execution :
    AgentToolCall → Option AgentContextBuild → Result Unit
unfolding check_build
ensure_context_allows_execution c found =
    if not (is_high_risk c.side_effect) then ok tt else elim c.decision_context_build_id [
      | none ↦ conflict_with context_decision_build_required
      | some _ ↦ check_build c found
    ]

abbrev pub then_check : {A : Type 0} → Result A → Result Unit → Result Unit
then_check (ok _) rest = rest
then_check (err e) rest = err e

-- `for permission in permissions: require_project_permission(user, project, permission)`
unfoldable pub require_permissions : User → Access → List String → Result Unit
require_permissions u a [] = ok tt
require_permissions u a (p ∷ ps) =
    then_check (require_project_permission u a p) (require_permissions u a ps)
