-- ===== src/Agent/Approval/Links.antt =====
-- The links between a lineage, its current call and its current approval, and what each operation
-- of app/services/agent_approval_service.py does to them.
use test_platform_backend.Prelude.{
  ℕ, String, ◌≡◌, ◌⊎◌, refl, true, Option, none, some, arith, or_default, is_some,
}
use test_platform_backend.Permission.{User}
use test_platform_backend.Agent.Model.{
  AgentToolCall, AgentApproval, AgentApprovalLineage, ApprovalStatus,
}
use test_platform_backend.Agent.Events.{Journal}
use test_platform_backend.Agent.Approval.Desk.{Desk, ApprovalDecision, log_event}
use test_platform_backend.Agent.Approval.Decide.{
  Locked, approve_rows, reject_rows, mark_expired_locked,
}
use test_platform_backend.Agent.Approval.Create.{
  Fresh, Replacement, ToolSpec, create_rows, supersede_rows,
}
use test_platform_backend.Agent.Approval.Outcome.{core, locked_rows}

pub record Links (l : AgentApprovalLineage) (c : AgentToolCall) (a : AgentApproval) : Type 0 where
  pub call_lineage : c.approval_lineage_id ≡ some l.approval_lineage_id
  pub approval_lineage : a.approval_lineage_id ≡ l.approval_lineage_id
  pub lineage_call : l.tool_call_id ≡ c.tool_call_id
  pub approval_call : a.tool_call_id ≡ c.tool_call_id
  pub call_epoch : c.approval_epoch ≡ l.current_epoch
  pub approval_epoch : a.approval_epoch ≡ l.current_epoch
  pub status : l.status ≡ a.approval_status
  pub input : a.input_hash ≡ c.input_hash
  pub snapshot : a.runtime_snapshot_id ≡ c.runtime_snapshot_id
  pub scope : a.resource_scope_hash ≡ or_default c.approval_scope_hash c.input_hash
  pub permissions : a.required_permissions ≡ c.required_permissions
  pub required : c.approval_required ≡ true
  pub named :
      (c.approved_approval_id ≡ none)
      ⊎ ((c.approved_approval_id ≡ some a.approval_id)
          × (a.approval_status ≡ ApprovalStatus.approved))
  pub marked :
      a.approval_status ≡ ApprovalStatus.approved → c.approved_approval_id ≡ some a.approval_id

abbrev pub LinkedRows :
    Option AgentApprovalLineage → Option AgentToolCall → Option AgentApproval → Type 0
LinkedRows (some l) (some c) (some a) = Links l c a
LinkedRows _ _ _ = ⊥

-- The run and the three rows are there, and the rows are linked.
abbrev pub IsLinked : Desk → Type 0
IsLinked d = (is_some d.journal ≡ true) × LinkedRows d.lineage d.call d.approval

pub IsLinked-of_core : (d e : Desk) → core d ≡ core e → IsLinked e → IsLinked d
IsLinked-of_core d e same h = ground arith

module _ (k : Locked) (d : Desk) (h : Links k.lineage k.call k.approval) where
  pub mark_expired_locked-IsLinked :
      (now : ℕ)
      → k.approval.approval_status ≡ ApprovalStatus.pending
      → IsLinked (mark_expired_locked k.approval k.lineage k.call now (locked_rows k d))
  unfolding mark_expired_locked
  mark_expired_locked-IsLinked now pending = ground arith

  pub approve_rows-IsLinked :
      (u : User) (p : ApprovalDecision) (now fresh : ℕ)
      → IsLinked (approve_rows u p now fresh k (locked_rows k d))
  unfolding approve_rows
  approve_rows-IsLinked u p now fresh = ground arith

  pub reject_rows-IsLinked :
      (u : User) (p : ApprovalDecision) (now : ℕ)
      → k.approval.approval_status ≡ ApprovalStatus.pending
      → IsLinked (reject_rows u p now k (locked_rows k d))
  unfolding reject_rows
  reject_rows-IsLinked u p now pending = ground arith

  pub supersede_rows-IsLinked :
      (r : Replacement) (spec : ToolSpec) (u : User) (reason : Option String) (f : Fresh) (now : ℕ)
      → IsLinked (
          supersede_rows k.lineage k.call k.approval k.journal r spec u reason f now
            (locked_rows k d))
  unfolding supersede_rows log_event
  supersede_rows-IsLinked r spec u reason f now = ground arith

-- A new approval of a call that names none is linked to it.
pub create_rows-IsLinked :
    (c : AgentToolCall) (j : Journal) (u : User) (expires : Option ℕ) (reason : Option String)
    (f : Fresh) (now : ℕ) (d : Desk)
    → c.approved_approval_id ≡ none
    → is_some d.journal ≡ true
    → IsLinked (create_rows c j u expires reason f now d)
unfolding create_rows log_event
create_rows-IsLinked c j u expires reason f now d unnamed there = ground arith

locked_of_parts :
    (journal : Option Journal) (lineage : Option AgentApprovalLineage) (call : Option AgentToolCall)
    (approval : Option AgentApproval)
    → is_some journal ≡ true
    → LinkedRows lineage call approval
    → (k : Locked) × (journal ≡ some k.journal)
      × (lineage ≡ some k.lineage)
      × (call ≡ some k.call)
      × (approval ≡ some k.approval)
      × Links k.lineage k.call k.approval
locked_of_parts (some j) (some l) (some c) (some a) there h =
    (record { lineage = l; call = c; approval = a; journal = j }, refl, refl, refl, refl, h)
locked_of_parts _ none _ _ there h = absurd h
locked_of_parts _ (some _) none _ there h = absurd h
locked_of_parts _ (some _) (some _) none there h = absurd h
locked_of_parts none (some _) (some _) (some _) there h = cc

-- Such a desk is one whose rows a decision can lock.
pub locked_of_IsLinked :
    (d : Desk)
    → IsLinked d
    → (k : Locked) × (d ≡ locked_rows k d) × Links k.lineage k.call k.approval
locked_of_IsLinked d h =
    let (k, j, l, c, a, links) = locked_of_parts d.journal d.lineage d.call d.approval h.0 h.1 in
    (k, cc, links)
