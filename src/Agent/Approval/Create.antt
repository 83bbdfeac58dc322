-- ===== src/Agent/Approval/Create.antt =====
-- `create_pending_approval` of `ApprovalService` and `supersede_with_replacement` of
-- `ApprovalMutationGuard` (app/services/agent_approval_service.py). New ids are arguments.
use test_platform_backend.Prelude.{
  ℕ, String, ◌+◌, Bool, true, false, ◌||◌, not, Option, none, some, List, ◌∷◌, ◌==◌, max,
  or_default,
}
use test_platform_backend.Session.{
  http, not_found, conflict, unprocessable, Exec, branch, commit, modify, pure, raise, lift,
  some_or, gets, ◌>>=◌, ◌>>◌, approval_stale_or_superseded, approval_superseded,
  cannot_supersede_executing_call, replacement_run_mismatch, tool_call_not_approvable,
}
use test_platform_backend.Permission.{User, Access, require_project_access}
use test_platform_backend.Agent.Model.{
  EvidenceRef, SideEffect, Capability, AgentToolCall, AgentApproval, AgentApprovalLineage,
  ApprovalStatus, CallStatus, EffectState, EventType, Mutation,
}
use test_platform_backend.Agent.Events.{Journal}
use test_platform_backend.Agent.Approval.Desk.{Desk, log_event, add_mutation, block_queue}
use test_platform_backend.Agent.Approval.Decide.{is_pending}

-- The ids that `uuid4` gives to the rows made by one request.
pub record Fresh : Type 0 where
  pub lineage_id : ℕ
  pub approval_id : ℕ
  pub call_id : ℕ

-- The fields that a new approval of a call has, in either operation.
abbrev pub new_approval : AgentToolCall → ℕ → ℕ → ℕ → ℕ → User → ℕ → Option ℕ → AgentApproval
new_approval c lineage_id epoch run project u id expires = record {
  approval_id = id;
  approval_lineage_id = lineage_id;
  approval_epoch = epoch;
  run_id = run;
  tool_call_id = c.tool_call_id;
  project_id = project;
  approval_status = ApprovalStatus.pending;
  requested_by = u.id;
  decided_by = none;
  decided_at = none;
  input_hash = c.input_hash;
  runtime_snapshot_id = c.runtime_snapshot_id;
  resource_scope_hash = or_default c.approval_scope_hash c.input_hash;
  decision_reason = none;
  required_permissions = c.required_permissions;
  expires_at = expires;
}

abbrev awaiting : Option AgentApproval → Bool
awaiting none = false
awaiting (some a) = is_pending a.approval_status

abbrev pub lineage_for : AgentToolCall → Fresh → ℕ
lineage_for c f = or_default c.approval_lineage_id f.lineage_id

abbrev pub new_lineage : AgentToolCall → Journal → Fresh → ℕ → AgentApprovalLineage
new_lineage c j f now = record {
  approval_lineage_id = lineage_for c f;
  run_id = j.run.run_id;
  tool_call_id = c.tool_call_id;
  project_id = j.run.project_id;
  current_epoch = 1;
  status = ApprovalStatus.pending;
  immutable_input_hash = c.input_hash;
  runtime_snapshot_id = c.runtime_snapshot_id;
  resource_scope_hash = or_default c.approval_scope_hash c.input_hash;
  updated_at = now;
}

abbrev pub call_awaiting : AgentToolCall → Fresh → AgentToolCall
call_awaiting c f = record c {
  approval_required = true;
  approval_lineage_id = some (lineage_for c f);
  approval_epoch = 1;
}

-- The rows that `create_pending_approval` adds and writes.
unfoldable pub create_rows :
    AgentToolCall → Journal → User → Option ℕ → Option String → Fresh → ℕ → Desk → Desk
unfolding add_mutation log_event
create_rows c j u expires reason f now d =
    let a =
      new_approval c (lineage_for c f) 1 j.run.run_id j.run.project_id u f.approval_id expires in
    let d₁ = record d {
      lineage = some (new_lineage c j f now);
      call = some (call_awaiting c f);
      approval = some a;
    } in
    let d₂ =
      add_mutation a (lineage_for c f) Mutation.create none ApprovalStatus.pending (some u.id)
        reason d₁ in
    log_event EventType.approval_created (some c.tool_call_id) none d₂

-- `d.approval` is the newest approval of the call; the caller commits.
unfoldable pub create_pending_approval :
    AgentToolCall → Journal → User → Option ℕ → Option String → Fresh → ℕ → Exec Desk Unit
unfolding create_rows
create_pending_approval c j u expires reason f now = do
  d ← gets (λ d. d)
  branch (awaiting d.approval) (pure tt) (modify (create_rows c j u expires reason f now))

-- What `_create_replacement_tool_call` uses of `ToolSpec` and of its backend contract.
pub record ToolSpec : Type 0 where
  pub side_effect : SideEffect
  pub required_permissions : List String
  pub backend_name : Option ℕ
  pub backend_operation : Option ℕ
  pub backend_contract_version : Option ℕ
  pub effect_capability : Option Capability

-- The replacement asked for: the request, the tool that the registry finds for its name (none if
-- there is none), the hashes that `request_fingerprint` gives for it, and the largest
-- `attempt_index` of the run's calls at that step.
pub record Replacement : Type 0 where
  pub run_id : ℕ
  pub step_index : ℕ
  pub attempt_index : ℕ
  pub max_attempt : ℕ
  pub spec : Option ToolSpec
  pub input_hash : ℕ
  pub scope_hash : ℕ
  pub idempotency_key : Option ℕ
  pub derived_key : ℕ
  pub policy_evidence_refs : List EvidenceRef
  pub decision_context_build_id : Option ℕ

-- `_create_replacement_tool_call`, the row that it adds.
abbrev pub replacement_call :
    AgentToolCall → Journal → Replacement → ToolSpec → ℕ → ℕ → AgentToolCall
replacement_call old j r spec epoch id = record {
  tool_call_id = id;
  run_id = j.run.run_id;
  step_index = r.step_index;
  attempt_index = max (max (r.max_attempt + 1) (old.attempt_index + 1)) r.attempt_index;
  runtime_snapshot_id = j.run.runtime_snapshot_id;
  idempotency_key = or_default r.idempotency_key r.derived_key;
  side_effect = spec.side_effect;
  status = CallStatus.planned;
  execution_phase = none;
  effect_submission_state = EffectState.none_sent;
  effect_boundary_crossed = false;
  send_intent_at = none;
  observed_sent_at = none;
  acceptance_id = none;
  acceptance_at = none;
  input_hash = r.input_hash;
  policy_evidence_refs = r.policy_evidence_refs;
  decision_context_build_id = r.decision_context_build_id;
  output = none;
  output_hash = none;
  required_permissions = spec.required_permissions;
  approval_required = true;
  approval_scope_hash = some r.scope_hash;
  approval_lineage_id = old.approval_lineage_id;
  approval_epoch = epoch;
  approved_approval_id = none;
  approved_by = none;
  approved_at = none;
  lease_owner = none;
  lease_expires_at = none;
  last_heartbeat_at = none;
  recovery_decision = none;
  backend_name = spec.backend_name;
  backend_operation = spec.backend_operation;
  backend_contract_version = spec.backend_contract_version;
  backend_effect_capability = spec.effect_capability;
  error_code = none;
  error_message = none;
}

-- SUPERSEDE_BLOCKED_TOOL_CALL_STATUSES
abbrev pub supersede_blocked : CallStatus → Bool
supersede_blocked CallStatus.leased = true
supersede_blocked CallStatus.running_pre_effect = true
supersede_blocked CallStatus.effect_sent = true
supersede_blocked CallStatus.uncertain = true
supersede_blocked CallStatus.reconciling = true
supersede_blocked CallStatus.succeeded = true
supersede_blocked _ = false

-- The query for the pending approval at the lineage's epoch, and the test that it is of this
-- call: none if either fails.
abbrev pub stale_target : AgentApprovalLineage → AgentToolCall → AgentApproval → Bool
stale_target l c a =
    not (a.approval_lineage_id == l.approval_lineage_id)
    || not (a.approval_epoch == l.current_epoch)
    || not (is_pending a.approval_status)
    || not (a.tool_call_id == c.tool_call_id)

abbrev superseded_approval : User → ℕ → Option String → AgentApproval → AgentApproval
superseded_approval u now reason a = record a {
  approval_status = ApprovalStatus.superseded;
  decided_by = some u.id;
  decided_at = some now;
  decision_reason = some (or_default reason "replacement_tool_call_created");
}

abbrev obsolete_call : Option String → AgentToolCall → AgentToolCall
obsolete_call reason c = record c {
  status = CallStatus.obsolete;
  error_code = some approval_superseded;
  error_message = some (or_default reason "Approval superseded by replacement tool call");
}

-- The rows that `supersede_with_replacement` writes and adds.
unfoldable pub supersede_rows :
    AgentApprovalLineage
    → AgentToolCall
    → AgentApproval
    → Journal
    → Replacement
    → ToolSpec
    → User
    → Option String
    → Fresh
    → ℕ
    → Desk
    → Desk
unfolding add_mutation log_event block_queue
supersede_rows l c a j r spec u reason f now d =
    let epoch = l.current_epoch + 1 in
    let c' = replacement_call c j r spec epoch f.call_id in
    let a' =
      new_approval c' l.approval_lineage_id epoch j.run.run_id j.run.project_id u f.approval_id
        none in
    let d₁ = record (log_event EventType.tool_planned (some c'.tool_call_id) none d) {
      past = (obsolete_call reason c, superseded_approval u now reason a) ∷ d.past;
      lineage = some (record l {
        tool_call_id = c'.tool_call_id;
        current_epoch = epoch;
        status = ApprovalStatus.pending;
        immutable_input_hash = c'.input_hash;
        runtime_snapshot_id = c'.runtime_snapshot_id;
        resource_scope_hash = or_default c'.approval_scope_hash c'.input_hash;
        updated_at = now;
      });
      call = some c';
      approval = some a';
      queue = block_queue c.tool_call_id approval_superseded d.queue;
    } in
    let d₂ =
      add_mutation a l.approval_lineage_id Mutation.supersede (some a.approval_status)
        ApprovalStatus.superseded (some u.id) reason d₁ in
    let d₃ =
      add_mutation a' l.approval_lineage_id Mutation.create_replacement none ApprovalStatus.pending
        (some u.id) reason d₂ in
    log_event EventType.approval_created (some c'.tool_call_id) none
      (log_event EventType.approval_superseded (some c.tool_call_id) none d₃)

unfoldable pub supersede_with_replacement :
    User → Access → Replacement → Option String → Fresh → ℕ → Exec Desk Unit
supersede_with_replacement u access r reason f now = do
  d ← gets (λ d. d)
  c ← some_or d.call (http not_found none)
  some_or c.approval_lineage_id (http conflict (some tool_call_not_approvable))
  l ← some_or d.lineage (http not_found none)
  a ← some_or d.approval (http conflict (some approval_stale_or_superseded))
  branch (stale_target l c a) (raise (http conflict (some approval_stale_or_superseded))) (do
    j ← some_or d.journal (http not_found none)
    branch (not (r.run_id == j.run.run_id))
        (raise (http unprocessable (some replacement_run_mismatch)))
        (do
          lift (require_project_access u access)
          branch (supersede_blocked c.status)
              (raise (http conflict (some cannot_supersede_executing_call)))
              (do
                spec ← some_or r.spec (http not_found none)
                modify (supersede_rows l c a j r spec u reason f now)
                commit)))
