-- ===== src/Agent/Model.antt =====
-- app/models/agent.py, and the value lists at the top of app/services/agent_runtime_service.py.
-- An identifier, a hash and an idempotency key is a number, since the code only compares them for
-- equality and never makes an empty one; a time is a number too. A text that is only stored, a
-- message or a reason, is a `String`.
use test_platform_backend.Prelude.{ℕ, String, Bool, true, false, Option, List}
use test_platform_backend.Session.{ErrorCode}

-- RUN_STATUSES
pub data RunStatus : Type 0 where
  queued running paused completed failed cancelled migration_blocked needs_human : RunStatus

-- TOOL_CALL_STATUSES, with `pending_approval`, which APPROVABLE_TOOL_CALL_STATUSES names.
pub data CallStatus : Type 0 where
  planned leased running_pre_effect effect_sent uncertain reconciling succeeded : CallStatus
  failed failed_retryable obsolete needs_migration manual_intervention : CallStatus
  pending_approval : CallStatus

-- EFFECT_SUBMISSION_STATES
pub data EffectState : Type 0 where
  none_sent send_intent_recorded transport_sent_observed backend_accepted : EffectState
  effect_committed unknown : EffectState

-- BACKEND_EFFECT_CAPABILITIES
pub data Capability : Type 0 where
  receipt_first idempotency_index_only legacy_reconcile_only legacy_no_receipt : Capability

-- The classes of SAFE_SIDE_EFFECT_CLASSES and HIGH_RISK_SIDE_EFFECT_CLASSES.
pub data SideEffect : Type 0 where
  read_only deterministic_compute draft_only execution_record : SideEffect
  business_create business_update destructive external_effect : SideEffect

-- APPROVAL_STATUSES
pub data ApprovalStatus : Type 0 where
  pending approved rejected expired revoked superseded : ApprovalStatus

pub data QueueStatus : Type 0 where
  queued leased blocked_approval completed failed : QueueStatus

pub data BlockStatus : Type 0 where
  open_block resolved cancelled : BlockStatus

-- The values of `recovery_decision`.
pub data Recovery : Type 0 where
  awaiting_approval reconcile_required_before_execution lease_expired_requeued : Recovery
  reconcile_required_after_eventstore_failure legacy_no_receipt_high_risk_manual : Recovery
  mark_succeeded_from_reconcile still_running safe_retry_same_idempotency_key : Recovery
  reconcile_backoff backend_accepted_not_found_incident : Recovery
  effect_committed_not_found_incident not_found_manual_review : Recovery
  mark_failed_from_reconcile idempotency_conflict_decision : Recovery
  backend_contract_migration_required : Recovery
  migration_block_resolved_reconcile_required resume_retry_same_idempotency_key : Recovery

pub data Phase : Type 0 where
  pre_effect completed : Phase

pub data EventType : Type 0 where
  run_queued run_started run_cancelled run_completed run_failed run_paused : EventType
  run_resumed run_migration_blocked run_migration_resolved : EventType
  tool_planned tool_duplicate_blocked tool_running tool_send_intent_recorded : EventType
  tool_transport_sent_observed tool_backend_accepted tool_effect_committed : EventType
  tool_completed tool_failed tool_reconciled tool_uncertain : EventType
  tool_retryable_same_idempotency_key tool_needs_migration : EventType
  approval_created approval_approved approval_rejected approval_superseded : EventType
  approval_expired approval_approve_conflict approval_reject_conflict : EventType
  checkpoint_freshness_checked context_degraded context_evidence_omitted : EventType
  context_full_evidence_required context_decision_context_bound : EventType
  memory_bypassed_evidence_ref loop_observed tool_result_observed : EventType

pub data Mutation : Type 0 where
  create approve reject supersede create_replacement expire : Mutation

-- What the policy reads of an evidence reference: `ref_type`, `authority` and `mutability_class`
-- as texts, whether one of `content_hash`, `version_id` and `snapshot_id` is there, and
-- `freshness_policy`.
pub record EvidenceRef : Type 0 where
  pub ref_type : String
  pub authority : String
  pub mutability_class : String
  pub pinned : Bool
  pub freshness_policy : String

pub record AgentRun : Type 0 where
  pub run_id : ℕ
  pub project_id : ℕ
  pub user_id : ℕ
  pub status : RunStatus
  pub current_iteration : ℕ
  pub current_step_index : ℕ
  pub runtime_snapshot_id : ℕ
  pub last_event_sequence : ℕ
  pub migration_block_count : ℕ
  pub blocking_tool_call_ids : List ℕ
  pub error_code : Option ErrorCode
  pub completed_at : Option ℕ

-- `payload_json` is kept as the tool call and the error code that it names.
pub record AgentEvent : Type 0 where
  pub run_id : ℕ
  pub event_seq : ℕ
  pub event_type : EventType
  pub tool_call_id : Option ℕ
  pub error_code : Option ErrorCode

pub record AgentToolCall : Type 0 where
  pub tool_call_id : ℕ
  pub run_id : ℕ
  pub step_index : ℕ
  pub attempt_index : ℕ
  pub runtime_snapshot_id : ℕ
  pub idempotency_key : ℕ
  pub side_effect : SideEffect
  pub status : CallStatus
  pub execution_phase : Option Phase
  pub effect_submission_state : EffectState
  pub effect_boundary_crossed : Bool
  pub send_intent_at : Option ℕ
  pub observed_sent_at : Option ℕ
  pub acceptance_id : Option ℕ
  pub acceptance_at : Option ℕ
  pub input_hash : ℕ
  pub policy_evidence_refs : List EvidenceRef
  pub decision_context_build_id : Option ℕ
  pub output : Option String
  pub output_hash : Option ℕ
  pub required_permissions : List String
  pub approval_required : Bool
  pub approval_scope_hash : Option ℕ
  pub approval_lineage_id : Option ℕ
  pub approval_epoch : ℕ
  pub approved_approval_id : Option ℕ
  pub approved_by : Option ℕ
  pub approved_at : Option ℕ
  pub lease_owner : Option ℕ
  pub lease_expires_at : Option ℕ
  pub last_heartbeat_at : Option ℕ
  pub recovery_decision : Option Recovery
  pub backend_name : Option ℕ
  pub backend_operation : Option ℕ
  pub backend_contract_version : Option ℕ
  pub backend_effect_capability : Option Capability
  pub error_code : Option ErrorCode
  pub error_message : Option String

pub record AgentWorkerQueue : Type 0 where
  pub queue_id : ℕ
  pub run_id : ℕ
  pub tool_call_id : ℕ
  pub status : QueueStatus
  pub priority : ℕ
  pub available_at : ℕ
  pub lease_owner : Option ℕ
  pub lease_expires_at : Option ℕ
  pub attempt_count : ℕ
  pub last_error_code : Option ErrorCode

pub record AgentApprovalLineage : Type 0 where
  pub approval_lineage_id : ℕ
  pub run_id : ℕ
  pub tool_call_id : ℕ
  pub project_id : ℕ
  pub current_epoch : ℕ
  pub status : ApprovalStatus
  pub immutable_input_hash : ℕ
  pub runtime_snapshot_id : ℕ
  pub resource_scope_hash : ℕ
  pub updated_at : ℕ

pub record AgentApproval : Type 0 where
  pub approval_id : ℕ
  pub approval_lineage_id : ℕ
  pub approval_epoch : ℕ
  pub run_id : ℕ
  pub tool_call_id : ℕ
  pub project_id : ℕ
  pub approval_status : ApprovalStatus
  pub requested_by : ℕ
  pub decided_by : Option ℕ
  pub decided_at : Option ℕ
  pub input_hash : ℕ
  pub runtime_snapshot_id : ℕ
  pub resource_scope_hash : ℕ
  pub decision_reason : Option String
  pub required_permissions : List String
  pub expires_at : Option ℕ

pub record AgentApprovalMutationLog : Type 0 where
  pub approval_lineage_id : ℕ
  pub approval_id : ℕ
  pub tool_call_id : ℕ
  pub run_id : ℕ
  pub mutation_type : Mutation
  pub from_status : Option ApprovalStatus
  pub to_status : ApprovalStatus
  pub actor_user_id : Option ℕ
  pub reason : Option String

-- `context_degradation_level`, from the least to the greatest rank of DEGRADATION_RANK.
pub data Degradation : Type 0 where
  undegraded light medium heavy : Degradation

pub data QualityRisk : Type 0 where
  low_risk medium_risk high_risk : QualityRisk

-- A context build without its model, its sizes and its prompt; `omitted_evidence_refs` are the ids
-- of `omitted_evidence_refs_json`.
pub record AgentContextBuild : Type 0 where
  pub context_build_id : ℕ
  pub run_id : ℕ
  pub iteration : ℕ
  pub step_index : ℕ
  pub build_seq : ℕ
  pub context_degradation_level : Degradation
  pub omitted_evidence_refs : List ℕ
  pub required_evidence_refs : List ℕ
  pub required_evidence_complete : Bool
  pub decision_quality_risk : QualityRisk

pub record AgentMigrationBlock : Type 0 where
  pub block_id : ℕ
  pub run_id : ℕ
  pub tool_call_id : Option ℕ
  pub status : BlockStatus

-- RECONCILE_RESULT_STATUSES
pub data ResultStatus : Type 0 where
  succeeded running failed not_found conflict unsupported_schema_version : ResultStatus

pub record AgentReconcileAttempt : Type 0 where
  pub tool_call_id : ℕ
  pub attempt_seq : ℕ
  pub result_status : ResultStatus
  pub error_code : Option ErrorCode
  pub next_retry_at : Option ℕ

-- `call.status in {"read_only", "deterministic_compute", "draft_only", "execution_record"}`:
-- SAFE_SIDE_EFFECT_CLASSES of agent_tool_service.py.
abbrev pub is_safe : SideEffect → Bool
is_safe read_only = true
is_safe deterministic_compute = true
is_safe draft_only = true
is_safe execution_record = true
is_safe _ = false

-- HIGH_RISK_SIDE_EFFECT_CLASSES of agent_approval_service.py.
abbrev pub is_high_risk : SideEffect → Bool
is_high_risk business_create = true
is_high_risk business_update = true
is_high_risk destructive = true
is_high_risk external_effect = true
is_high_risk _ = false

-- RUN_TERMINAL_STATUSES
abbrev pub is_terminal : RunStatus → Bool
is_terminal completed = true
is_terminal failed = true
is_terminal cancelled = true
is_terminal _ = false
