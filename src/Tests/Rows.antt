-- ===== src/Tests/Rows.antt =====
-- The rows of one run with one high-risk call, for the tests.
use test_platform_backend.Prelude.{Bool, true, false, none, some, [], ◌∷◌}
use test_platform_backend.Permission.{User, Project, Access}
use test_platform_backend.Agent.Model.{
  AgentRun, AgentToolCall, AgentApproval, AgentApprovalLineage, AgentContextBuild, AgentWorkerQueue,
  Degradation, QualityRisk, ApprovalStatus, CallStatus, EffectState, EvidenceRef, QueueStatus,
  RunStatus, SideEffect, Capability, EventType,
}
use test_platform_backend.Agent.Events.{Journal}
use test_platform_backend.Agent.Approval.Desk.{Desk, ApprovalDecision}
use test_platform_backend.Agent.Execution.{Bench, Setting, returned}

abbrev pub owner : User
owner = record { id = 7; is_admin = false }

abbrev pub tester : User
tester = record { id = 8; is_admin = false }

abbrev pub project : Project
project = record { id = 1; created_by_id = 7; is_deleted = false }

abbrev pub tester_access : Access
tester_access = record {
  project = some project;
  member = some 4;
  permission_codes = "api:manage" ∷ [];
}

abbrev pub run : AgentRun
run = record {
  run_id = 5;
  project_id = 1;
  user_id = 8;
  status = RunStatus.running;
  current_iteration = 0;
  current_step_index = 0;
  runtime_snapshot_id = 3;
  last_event_sequence = 0;
  migration_block_count = 0;
  blocking_tool_call_ids = [];
  error_code = none;
  completed_at = none;
}

abbrev pub journal : Journal
journal = record { run = run; events = [] }

abbrev evidence : EvidenceRef
evidence = record {
  ref_type = "system_record";
  authority = "system";
  mutability_class = "immutable";
  pinned = true;
  freshness_policy = "none";
}

abbrev pub call : AgentToolCall
call = record {
  tool_call_id = 9;
  run_id = 5;
  step_index = 0;
  attempt_index = 0;
  runtime_snapshot_id = 3;
  idempotency_key = 17;
  side_effect = SideEffect.business_update;
  status = CallStatus.planned;
  execution_phase = none;
  effect_submission_state = EffectState.none_sent;
  effect_boundary_crossed = false;
  send_intent_at = none;
  observed_sent_at = none;
  acceptance_id = none;
  acceptance_at = none;
  input_hash = 11;
  policy_evidence_refs = evidence ∷ [];
  decision_context_build_id = some 6;
  output = none;
  output_hash = none;
  required_permissions = "api:manage" ∷ [];
  approval_required = true;
  approval_scope_hash = some 13;
  approval_lineage_id = some 21;
  approval_epoch = 1;
  approved_approval_id = none;
  approved_by = none;
  approved_at = none;
  lease_owner = none;
  lease_expires_at = none;
  last_heartbeat_at = none;
  recovery_decision = none;
  backend_name = some 1;
  backend_operation = some 1;
  backend_contract_version = some 1;
  backend_effect_capability = some Capability.receipt_first;
  error_code = none;
  error_message = none;
}

abbrev pub lineage : AgentApprovalLineage
lineage = record {
  approval_lineage_id = 21;
  run_id = 5;
  tool_call_id = 9;
  project_id = 1;
  current_epoch = 1;
  status = ApprovalStatus.pending;
  immutable_input_hash = 11;
  runtime_snapshot_id = 3;
  resource_scope_hash = 13;
  updated_at = 0;
}

abbrev pub approval : AgentApproval
approval = record {
  approval_id = 31;
  approval_lineage_id = 21;
  approval_epoch = 1;
  run_id = 5;
  tool_call_id = 9;
  project_id = 1;
  approval_status = ApprovalStatus.pending;
  requested_by = 8;
  decided_by = none;
  decided_at = none;
  input_hash = 11;
  runtime_snapshot_id = 3;
  resource_scope_hash = 13;
  decision_reason = none;
  required_permissions = "api:manage" ∷ [];
  expires_at = some 100;
}

abbrev pub approved_approval : AgentApproval
approved_approval = record approval { approval_status = ApprovalStatus.approved }

abbrev pub approved_lineage : AgentApprovalLineage
approved_lineage = record lineage { status = ApprovalStatus.approved }

abbrev pub approved_call : AgentToolCall
approved_call = record call { approved_approval_id = some 31 }

abbrev pub decision : ApprovalDecision
decision = record {
  approval_lineage_id = 21;
  approval_epoch = 1;
  input_hash = 11;
  runtime_snapshot_id = 3;
  resource_scope_hash = 13;
  reason = none;
}

abbrev pub item : AgentWorkerQueue
item = record {
  queue_id = 41;
  run_id = 5;
  tool_call_id = 9;
  status = QueueStatus.queued;
  priority = 100;
  available_at = 10;
  lease_owner = none;
  lease_expires_at = none;
  attempt_count = 0;
  last_error_code = none;
}

abbrev pub desk : Desk
desk = record {
  journal = some journal;
  lineage = some lineage;
  call = some call;
  approval = some approval;
  queue = item ∷ [];
  mutations = [];
  past = [];
}

abbrev pub approved_desk : Desk
approved_desk = record desk {
  lineage = some approved_lineage;
  call = some approved_call;
  approval = some approved_approval;
}

abbrev pub build : AgentContextBuild
build = record {
  context_build_id = 6;
  run_id = 5;
  iteration = 1;
  step_index = 0;
  build_seq = 1;
  context_degradation_level = Degradation.undegraded;
  omitted_evidence_refs = [];
  required_evidence_refs = [];
  required_evidence_complete = true;
  decision_quality_risk = QualityRisk.low_risk;
}

abbrev pub setting : Setting
setting = record {
  user = tester;
  access = tester_access;
  build = some build;
  approval = some approved_approval;
  touches = [];
  backend = returned "done";
  fails = λ _. false;
  fingerprint = λ _. 77;
  mask = λ text. text;
  now = 50;
}

abbrev pub fails_completed : EventType → Bool
fails_completed EventType.tool_completed = true
fails_completed _ = false

abbrev pub bench : Bench
bench = record { journal = journal; call = approved_call; item = some item }
