-- ===== src/Agent/Reconcile/Adapters.antt =====
-- `BackendContractRegistry`, `LedgerOutputReconcileAdapter` and `BackendReconcileRouter`
-- (app/services/agent_reconcile_service.py).
use test_platform_backend.Prelude.{ℕ, String, ◌&&◌, Option, none, some, if◌then◌else◌, is_some}
use test_platform_backend.Session.{
  ErrorCode, Result, ok, err, http, unprocessable, backend_contract_unsupported,
  reconcile_not_found, backend_reconcile_adapter_missing,
}
use test_platform_backend.Agent.Model.{AgentToolCall, ResultStatus}

-- The key of an `AgentBackendContract`.
pub record Contract : Type 0 where
  pub backend_name : ℕ
  pub backend_operation : ℕ

-- What the worker uses of a `ReconcileResult`.
pub record ReconcileResult : Type 0 where
  pub status : ResultStatus
  pub summary : Option String
  pub acceptance_id : Option ℕ
  pub error_code : Option ErrorCode
  pub error_message : Option String

abbrev pub Adapter : Type 0
Adapter = AgentToolCall → Contract → ReconcileResult

-- `BackendContractRegistry.get_for_call`
unfoldable pub get_for_call : AgentToolCall → Option Contract → Result Contract
get_for_call c found =
    if is_some c.backend_name && is_some c.backend_operation && is_some c.backend_contract_version
    then elim found [
      | none ↦ err (http unprocessable (some backend_contract_unsupported))
      | some k ↦ ok k
    ]
    else err (http unprocessable (some backend_contract_unsupported))

abbrev pub no_output : ReconcileResult
no_output = record {
  status = ResultStatus.not_found;
  summary = none;
  acceptance_id = none;
  error_code = some reconcile_not_found;
  error_message = some "No downstream idempotency record is available for this initial adapter.";
}

abbrev pub found_output : AgentToolCall → String → ReconcileResult
found_output c output = record {
  status = ResultStatus.succeeded;
  summary = some output;
  acceptance_id = c.acceptance_id;
  error_code = none;
  error_message = none;
}

-- `LedgerOutputReconcileAdapter`
unfoldable pub ledger_output_reconcile : Adapter
ledger_output_reconcile c k = elim c.output [
  | none ↦ no_output
  | some output ↦ found_output c output
]

abbrev pub no_adapter : ReconcileResult
no_adapter = record {
  status = ResultStatus.unsupported_schema_version;
  summary = none;
  acceptance_id = none;
  error_code = some backend_reconcile_adapter_missing;
  error_message = some "No reconcile adapter is registered for this backend operation.";
}

abbrev pub asked : Option Adapter → Adapter
asked none c k = no_adapter
asked (some adapter) c k = adapter c k

-- `BackendReconcileRouter.reconcile`
unfoldable pub route : (ℕ → ℕ → Option Adapter) → Adapter
route adapters c k = asked (adapters k.backend_name k.backend_operation) c k
