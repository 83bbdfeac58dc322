-- ===== src/Lib.antt =====
-- Verification of the test platform backend: the agent runtime, which plans tool calls for a
-- model, has people approve them, executes them once and recovers what failed, and the
-- permissions that it relies on; the visual flows that testers draw; what keeps secrets
-- out of stored and shown snapshots; and the test plans with their schedules.
--
-- The parts and their files:
--
-- - Session: a request over a SQLAlchemy session (app/db/session.py, app/api/v1/deps.py). A
--   handler is a function `Exec` on the saved and the working rows; `request` runs it on the
--   committed rows and says what it answers and what it leaves committed.
-- - Permission: PermissionService (app/services/permission_service.py) and the codes of
--   app/core/permissions.py.
-- - Agent/Model, Agent/Events: the tables of app/models/agent.py and
--   AgentRuntimeService.append_event (app/services/agent_runtime_service.py).
-- - Agent/Policy: PolicyManager (app/services/agent_approval_service.py), which the executor asks
--   before each effect.
-- - Agent/Approval: ApprovalService and ApprovalMutationGuard of the same file. Desk has the rows of
--   one lineage, Decide the decisions and the expiry, Create new approvals and replacements. Outcome
--   says how each operation ends, Links what it keeps, History what sequences of them do. Scanner
--   is ApprovalExpireScanner.
-- - Agent/Queue: AgentWorkerQueueService (app/services/agent_runtime_service.py), a table being the
--   list of its rows, the oldest first.
-- - Agent/Execution: ToolExecutor.execute_tool_call of the same file. The backend works on the
--   executor's session: when it commits and rolls back is an argument, like what it answers. Guards is
--   about what a refusal leaves, Effects about lost events, Succeeds about when a call succeeds.
-- - Agent/Migration: MigrationCoordinator (app/services/agent_reconcile_service.py), with the
--   difference that a session's autoflush makes.
-- - Agent/Reconcile: ReconcileWorker.reconcile_tool_call, BackendContractRegistry,
--   BackendReconcileRouter and LedgerOutputReconcileAdapter of the same file. Attempts is about the
--   backoff, Outcomes about how a reconciliation ends, Ledger about what the executor's output does
--   for it. Run is reconcile_run, a pass over the calls of a run.
-- - Agent/Loop: app/services/agent_loop_service.py. Evidence has the references and their watches,
--   Budget and Context how a context is built, RootCause the rules that explain why a run stops, and
--   Observe the observations of the loop. Built, Order, Laws and Observed say what these do.
-- - Agent/Memory: app/services/agent_memory_service.py. Change has what an operation does to one
--   memory, Rows the tables and the profiles, Gate the retrieval, Manage the requests, Workers the
--   workers for staleness and expiry, Feedback the one for feedback. Safe and Ranked are about
--   retrieval, Scores, Kept, Requests and Service about what all of them keep, Once about feedback.
-- - Plan: app/services/test_plan_service.py. Create is about a run's key, Execute about its targets
--   and its end, Schedule about the plans that are due: Runs has the runs that are added, Due what
--   the whole scheduling leaves.
-- - Flow: the definitions of app/schemas/visual_flow.py and VisualFlowService
--   (app/services/visual_flow_service.py). Issue, Config and Validate are _validate, Order is
--   _topological_order, Search the two searches, Run _execute with its loop over the nodes. Sorted
--   and Acyclic say what the order is, Reach what a search finds, Executable and Configured what a
--   flow without issues is like, Meaning and Whole what a run of one does. Paths is
--   _read_path and _write_path, on the values of Json, with `int` on ASCII text.
-- - Sensitive: app/core/sensitive_data.py. Snapshot is about reading back what was stored, Masking
--   about what is shown, Secrets about text columns and webhooks.
-- - Cron: app/core/cron.py. Fields is about parsing, Next about the next time, Occurrences about the
--   listing of times.
-- - Prelude: the names and lemmas that all parts share.
-- - Tests: concrete rows, flows and snapshots, and the theorems applied to them.
--
-- The executor reads what the approval operations write: a call's approval_required,
-- approved_approval_id, hashes and epoch. The queue tests for an approval before it gives out a call,
-- and the guards of the executor compare that approval with the call again. The worker that
-- reconciles reads what the executor left on the call. The guard for high-risk calls reads the context
-- that the loop built, and scheduling asks the schedules for the next time.
--
-- Identifiers, hashes and times are natural numbers, since the code only compares them; texts that
-- are matched are strings, and those that are cut or searched are lists of code points. What comes
-- from outside is an argument: the clock, the calendar and the time zone, fresh ids, the hash and
-- masking functions of the executor, the cipher, the backend's answer and what it does to the session,
-- the text of a scheduled run's key, the failures of the event
-- store, the answer of CheckpointFreshnessGate, how a case of a flow ends. Queries are arguments where
-- a request reads one row, and lists where it reads a table.
--
-- Most recursions are on a list or a tree. The `while` loops of a flow's ordering and of its searches
-- have fuel: one round for each node, which leaves the queue once, and one for each push on the stack,
-- which an edge or a start causes. The search for the next time of a schedule has the bound of the
-- code, and the fuel of a range is the distance that it has to go.
--
-- Scores of memories are floats: their comparison, sums and literals are an argument, and what is used
-- of them is that comparison is total and transitive and orders the literals.
--
-- Not modelled: the outbox, the conversation with the model, prompts and streams, observability,
-- and the platform's services for test cases, scenarios, reports and defects, which are mostly
-- database access and network calls. Of the memories, the arithmetic of the retrieval score and the
-- events of a run are left out; of the plans, the threads of a parallel run and the notifications.
-- Of the flows, the rendering of variables, the evaluation of conditions and the stored versions
-- are left out; of the cipher, that it never gives the same token twice. The lock waits that are
-- logged and the request fields that are only stored are left out. Each request runs alone on the
-- committed rows, but for the creation of a plan's run, which meets what others commit.
pub mod Prelude
pub mod Session
pub mod Permission
pub mod Plan
pub mod Agent
pub mod Json
pub mod Flow
pub mod Sensitive
pub mod Cron
pub mod Tests
