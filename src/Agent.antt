-- ===== src/Agent.antt =====
-- The agent runtime: app/services/agent_runtime_service.py, agent_approval_service.py,
-- agent_reconcile_service.py and agent_resume_service.py over the tables of app/models/agent.py.
pub mod Model
pub mod Events
pub mod Policy
pub mod Approval
pub mod Queue
pub mod Execution
pub mod Migration
pub mod Reconcile
pub mod Loop
pub mod Memory
