-- ===== src/Agent/Approval.antt =====
-- `ApprovalService` and `ApprovalMutationGuard` of app/services/agent_approval_service.py: the
-- rows that they lock, and the writes that the decisions share.
pub mod Desk
pub mod Decide
pub mod Create
pub mod Links
pub mod History
pub mod Outcome
pub mod Scanner
