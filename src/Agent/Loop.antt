-- ===== src/Agent/Loop.antt =====
-- app/services/agent_loop_service.py: the evidence of a run's decisions, the context that is built
-- from it, and the cause that is found for a stop.
pub mod Evidence
pub mod Budget
pub mod Context
pub mod RootCause
pub mod Observe
