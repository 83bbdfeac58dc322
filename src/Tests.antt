-- ===== src/Tests.antt =====
-- Concrete rows and requests, on which the theorems are applied.
mod Rows
mod Permissions
mod Approvals
mod Queues
mod Executions
mod Migrations
mod Reconciles
mod Flows
mod Codec
mod Snapshots
mod Schedules
mod Loops
mod Memories
mod Plans
