-- ===== src/Plan.antt =====
-- app/services/test_plan_service.py: the plans of a project and their runs
-- (app/models/test_plan.py). A time is a number of seconds, an id or a key a number.
pub mod Create
pub mod Execute
pub mod Schedule
use test_platform_backend.Prelude.{
  ℕ, ◌+◌, Bool, true, false, ◌&&◌, ◌||◌, not, Option, none, some, List, [], ◌∷◌, ◌==◌, find, any,
  same_opt, Text, if◌then◌else◌,
}

pub record Target : Type 0 where
  pub id : ℕ
  pub reference_id : ℕ
  pub sort_order : ℕ

-- A plan: `stop_on_failure` is the failure policy "stop", `is_parallel` the execution mode
-- "parallel", and `is_cron` the trigger type "cron".
pub record TestPlan : Type 0 where
  pub id : ℕ
  pub project_id : ℕ
  pub version : ℕ
  pub environment_ids : List ℕ
  pub targets : List Target
  pub is_parallel : Bool
  pub stop_on_failure : Bool
  pub retry_count : ℕ
  pub timeout_minutes : ℕ
  pub enabled : Bool
  pub is_cron : Bool
  pub cron_expression : Text
  pub next_run_at : Option ℕ
  pub last_run_at : Option ℕ
  pub created_by_id : ℕ
  pub updated_by_id : ℕ
  pub is_deleted : Bool

pub data Trigger : Type 0 where
  manual schedule webhook : Trigger

pub data RunStatus : Type 0 where
  pending running passed failed timeout : RunStatus

-- The status of a target's result
pub data ResultStatus : Type 0 where
  target_passed target_failed target_timeout : ResultStatus

pub record TargetResult : Type 0 where
  pub target_id : ℕ
  pub status : ResultStatus
  pub attempt : ℕ

-- A run; the snapshot is the plan as it was.
pub record TestPlanRun : Type 0 where
  pub id : ℕ
  pub plan_id : Option ℕ
  pub project_id : ℕ
  pub plan_version : ℕ
  pub environment_id : ℕ
  pub status : RunStatus
  pub trigger : Trigger
  pub idempotency_key : Option ℕ
  pub request_hash : Option ℕ
  pub plan_snapshot : TestPlan
  pub target_results : List TargetResult
  pub target_count : ℕ
  pub passed_count : ℕ
  pub failed_count : ℕ
  pub operator_id : ℕ
  pub scheduled_at : Option ℕ
  pub started_at : ℕ
  pub heartbeat_at : Option ℕ
  pub finished_at : Option ℕ
  pub is_deleted : Bool

pub record PlanRows : Type 0 where
  pub plans : List TestPlan
  pub runs : List TestPlanRun

-- A run of a project with a key.
abbrev pub has_key : ℕ → ℕ → TestPlanRun → Bool
has_key project key r = r.project_id == project && same_opt r.idempotency_key (some key)
