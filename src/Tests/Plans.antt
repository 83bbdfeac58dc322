-- ===== src/Tests/Plans.antt =====
-- A plan of two targets, its run, and its schedule.
use test_platform_backend.Prelude.{
  ℕ, arith, zero, suc, ap, ◌+◌, ◌*◌, ◌<◌, ◌≡◌, refl, Bool, true, false, Option, none, some, List,
  [], ◌∷◌, All, codes, ◌↔◌, ◌==◌, if◌then◌else◌,
}
use test_platform_backend.Session.{ok, request}
use test_platform_backend.Permission.{require_project_permission}
use test_platform_backend.Cron.{cron_matches}
use test_platform_backend.Plan.{TestPlan, TestPlanRun, Target, manual, pending, passed, PlanRows}
use test_platform_backend.Plan.Create.{RunRequest, plan_of, create_plan_run}
use test_platform_backend.Plan.Create.Once.{IsAnswered, create_plan_run-IsAnswered}
use test_platform_backend.Plan.Execute.{World, execute_target, in_order, execute_run, is_taken}
use test_platform_backend.Plan.Execute.Attempts.{AttemptsEnd, execute_target-AttemptsEnd}
use test_platform_backend.Plan.Execute.Targets.{AllPassed}
use test_platform_backend.Plan.Execute.Ended.{execute_run_passes_iff}
use test_platform_backend.Plan.Schedule.{Surroundings, is_due, schedule_due_plans}
use test_platform_backend.Plan.Schedule.Runs.{Grown, IsKeyed}
use test_platform_backend.Plan.Schedule.Due.{Served, schedule_due_plans_once}
use test_platform_backend.Tests.Rows.{owner, tester_access}
use test_platform_backend.Tests.Schedules.{clock, clock_steady}

abbrev target : ℕ → Target
target id = record { id = id; reference_id = id + 100; sort_order = id }

abbrev plan : TestPlan
plan = record {
  id = 3;
  project_id = 1;
  version = 2;
  environment_ids = 11 ∷ 12 ∷ [];
  targets = target 2 ∷ target 1 ∷ [];
  is_parallel = false;
  stop_on_failure = true;
  retry_count = 1;
  timeout_minutes = 10;
  enabled = true;
  is_cron = true;
  cron_expression = codes "5,50-59/4 9 */15 3 *";
  next_run_at = some 5389100;
  last_run_at = none;
  created_by_id = 7;
  updated_by_id = 7;
  is_deleted = false;
}

abbrev rows : PlanRows
rows = record { plans = plan ∷ []; runs = [] }

abbrev asked : RunRequest
asked = record {
  project_id = 1;
  plan_id = 3;
  environment_id = 12;
  idempotency_key = some 77;
  trigger = manual;
  scheduled_at = none;
  request_context = 0;
}

abbrev any_environment : ℕ → Bool
any_environment e = true

abbrev print : RunRequest → TestPlan → ℕ
print p t = t.version + p.environment_id

abbrev run : TestPlanRun
run = record {
  id = 80;
  plan_id = some 3;
  project_id = 1;
  plan_version = 2;
  environment_id = 12;
  status = pending;
  trigger = manual;
  idempotency_key = some 77;
  request_hash = some 14;
  plan_snapshot = plan;
  target_results = [];
  target_count = 2;
  passed_count = 0;
  failed_count = 0;
  operator_id = 7;
  scheduled_at = none;
  started_at = 1000;
  heartbeat_at = none;
  finished_at = none;
  is_deleted = false;
}

create_plan_run-IsAnswered_example :
    (t : TestPlan) × (plan_of asked rows ≡ some t)
    × IsAnswered 1 77
        (print asked t)
        run
        (request
          (create_plan_run owner tester_access any_environment print [] asked 1000 80)
          rows).1
unfolding create_plan_run require_project_permission
create_plan_run-IsAnswered_example =
    create_plan_run-IsAnswered owner tester_access any_environment print [] asked 1000 80 rows tt tt
      77 run refl refl

abbrev world : World
world = record {
  operator_is_active = λ id. true;
  before_target = λ n. 1000 + n * 20;
  at_attempt = λ t k. 1000 + k;
  scenario = λ t k. second_attempt k;
  in_parallel = λ ts. [];
  end = 1100;
}
  where
    second_attempt : ℕ → Option (List Bool)
    second_attempt k = if k == 2 then some (true ∷ []) else none

execute_target-AttemptsEnd_example :
    (let r =
        execute_target 1600
          (world.at_attempt (target 1))
          (world.scenario (target 1))
          1
          (target 1) in
      AttemptsEnd 1600
        (world.at_attempt (target 1))
        (world.scenario (target 1))
        1
        3
        (r.status, r.attempt))
execute_target-AttemptsEnd_example =
    execute_target-AttemptsEnd 1600 (world.at_attempt (target 1)) (world.scenario (target 1)) 1
      (target 1)

execute_run_passes_iff_example : ((execute_run world 1000 300 run).status ≡ passed) ↔ (
    (1100 < 1600)
    × AllPassed 1600 world.before_target
        (λ t. execute_target 1600 (world.at_attempt t) (world.scenario t) 1 t)
        true
        0
        (in_order (target 2 ∷ target 1 ∷ [])))
unfolding is_taken
execute_run_passes_iff_example = execute_run_passes_iff world 1000 300 run refl refl refl

-- Numbers for keys, different ones for different pairs.
abbrev paired : ℕ → ℕ → ℕ
paired zero n = 2 * n + 1
paired (suc m) n = 2 * paired m n

paired-cases : (m n m' n' : ℕ) → paired m n ≡ paired m' n' → (m ≡ m') × (n ≡ n')
paired-cases zero n zero n' h = (refl, omega arith)
paired-cases zero n (suc m') n' h = absurd (odd n (paired m' n') h)
  where
    odd : (n k : ℕ) → 2 * n + 1 ≡ 2 * k → ⊥
    odd n k e = omega arith
paired-cases (suc m) n zero n' h = absurd (even n' (paired m n) h)
  where
    even : (n k : ℕ) → 2 * k ≡ 2 * n + 1 → ⊥
    even n k e = omega arith
paired-cases (suc m) n (suc m') n' h =
    let e = paired-cases m n m' n' (halved (paired m n) (paired m' n') h) in (ap suc e.0, e.1)
  where
    halved : (k l : ℕ) → 2 * k ≡ 2 * l → k ≡ l
    halved k l e = omega arith

abbrev surroundings : Surroundings
surroundings = record {
  zone = λ t. clock;
  has_user = λ id. true;
  has_environment = λ project e. true;
  key = λ plan e time. paired plan (paired e time);
  fingerprint = λ t e time. e;
  fresh = λ plan e. e;
}

surroundings-IsKeyed : IsKeyed surroundings
surroundings-IsKeyed plan e time plan' e' time' h =
    let k = paired-cases plan (paired e time) plan' (paired e' time') h in
    (k.0, (paired-cases e time e' time' k.1).0, (paired-cases e time e' time' k.1).1)

abbrev scheduled : PlanRows
scheduled = (request (schedule_due_plans surroundings 5389200) rows).1

schedule_due_plans_once_example :
    Grown surroundings [] scheduled.runs
    × All (Served surroundings 5389200 [] scheduled.runs) rows.plans
    × All (λ t. is_due 5389200 t ≡ false) scheduled.plans
    × (request (schedule_due_plans surroundings 5389200) scheduled ≡ (ok tt, scheduled))
unfolding schedule_due_plans cron_matches
schedule_due_plans_once_example =
    schedule_due_plans_once surroundings 5389200 surroundings-IsKeyed (λ t. clock_steady) rows
      scheduled refl
