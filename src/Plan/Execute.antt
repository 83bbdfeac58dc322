-- ===== src/Plan/Execute.antt =====
-- `execute_run` and `_execute_target` of app/services/test_plan_service.py. What the clock shows,
-- what a target's scenario does at an attempt, and the results of `_execute_parallel` are arguments.
-- The heartbeats between the targets, the time of the plan's last run and the notification are left
-- out.
pub mod Attempts
pub mod Targets
pub mod Ended
use test_platform_backend.Prelude.{
  ℕ, zero, suc, ◌+◌, ◌-◌, ◌*◌, Bool, true, false, ◌&&◌, ◌||◌, not, Option, none, some, List, [],
  ◌∷◌, ◌==◌, ltb, leb, find, select, all, length, update_where, if◌then◌else◌,
}
use test_platform_backend.Plan.{
  TestPlan, TestPlanRun, Target, TargetResult, ResultStatus, target_passed, target_failed,
  target_timeout, PlanRows, RunStatus, pending, running, passed, failed, timeout,
}

abbrev pub is_passed : ResultStatus → Bool
is_passed target_passed = true
is_passed _ = false

-- `runs and all(run.status == "passed" for run in runs)`; none is an exception.
abbrev pub all_passed : Option (List Bool) → Bool
all_passed none = false
all_passed (some []) = false
all_passed (some (r ∷ rs)) = r && all (λ b. b) rs

-- The attempts of `_execute_target`: `clock` and `scenario` are read at each, and `rounds` are left.
unfoldable pub attempts : ℕ → (ℕ → ℕ) → (ℕ → Option (List Bool)) → ℕ → ℕ → ResultStatus × ℕ
attempts deadline clock scenario zero attempt = (target_failed, attempt - 1)
attempts deadline clock scenario (suc rounds) attempt =
    let rest = attempts deadline clock scenario rounds (attempt + 1) in
    if leb deadline (clock attempt)
    then (target_timeout, attempt)
    else if all_passed (scenario attempt)
    then (target_passed, attempt)
    else rest

-- `_execute_target`
unfoldable pub execute_target : ℕ → (ℕ → ℕ) → (ℕ → Option (List Bool)) → ℕ → Target → TargetResult
unfolding attempts
execute_target deadline clock scenario retry_count t =
    let (status, attempt) = attempts deadline clock scenario (retry_count + 1) 1 in
    record { target_id = t.id; status = status; attempt = attempt }

-- The targets in turn: `clock` tells the time before each, and `run` what it gives.
unfoldable pub execute_targets :
    ℕ → (ℕ → ℕ) → (Target → TargetResult) → Bool → ℕ → List Target → List TargetResult
execute_targets deadline clock run stop n [] = []
execute_targets deadline clock run stop n (t ∷ ts) =
    let rest = execute_targets deadline clock run stop (n + 1) ts in
    if leb deadline (clock n)
    then []
    else if not (is_passed (run t).status) && stop
    then run t ∷ []
    else run t ∷ rest

-- `sorted(targets, key=sort_order)`, which is stable.
unfoldable pub insert_target : Target → List Target → List Target
insert_target t [] = t ∷ []
insert_target t (u ∷ us) =
    let rest = insert_target t us in if leb t.sort_order u.sort_order then t ∷ u ∷ us else u ∷ rest

unfoldable pub in_order : List Target → List Target
unfolding insert_target
in_order [] = []
in_order (t ∷ ts) = insert_target t (in_order ts)

abbrev pub is_open : RunStatus → Bool
is_open pending = true
is_open running = true
is_open _ = false

abbrev pub is_running : RunStatus → Bool
is_running running = true
is_running _ = false

abbrev pub beats_after : Option ℕ → ℕ → Bool
beats_after none time = false
beats_after (some beat) time = ltb time beat

-- The guards of `execute_run`: the run is over, or another worker has it.
unfoldable pub is_taken : ℕ → TestPlanRun → Bool
is_taken stale_before r =
    not (is_open r.status) || is_running r.status && beats_after r.heartbeat_at stale_before

abbrev pub claimed : ℕ → TestPlanRun → TestPlanRun
claimed now r = record r { status = running; heartbeat_at = some now; started_at = now }

abbrev pub deadline_of : TestPlanRun → ℕ
deadline_of r = r.started_at + r.plan_snapshot.timeout_minutes * 60

abbrev pub result_status : ℕ → List TargetResult → RunStatus
result_status targets results =
    if length (select (λ (r : TargetResult). not (is_passed r.status)) results) == 0
      && length results == targets
    then passed
    else failed

-- The writes after the targets.
unfoldable pub finished : List TargetResult → ℕ → ℕ → TestPlanRun → TestPlanRun
finished results targets finished_at r = record r {
  target_results = results;
  passed_count = length (select (λ (x : TargetResult). is_passed x.status) results);
  failed_count = length (select (λ (x : TargetResult). not (is_passed x.status)) results);
  status = if leb (deadline_of r) finished_at then timeout else result_status targets results;
  finished_at = some finished_at;
}

-- What a run meets: whether its operator may still act, what the clock shows before each target,
-- what the clock and the scenario give at each attempt of a target, what the threads give, and when
-- all is done.
pub record World : Type 0 where
  pub operator_is_active : ℕ → Bool
  pub before_target : ℕ → ℕ
  pub at_attempt : Target → ℕ → ℕ
  pub scenario : Target → ℕ → Option (List Bool)
  pub in_parallel : List Target → List TargetResult
  pub end : ℕ

abbrev pub results_of : World → TestPlanRun → List TargetResult
unfolding execute_targets execute_target in_order
results_of w r =
    let plan = r.plan_snapshot in
    if plan.is_parallel
    then w.in_parallel (in_order plan.targets)
    else execute_targets (deadline_of r) w.before_target
        (λ t. execute_target (deadline_of r) (w.at_attempt t) (w.scenario t) plan.retry_count t)
        plan.stop_on_failure 0 (in_order plan.targets)

-- `execute_run` on the run's row, with the deadline after `now`.
unfoldable pub execute_run : World → ℕ → ℕ → TestPlanRun → TestPlanRun
unfolding is_taken finished execute_targets execute_target in_order
execute_run w now stale_seconds r =
    if is_taken (now - stale_seconds) r
    then r
    else if not (w.operator_is_active r.operator_id)
    then record (claimed now r) { status = failed; finished_at = some w.end }
    else finished (results_of w (claimed now r)) (length r.plan_snapshot.targets) w.end
        (claimed now r)
