-- ===== src/Plan/Schedule.antt =====
-- The scheduling of `run_due_plans`, and `set_enabled`, of app/services/test_plan_service.py. The
-- text of a run's key, `schedule-{plan}-{environment}-{time}`, is an argument, as are the users and
-- environments that there are.
pub mod Runs
pub mod Due
use test_platform_backend.Prelude.{
  ℕ, ◌+◌, Bool, true, false, ◌&&◌, ◌||◌, not, Option, none, some, List, [], ◌∷◌, ◌==◌, leb, find,
  same_opt, length, update_where, Text, if◌then◌else◌,
}
use test_platform_backend.Session.{
  Exec, Result, ok, err, HttpException, http, not_found, bad_request, conflict, server_error,
  some_or, require, pure, modify, commit, gets, lift, ◌>>=◌, ◌>>◌,
}
use test_platform_backend.Permission.{User, Access, require_project_permission}
use test_platform_backend.Cron.{Zone, next_cron_time}
use test_platform_backend.Plan.{
  TestPlan, TestPlanRun, Trigger, schedule, PlanRows, RunStatus, pending, has_key,
}

abbrev pub time_due : Option ℕ → ℕ → Bool
time_due none now = false
time_due (some time) now = leb time now

-- The conditions of the query for plans.
abbrev pub is_due : ℕ → TestPlan → Bool
is_due now t = t.enabled && not t.is_deleted && t.is_cron && time_due t.next_run_at now

-- `plan.next_run_at or current_time`
abbrev pub time_or : Option ℕ → ℕ → ℕ
time_or none now = now
time_or (some time) now = time

-- What the loop reads besides the tables. `key` gives the text of a run's key, in which the plan, the
-- environment and the time can be told apart.
pub record Surroundings : Type 0 where
  pub zone : TestPlan → Zone
  pub has_user : ℕ → Bool
  pub has_environment : ℕ → ℕ → Bool
  pub key : ℕ → ℕ → ℕ → ℕ
  pub fingerprint : TestPlan → ℕ → ℕ → ℕ
  pub fresh : ℕ → ℕ → ℕ

module _ (w : Surroundings) (now : ℕ) where
  abbrev pub scheduled_at : TestPlan → ℕ
  scheduled_at t = time_or t.next_run_at now

  abbrev pub key_of : TestPlan → ℕ → ℕ
  key_of t environment = w.key t.id environment (scheduled_at t)

  abbrev pub scheduled_run : TestPlan → ℕ → TestPlanRun
  scheduled_run t environment = record {
    id = w.fresh t.id environment;
    plan_id = some t.id;
    project_id = t.project_id;
    plan_version = t.version;
    environment_id = environment;
    status = pending;
    trigger = schedule;
    idempotency_key = some (key_of t environment);
    request_hash = some (w.fingerprint t environment (scheduled_at t));
    plan_snapshot = t;
    target_results = [];
    target_count = length t.targets;
    passed_count = 0;
    failed_count = 0;
    operator_id = t.created_by_id;
    scheduled_at = some (scheduled_at t);
    started_at = now;
    heartbeat_at = none;
    finished_at = none;
    is_deleted = false;
  }

  -- The loop over a plan's environments; an environment that is gone raises.
  abbrev pub add_scheduled :
      TestPlan → ℕ → Option TestPlanRun → List TestPlanRun → Result (List TestPlanRun)
  add_scheduled t environment (some r) runs = ok runs
  add_scheduled t environment none runs =
      if w.has_environment t.project_id environment
      then ok (scheduled_run t environment ∷ runs)
      else err (http bad_request none)

  abbrev pub and_then : {A B : Type 0} → Result A → (A → Result B) → Result B
  and_then (ok a) f = f a
  and_then (err e) f = err e

  unfoldable pub schedule_environments :
      TestPlan → List ℕ → List TestPlanRun → Result (List TestPlanRun)
  schedule_environments t [] runs = ok runs
  schedule_environments t (e ∷ es) runs =
      and_then (add_scheduled t e (find (has_key t.project_id (key_of t e)) runs) runs)
        (λ runs'. schedule_environments t es runs')

  -- A plan whose creator is gone gets no runs.
  abbrev pub schedule_runs : TestPlan → List TestPlanRun → Result (List TestPlanRun)
  unfolding schedule_environments
  schedule_runs t runs =
      if w.has_user t.created_by_id then schedule_environments t t.environment_ids runs else ok runs

  -- `next_cron_time` raises where it gives none.
  abbrev pub next_or_raise : {A : Type 0} → Option ℕ → (ℕ → Result A) → Result A
  next_or_raise none f = err (http server_error none)
  next_or_raise (some time) f = f time

  abbrev pub schedule_plan : TestPlan → List TestPlanRun → Result (TestPlan × List TestPlanRun)
  unfolding schedule_environments next_cron_time
  schedule_plan t runs =
      if is_due now t
      then and_then (schedule_runs t runs) (λ runs'.
        next_or_raise (next_cron_time (w.zone t) t.cron_expression now)
          (λ time. ok (record t { next_run_at = some time }, runs')))
      else ok (t, runs)

  -- The loop over the plans, which writes each plan that is due.
  unfoldable pub schedule_plans :
      List TestPlan → List TestPlanRun → Result (List TestPlan × List TestPlanRun)
  unfolding schedule_environments next_cron_time
  schedule_plans [] runs = ok ([], runs)
  schedule_plans (t ∷ ts) runs =
      and_then (schedule_plan t runs)
        (λ first. and_then (schedule_plans ts first.1) (λ rest. ok (first.0 ∷ rest.0, rest.1)))

  -- `run_due_plans`, to the first commit
  unfoldable pub schedule_due_plans : Exec PlanRows Unit
  unfolding schedule_plans
  schedule_due_plans = do
    d ← gets (λ d. d)
    written ← lift (schedule_plans d.plans d.runs)
    modify (λ _. record { plans = written.0; runs = written.1 })
    commit

abbrev is_empty : Text → Bool
is_empty [] = true
is_empty (_ ∷ _) = false

-- `_calculate_next_run`, none where it is `None`; `some none` is that it raises.
abbrev pub calculate_next_run : Zone → ℕ → TestPlan → Option (Option ℕ)
unfolding next_cron_time
calculate_next_run z now t =
    if not t.enabled || not t.is_cron || is_empty t.cron_expression
    then none
    else some (next_cron_time z t.cron_expression now)

abbrev pub version_agrees : Option ℕ → ℕ → Bool
version_agrees none version = true
version_agrees (some v) version = v == version

abbrev next_run : Option (Option ℕ) → Exec PlanRows (Option ℕ)
next_run none = pure none
next_run (some none) = lift (err (http server_error none))
next_run (some (some time)) = pure (some time)

-- `set_enabled`
unfoldable pub set_enabled :
    User → Access → Zone → ℕ → ℕ → Bool → Option ℕ → ℕ → Exec PlanRows TestPlan
set_enabled u access z project plan enabled version now = do
  lift (require_project_permission u access "plan:update")
  d ← gets (λ d. d)
  t ←
      some_or
        (find (λ (t : TestPlan). t.id == plan && t.project_id == project && not t.is_deleted)
          d.plans)
        (http not_found none)
  require (version_agrees version t.version) (http conflict none)
  let t' = record t { enabled = enabled }
  time ← next_run (if enabled then calculate_next_run z now t' else none)
  let t'' = record t' { next_run_at = time; version = t.version + 1; updated_by_id = u.id }
  modify
      (λ d. record d { plans = update_where (λ (x : TestPlan). x.id == plan) (λ _. t'') d.plans })
  commit
  pure t''
