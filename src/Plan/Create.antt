-- ===== src/Plan/Create.antt =====
-- `create_plan_run` of app/services/test_plan_service.py. The fingerprint of a request, which
-- environments a project has, and the runs that other transactions commit between the look for the
-- key and the commit are arguments.
pub mod Once
use test_platform_backend.Prelude.{
  ℕ, String, Bool, true, false, ◌&&◌, not, Option, none, some, List, [], ◌∷◌, ◌++◌, ◌==◌, find, any,
  elem, length, same_opt, if◌then◌else◌,
}
use test_platform_backend.Session.{
  Exec, Result, ok, err, HttpException, http, not_found, bad_request, conflict, server_error,
  some_or, require, pure, raise, modify, commit, rollback, gets, lift, branch, ◌>>=◌, ◌>>◌,
}
use test_platform_backend.Permission.{User, Access, require_project_permission}
use test_platform_backend.Plan.{
  TestPlan, TestPlanRun, Trigger, PlanRows, RunStatus, pending, has_key,
}

pub record RunRequest : Type 0 where
  pub project_id : ℕ
  pub plan_id : ℕ
  pub environment_id : ℕ
  pub idempotency_key : Option ℕ
  pub trigger : Trigger
  pub scheduled_at : Option ℕ
  pub request_context : ℕ

-- `_get_plan`
abbrev pub plan_of : RunRequest → PlanRows → Option TestPlan
plan_of p d =
    find (λ (t : TestPlan). t.id == p.plan_id && t.project_id == p.project_id && not t.is_deleted)
      d.plans

abbrev pub new_run : RunRequest → TestPlan → User → ℕ → ℕ → ℕ → TestPlanRun
new_run p plan u fingerprint now fresh = record {
  id = fresh;
  plan_id = some plan.id;
  project_id = p.project_id;
  plan_version = plan.version;
  environment_id = p.environment_id;
  status = pending;
  trigger = p.trigger;
  idempotency_key = p.idempotency_key;
  request_hash = some fingerprint;
  plan_snapshot = plan;
  target_results = [];
  target_count = length plan.targets;
  passed_count = 0;
  failed_count = 0;
  operator_id = u.id;
  scheduled_at = p.scheduled_at;
  started_at = now;
  heartbeat_at = none;
  finished_at = none;
  is_deleted = false;
}

-- The query by key; a request without one finds nothing.
abbrev pub by_key : ℕ → Option ℕ → List TestPlanRun → Option TestPlanRun
by_key project none rs = none
by_key project (some key) rs = find (has_key project key) rs

abbrev pub hash_agrees : Option ℕ → ℕ → Bool
hash_agrees none fingerprint = true
hash_agrees (some h) fingerprint = h == fingerprint

-- An existing run answers the request, if it is for the same one.
abbrev pub answer : TestPlanRun → ℕ → Result TestPlanRun
answer r fingerprint =
    if hash_agrees r.request_hash fingerprint then ok r else err (http conflict none)

-- `except IntegrityError`: the row is not stored, and the query is made again.
abbrev pub lost_race : Option TestPlanRun → ℕ → Result TestPlanRun
lost_race none fingerprint = err (http server_error none)
lost_race (some r) fingerprint = answer r fingerprint

abbrev pub add_run : TestPlanRun → PlanRows → PlanRows
add_run r d = record d { runs = r ∷ d.runs }

-- The commit of a new run, into the table that the others have left: the constraint on the project
-- and the key lets it in, or does not.
abbrev pub store_run : TestPlanRun → ℕ → Option TestPlanRun → Exec PlanRows TestPlanRun
store_run r fingerprint none = do modify (add_run r); commit; pure r
store_run r fingerprint (some other) = lift (lost_race (some other) fingerprint)

abbrev pub create_or_answer :
    RunRequest
    → TestPlan
    → User
    → ℕ
    → List TestPlanRun
    → ℕ
    → ℕ
    → Option TestPlanRun
    → Exec PlanRows TestPlanRun
create_or_answer p plan u fingerprint others now fresh (some r) = lift (answer r fingerprint)
create_or_answer p plan u fingerprint others now fresh none = do
  modify (λ d. record d { runs = others ++ d.runs })
  commit
  d ← gets (λ d. d)
  store_run (new_run p plan u fingerprint now fresh) fingerprint
      (by_key p.project_id p.idempotency_key d.runs)

-- `create_plan_run`
unfoldable pub create_plan_run :
    User
    → Access
    → (ℕ → Bool)
    → (RunRequest → TestPlan → ℕ)
    → List TestPlanRun
    → RunRequest
    → ℕ
    → ℕ
    → Exec PlanRows TestPlanRun
create_plan_run u access has_environment fingerprint others p now fresh = do
  lift (require_project_permission u access "plan:run")
  d ← gets (λ d. d)
  plan ← some_or (plan_of p d) (http not_found none)
  require (elem p.environment_id plan.environment_ids) (http bad_request none)
  require (has_environment p.environment_id) (http bad_request none)
  create_or_answer p plan u (fingerprint p plan) others now fresh
      (by_key p.project_id p.idempotency_key d.runs)
