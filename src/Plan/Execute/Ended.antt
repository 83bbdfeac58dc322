-- ===== src/Plan/Execute/Ended.antt =====
-- How `execute_run` of app/services/test_plan_service.py ends.
use test_platform_backend.Prelude.{
  ℕ, ◌+◌, ◌-◌, ◌*◌, ◌<◌, ◌≡◌, refl, sym, ◌∙◌, Bool, true, false, ◌&&◌, List, ◌==◌, leb, length, ◌↔◌,
  Bool-cases, inl, inr, if◌then◌else◌, arith,
}
use test_platform_backend.Plan.{TestPlanRun, Target, TargetResult, passed, failed, timeout}
use test_platform_backend.Plan.Execute.{
  execute_target, execute_targets, in_order, is_open, is_taken, claimed, deadline_of, result_status,
  finished, World, results_of, execute_run,
}
use test_platform_backend.Plan.Execute.Targets.{
  AllPassed, execute_targets_iff, failures, length-in_order,
}

-- A run that was executed: it is over, every result is counted once, and it passed only in time and
-- with a passed result for each target.
pub record IsOver (w : World) (before after : TestPlanRun) : Type 0 where
  pub closed : is_open after.status ≡ false
  pub counted : after.passed_count + after.failed_count ≡ length after.target_results
  pub sound :
      after.status ≡ passed
      → (after.failed_count ≡ 0)
        × (w.end < deadline_of after)
        × (after.passed_count ≡ length before.plan_snapshot.targets)
  pub same_run : (after.id ≡ before.id) × (after.plan_snapshot ≡ before.plan_snapshot)

-- How the execution of a run ends.
pub data RunEnd (w : World) (now stale : ℕ) (r : TestPlanRun) : TestPlanRun → Type 0 where
  left : is_taken (now - stale) r ≡ true → RunEnd w now stale r r
  no_operator :
      is_taken (now - stale) r ≡ false
      → w.operator_is_active r.operator_id ≡ false
      → (after : TestPlanRun) → after.status ≡ failed
      → after.target_results ≡ r.target_results
      → RunEnd w now stale r after
  over :
      is_taken (now - stale) r ≡ false
      → w.operator_is_active r.operator_id ≡ true
      → (after : TestPlanRun) → IsOver w r after
      → RunEnd w now stale r after

second : {A : Type 0} (b : Bool) (x y : A) → b ≡ false → (if b then x else y) ≡ y
second b x y e = rw e refl

status_iff :
    (deadline end n : ℕ) (results : List TargetResult)
    → ((if leb deadline end then timeout else result_status n results) ≡ passed)
      ↔ ((end < deadline) × (failures results ≡ 0) × (length results ≡ n))
status_iff deadline end n results = elim (Bool-cases (leb deadline end)) [
  | inl late ↦ rw late ((λ e. absurd (ground arith)), (λ h. absurd (ground arith)))
  | inr in_time ↦ elim (Bool-cases (failures results == 0 && length results == n)) [
    | inl good ↦ rw (in_time, good) ((λ e. (ground arith, ground arith, ground arith)), (λ h. refl))
    | inr bad ↦ rw (in_time, bad) ((λ e. absurd (ground arith)), (λ h. absurd (ground arith)))
  ]
]

-- The execution of a run whose targets go in turn, with an active operator and not taken by
-- another worker, makes it pass exactly if every target began before the deadline and passed, and
-- all was done before it. The policy for failures makes no difference to that.
pub execute_run_passes_iff :
    (w : World) (now stale : ℕ) (r : TestPlanRun)
    → is_taken (now - stale) r ≡ false
    → w.operator_is_active r.operator_id ≡ true
    → r.plan_snapshot.is_parallel ≡ false
    → let deadline = now + r.plan_snapshot.timeout_minutes * 60 in
      ((execute_run w now stale r).status ≡ passed) ↔ (
        (w.end < deadline)
        × AllPassed deadline w.before_target
            (λ t.
              execute_target deadline (w.at_attempt t) (w.scenario t) r.plan_snapshot.retry_count t)
            r.plan_snapshot.stop_on_failure
            0
            (in_order r.plan_snapshot.targets))
unfolding execute_run finished
execute_run_passes_iff w now stale r open_run there in_turn =
    let deadline = now + r.plan_snapshot.timeout_minutes * 60 in
    let targets = in_order r.plan_snapshot.targets in
    let run : Target → TargetResult =
      λ t. execute_target deadline (w.at_attempt t) (w.scenario t) r.plan_snapshot.retry_count t in
    let rs =
      execute_targets deadline w.before_target run r.plan_snapshot.stop_on_failure 0 targets in
    let facts =
      execute_targets_iff deadline w.before_target run r.plan_snapshot.stop_on_failure 0 targets in
    let same = length-in_order r.plan_snapshot.targets in
    let taken_results : results_of w (claimed now r) ≡ rs =
      second r.plan_snapshot.is_parallel (w.in_parallel targets) rs in_turn in
    let status = status_iff deadline w.end (length r.plan_snapshot.targets) rs in
    rw (open_run, there, taken_results)
      (
        λ e. (let k = status.0 e in (k.0, facts.0 (k.1, k.2 ∙ sym same))),
        λ h. (let k = facts.1 h.1 in status.1 (h.0, k.0, k.1 ∙ same)),
      )
