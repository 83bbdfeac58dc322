-- ===== src/Plan/Execute/Attempts.antt =====
-- The attempts of `_execute_target` (app/services/test_plan_service.py).
use test_platform_backend.Prelude.{
  ℕ, zero, suc, ◌+◌, ◌-◌, ◌≤◌, ◌<◌, ◌≡◌, Bool, true, false, Option, List, leb, Bool-cases, inl, inr,
  arith,
}
use test_platform_backend.Plan.{Target, ResultStatus, target_passed, target_failed, target_timeout}
use mathlib.Core.Path.{subst}
use test_platform_backend.Plan.Execute.{all_passed, attempts, execute_target}

module _ (deadline : ℕ) (clock : ℕ → ℕ) (scenario : ℕ → Option (List Bool)) where
  -- An attempt that was made in time and did not pass.
  abbrev pub Missed : ℕ → Type 0
  Missed k = (clock k < deadline) × (all_passed (scenario k) ≡ false)

  -- How the attempts from `first` to before `stop` end.
  pub data AttemptsEnd (first stop : ℕ) : ResultStatus × ℕ → Type 0 where
    passed_at :
        (k : ℕ)
        → first ≤ k
        → k < stop
        → ((j : ℕ) → first ≤ j → j < k → Missed j)
        → clock k < deadline
        → all_passed (scenario k) ≡ true
        → AttemptsEnd first stop (target_passed, k)
    timeout_at :
        (k : ℕ)
        → first ≤ k
        → k < stop
        → ((j : ℕ) → first ≤ j → j < k → Missed j)
        → deadline ≤ clock k
        → AttemptsEnd first stop (target_timeout, k)
    all_missed :
        ((j : ℕ) → first ≤ j → j < stop → Missed j)
        → AttemptsEnd first stop (target_failed, stop - 1)

  earlier :
      (first k : ℕ)
      → Missed first
      → ((j : ℕ) → first + 1 ≤ j → j < k → Missed j)
      → (j : ℕ) → first ≤ j
      → j < k
      → Missed j
  earlier first k m rest j from before = elim (Bool-cases (leb j first)) [
    | inl now ↦ (let e : first ≡ j = ground arith in subst Missed e m)
    | inr later ↦ rest j (ground arith) before
  ]

  extend :
      (first stop : ℕ) (r : ResultStatus × ℕ)
      → Missed first
      → AttemptsEnd (first + 1) stop r
      → AttemptsEnd first stop r
  extend first stop _ m (passed_at k from before rest in_time pass) =
      passed_at k (omega arith) before (earlier first k m rest) in_time pass
  extend first stop _ m (timeout_at k from before rest late) =
      timeout_at k (omega arith) before (earlier first k m rest) late
  extend first stop _ m (all_missed rest) = all_missed (earlier first stop m rest)

  attempts-AttemptsEnd :
      (rounds first : ℕ)
      → AttemptsEnd first (first + rounds) (attempts deadline clock scenario rounds first)
  unfolding attempts
  attempts-AttemptsEnd zero first =
      let e : first + 0 ≡ first = omega arith in
      rw e (all_missed (λ j from before. absurd (omega arith)))
  attempts-AttemptsEnd (suc rounds) first = elim (Bool-cases (leb deadline (clock first))) [
    | inl late ↦ rw late (
        timeout_at first (omega arith) (omega arith) (λ j from before. absurd (omega arith))
          (ground arith))
    | inr in_time ↦ elim (Bool-cases (all_passed (scenario first))) [
      | inl pass ↦
          rw (in_time, pass)
            (passed_at first (omega arith) (omega arith) (λ j from before. absurd (omega arith))
              (ground arith) pass)
      | inr miss ↦
          let e : first + suc rounds ≡ first + 1 + rounds = omega arith in
          rw (in_time, miss, e)
            (extend first (first + 1 + rounds) _ ((ground arith), miss)
              (attempts-AttemptsEnd rounds (first + 1)))
    ]
  ]

  -- A target is tried at most one time more often than it may be retried, and no more once it
  -- passed. It counts as passed exactly with the first attempt that passes, if that and all before
  -- it began before the deadline; as timed out at the first attempt that would begin later; and as
  -- failed if every attempt was made in time and none passed. The attempt that is recorded is that
  -- one, or the last.
  pub execute_target-AttemptsEnd :
      (retry_count : ℕ) (t : Target)
      → let r = execute_target deadline clock scenario retry_count t in
        AttemptsEnd 1 (retry_count + 2) (r.status, r.attempt)
  unfolding execute_target
  execute_target-AttemptsEnd retry_count t =
      let e : 1 + (retry_count + 1) ≡ retry_count + 2 = omega arith in
      subst (λ n. AttemptsEnd 1 n (attempts deadline clock scenario (retry_count + 1) 1)) e
        (attempts-AttemptsEnd (retry_count + 1) 1)
