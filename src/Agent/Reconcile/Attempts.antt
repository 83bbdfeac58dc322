-- ===== src/Agent/Reconcile/Attempts.antt =====
-- The numbering of the attempts of a call, and the backoff that `reconcile_run` reads from the
-- latest of them (app/services/agent_reconcile_service.py).
use test_platform_backend.Prelude.{
  ℕ, ◌+◌, ◌≤◌, ◌<◌, ◌≡◌, inl, inr, false, some, List, [], ◌∷◌, arith, Option-cases,
}
use test_platform_backend.Agent.Model.{AgentReconcileAttempt}
use test_platform_backend.Agent.Reconcile.{max_seq, latest_attempt, is_due}

latest_attempt-le-max_seq :
    (attempts : List AgentReconcileAttempt) (a : AgentReconcileAttempt)
    → latest_attempt attempts ≡ some a
    → a.attempt_seq ≤ max_seq attempts
unfolding latest_attempt max_seq
latest_attempt-le-max_seq [] a h = cc
latest_attempt-le-max_seq (x ∷ rest) a h = elim (Option-cases (latest_attempt rest)) [
  | inl e ↦ ground arith
  | inr (b, e) ↦ let k = latest_attempt-le-max_seq rest b e in ground arith
]

-- An attempt numbered after all others is the latest.
pub latest_attempt-new :
    (x : AgentReconcileAttempt) (rest : List AgentReconcileAttempt)
    → x.attempt_seq ≡ max_seq rest + 1
    → latest_attempt (x ∷ rest) ≡ some x
unfolding latest_attempt
latest_attempt-new x rest h = elim (Option-cases (latest_attempt rest)) [
  | inl e ↦ ground arith
  | inr (b, e) ↦ let k = latest_attempt-le-max_seq rest b e in ground arith
]

-- The call is not taken again before the time of its latest attempt's retry.
pub not_due :
    (x : AgentReconcileAttempt) (rest : List AgentReconcileAttempt) (until t : ℕ)
    → x.attempt_seq ≡ max_seq rest + 1
    → x.next_retry_at ≡ some until
    → t < until
    → is_due t (x ∷ rest) ≡ false
unfolding is_due
not_due x rest until t numbered retry early =
    let e = latest_attempt-new x rest numbered in ground arith
