-- ===== src/Agent/Reconcile/Run/Progress.antt =====
-- The calls of a run after a pass of the worker (app/services/agent_reconcile_service.py).
use test_platform_backend.Prelude.{
  ℕ, ◌<◌, ◌≡◌, inl, inr, Bool, true, false, ◌&&◌, List, [], ◌∷◌, arith, All, Bool-cases,
}
use test_platform_backend.Session.{ok, is_ok}
use test_platform_backend.Permission.{User, Access, require_project_access}
use test_platform_backend.Agent.Model.{is_terminal}
use test_platform_backend.Agent.Reconcile.{Docket, Setup, is_eligible, is_due, reconcile_tool_call}
use test_platform_backend.Agent.Reconcile.Outcomes.{
  Outcome, settled, waits, retryable, left_to_people, ended, migrates, reconcile_tool_call-Outcome,
}
use test_platform_backend.Agent.Reconcile.Run.{
  Line, Ledger, docket_of, line_of, next_fresh, reconcile_lines, reconcile_run,
}

-- The call would be reconciled at the time `t`.
abbrev pub is_open_at : ℕ → Line → Bool
is_open_at t x = is_eligible x.call.status && is_due t x.attempts

Outcome-closed :
    (s : Setup) (before after : Docket)
    → 0 < s.backoff_seconds
    → Outcome s before after
    → is_open_at s.now (line_of after) ≡ false
Outcome-closed s before after later (settled e f) = ground arith
Outcome-closed s before after later (waits e f) = let k = f s.now (omega arith) in ground arith
Outcome-closed s before after later (retryable e f) = ground arith
Outcome-closed s before after later (left_to_people e) = ground arith
Outcome-closed s before after later (ended e) = ground arith
Outcome-closed s before after later (migrates e f) = ground arith

reconcile_lines-closed :
    (s : Setup) (rows : List Line) (l : Ledger)
    → 0 < s.backoff_seconds
    → All (λ x. is_open_at s.now x ≡ false) (reconcile_lines s rows l).lines
unfolding reconcile_lines
reconcile_lines-closed s [] l later = tt
reconcile_lines-closed s (x ∷ rest) l later =
    let d = reconcile_tool_call s (docket_of l x) in
    elim (Bool-cases (is_open_at s.now x)) [
      | inl taken ↦ rw taken (
        Outcome-closed s (docket_of l x) d later
            (reconcile_tool_call-Outcome s (docket_of l x) (ground arith)),
        reconcile_lines-closed (next_fresh s) rest
            (record l { journal = d.journal; blocks = d.blocks }) later,
      )
      | inr kept ↦ rw kept (kept, reconcile_lines-closed s rest l later)
    ]

reconcile_run-lines :
    (s : Setup) (u : User) (access : Access) (l : Ledger)
    → is_ok (require_project_access u access) ≡ true
    → is_terminal l.journal.run.status ≡ false
    → reconcile_run s u access l ≡ ok (reconcile_lines s l.lines l)
unfolding reconcile_run
reconcile_run-lines s u access l member running = ground arith

-- One pass over a run that is not over, by someone with access to its project and with a backoff
-- above 0, is answered and leaves no call that could be reconciled at that moment: whatever the
-- backends answer, each call that was due has ended, is left to people, may be retried, or waits.
pub reconcile_run-closed :
    (s : Setup) (u : User) (access : Access) (l : Ledger)
    → 0 < s.backoff_seconds
    → is_ok (require_project_access u access) ≡ true
    → is_terminal l.journal.run.status ≡ false
    → (l' : Ledger) × (reconcile_run s u access l ≡ ok l')
      × All (λ x. is_open_at s.now x ≡ false) l'.lines
reconcile_run-closed s u access l later member running = (
  reconcile_lines s l.lines l,
  reconcile_run-lines s u access l member running,
  reconcile_lines-closed s l.lines l later,
)
