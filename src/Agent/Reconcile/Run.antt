-- ===== src/Agent/Reconcile/Run.antt =====
-- `ReconcileWorker.reconcile_run` (app/services/agent_reconcile_service.py), for a run that is
-- there; its summary is left out.
pub mod Progress
use test_platform_backend.Prelude.{◌+◌, ◌&&◌, Option, some, none, List, [], ◌∷◌, if◌then◌else◌}
use test_platform_backend.Session.{Result, ok, err}
use test_platform_backend.Permission.{User, Access, Project, require_project_access}
use test_platform_backend.Agent.Model.{AgentToolCall, AgentReconcileAttempt, is_terminal}
use test_platform_backend.Agent.Events.{Journal}
use test_platform_backend.Agent.Migration.{BlockRow}
use test_platform_backend.Agent.Reconcile.{Docket, Setup, is_eligible, is_due, reconcile_tool_call}

-- A call of the run with its attempts.
pub record Line : Type 0 where
  pub call : AgentToolCall
  pub attempts : List AgentReconcileAttempt

-- The run with its events and blocks, and its calls in the order of the query.
pub record Ledger : Type 0 where
  pub journal : Journal
  pub blocks : List BlockRow
  pub lines : List Line

abbrev pub docket_of : Ledger → Line → Docket
docket_of l x = record {
  journal = l.journal;
  blocks = l.blocks;
  call = x.call;
  attempts = x.attempts;
}

abbrev pub line_of : Docket → Line
line_of d = record { call = d.call; attempts = d.attempts }

-- A block made for one call has another id than one made before.
abbrev pub next_fresh : Setup → Setup
next_fresh s = record s { fresh = s.fresh + 1 }

abbrev pub add_line : Line → Ledger → Ledger
add_line x l = record l { lines = x ∷ l.lines }

-- The calls that are eligible and not skipped for their backoff are reconciled one by one; the
-- others stay.
unfoldable pub reconcile_lines : Setup → List Line → Ledger → Ledger
reconcile_lines s [] l = record l { lines = [] }
reconcile_lines s (x ∷ rest) l =
    let d = reconcile_tool_call s (docket_of l x) in
    let go =
      reconcile_lines (next_fresh s) rest (record l { journal = d.journal; blocks = d.blocks }) in
    let skip = reconcile_lines s rest l in
    if is_eligible x.call.status && is_due s.now x.attempts
    then add_line (line_of d) go
    else add_line x skip

abbrev pub reconcile_checked : Setup → Ledger → Result Project → Result Ledger
reconcile_checked s l (err e) = err e
reconcile_checked s l (ok _) =
    if is_terminal l.journal.run.status then ok l else ok (reconcile_lines s l.lines l)

-- `reconcile_run`
unfoldable pub reconcile_run : Setup → User → Access → Ledger → Result Ledger
unfolding reconcile_lines
reconcile_run s u access l = reconcile_checked s l (require_project_access u access)
