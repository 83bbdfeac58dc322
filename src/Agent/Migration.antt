-- ===== src/Agent/Migration.antt =====
-- `MigrationCoordinator` of app/services/agent_reconcile_service.py. A query filters by the
-- columns in the database; a change to an object reaches them with a flush, which a query makes
-- first only in a session with `autoflush`. app/db/session.py makes its sessions without it, the
-- tests with it.
pub mod Counts
use test_platform_backend.Prelude.{
  ℕ, ◌+◌, String, Bool, true, false, ◌&&◌, not, Option, none, some, List, [], ◌∷◌, ◌++◌, ◌==◌, map,
  same_opt, if◌then◌else◌, find, select, update_where, length, is_some,
}
use mathlib.Core.List.{filter_map}
use mathlib.Core.Option
use test_platform_backend.Session.{ErrorCode, Result, ok, err, http, not_found}
use test_platform_backend.Permission.{User, Access, Project, require_project_access}
use test_platform_backend.Agent.Model.{
  AgentRun, AgentToolCall, AgentMigrationBlock, BlockStatus, CallStatus, RunStatus, EventType,
  Recovery,
}
use test_platform_backend.Agent.Events.{Journal, append_event}

-- A row of `ai_agent_migration_blocks`: the status in the database, and the object.
pub record BlockRow : Type 0 where
  pub stored : BlockStatus
  pub block : AgentMigrationBlock

abbrev pub is_open : BlockStatus → Bool
is_open BlockStatus.open_block = true
is_open _ = false

abbrev pub is_resolved : BlockStatus → Bool
is_resolved BlockStatus.resolved = true
is_resolved _ = false

-- The status by which a query filters.
abbrev pub queried : Bool → BlockRow → BlockStatus
queried autoflush r = if autoflush then r.block.status else r.stored

-- `select(...).where(run_id, status == "open")`; every row is of the run.
unfoldable pub open_blocks : Bool → List BlockRow → List AgentMigrationBlock
open_blocks autoflush rows = map (λ r. r.block) (select (λ r. is_open (queried autoflush r)) rows)

-- `[item.tool_call_id for item in blocks if item.tool_call_id]`
unfoldable pub blocking_ids : List AgentMigrationBlock → List ℕ
blocking_ids [] = []
blocking_ids (b ∷ bs) =
    let rest = blocking_ids bs in elim b.tool_call_id [ none ↦ rest | some c ↦ c ∷ rest ]

abbrev pub blocked_status : List AgentMigrationBlock → RunStatus → RunStatus
blocked_status [] s = s
blocked_status (_ ∷ _) s = RunStatus.migration_blocked

-- `_refresh_run_block_state`, and `_refresh_run_block_state_after_resolution` with the same body.
unfoldable pub refresh_run_block_state : Bool → List BlockRow → AgentRun → AgentRun
unfolding open_blocks blocking_ids
refresh_run_block_state autoflush rows run =
    let found = open_blocks autoflush rows in
    record run {
      migration_block_count = length found;
      blocking_tool_call_ids = blocking_ids found;
      status = blocked_status found run.status;
    }

-- The rows that a coordinator works on: the run with its events, its blocks, the oldest first, and
-- the tool call concerned.
pub record Site : Type 0 where
  pub journal : Journal
  pub blocks : List BlockRow
  pub call : Option AgentToolCall

abbrev pub refresh_site : Bool → Site → Site
refresh_site autoflush s = record s {
  journal = record (s.journal) { run = refresh_run_block_state autoflush s.blocks s.journal.run };
}

-- `flush`: every object reaches its row.
abbrev pub flush_row : BlockRow → BlockRow
flush_row r = record r { stored = r.block.status }

abbrev pub flush_blocks : Site → Site
flush_blocks s = record s { blocks = map flush_row s.blocks }

abbrev pub open_for : Bool → ℕ → BlockRow → Bool
open_for autoflush call r =
    same_opt r.block.tool_call_id (some call) && is_open (queried autoflush r)

abbrev pub add_block : ℕ → AgentToolCall → Site → Site
add_block fresh c s = record s {
  blocks =
      s.blocks
      ++ record {
        stored = BlockStatus.open_block;
        block = record {
          block_id = fresh;
          run_id = s.journal.run.run_id;
          tool_call_id = some c.tool_call_id;
          status = BlockStatus.open_block;
        };
      }
        ∷ [];
}

-- `existing` is the open block of the call that the query finds.
abbrev pub site_with : Bool → ℕ → AgentToolCall → Site → Option BlockRow → Site
site_with autoflush fresh c s (some existing) = refresh_site autoflush s
site_with autoflush fresh c s none = refresh_site autoflush (flush_blocks (add_block fresh c s))

-- `create_tool_call_block`: the site after it.
unfoldable pub create_tool_call_block : Bool → ℕ → AgentToolCall → Site → Site
unfolding refresh_run_block_state
create_tool_call_block autoflush fresh c s =
    site_with autoflush fresh c s (find (open_for autoflush c.tool_call_id) s.blocks)

-- What `CheckpointFreshnessGate.evaluate` answers: the run may continue from its checkpoint, or
-- must stop for this reason.
pub data Freshness : Type 0 where
  continue_from_checkpoint : Freshness
  stop_for : ErrorCode → Freshness

abbrev pub resolve_row : BlockRow → BlockRow
resolve_row r = record r { block = record (r.block) { status = BlockStatus.resolved } }

abbrev needs_migration : CallStatus → Bool
needs_migration CallStatus.needs_migration = true
needs_migration _ = false

abbrev pub resolved_call : AgentToolCall → AgentToolCall
resolved_call c =
    if needs_migration c.status
    then record c {
      status = CallStatus.reconciling;
      recovery_decision = some Recovery.migration_block_resolved_reconcile_required;
      error_code = none;
      error_message = none;
    }
    else c

abbrev pub continued : Freshness → AgentRun → AgentRun
continued continue_from_checkpoint run = record run {
  status = RunStatus.running;
  error_code = none;
}
continued (stop_for code) run = record run { status = RunStatus.paused; error_code = some code }

-- The run after the blocks were counted again.
abbrev pub released_run : Freshness → AgentRun → AgentRun
released_run f run = if run.migration_block_count == 0 then continued f run else run

abbrev log_site : EventType → Site → Site
log_site kind s = record s { journal = append_event s.journal kind none none }

abbrev commit_site : Site → Site
commit_site = flush_blocks

abbrev pub resolved_site : Bool → ℕ → Freshness → Site → Site
resolved_site autoflush id f s =
    let s₁ = record s {
      blocks = update_where (λ r. r.block.block_id == id) resolve_row s.blocks;
      call = Option.map resolved_call s.call;
    } in
    let s₂ = refresh_site autoflush s₁ in
    let s₃ = record s₂ { journal = record (s₂.journal) { run = released_run f s₂.journal.run } } in
    flush_blocks (
      log_site EventType.run_migration_resolved
        (log_site EventType.checkpoint_freshness_checked s₃))

abbrev resolve_found : Bool → ℕ → Freshness → Option BlockRow → Site → Result Site
resolve_found autoflush id f none s = err (http not_found none)
resolve_found autoflush id f (some r) s =
    if is_resolved r.block.status then ok s else ok (resolved_site autoflush id f s)

abbrev resolve_checked : Bool → ℕ → Freshness → Result Project → Site → Result Site
resolve_checked autoflush id f (err e) s = err e
resolve_checked autoflush id f (ok _) s =
    resolve_found autoflush id f (find (λ r. r.block.block_id == id) s.blocks) s

-- `resolve_block`, for a run that was found; `f` is what the freshness gate answers.
unfoldable pub resolve_block : Bool → User → Access → ℕ → Freshness → Site → Result Site
unfolding refresh_run_block_state
resolve_block autoflush u access id f s =
    resolve_checked autoflush id f (require_project_access u access) s
