-- ===== src/Agent/Migration/Counts.antt =====
-- What the block count of a run says, in a session with autoflush and in one without
-- (app/services/agent_reconcile_service.py).
use test_platform_backend.Prelude.{
  ℕ, suc, ◌≡◌, refl, Bool, true, false, not, some, List, [], ◌∷◌, ◌==◌, ◌&&◌, arith, find, select,
  update_where, length, Bool-cases, inl, inr, length-map, if◌then◌else◌,
}
use mathlib.Core.Path.{◌∙◌}
use test_platform_backend.Session.{Result, ok, err, is_ok}
use test_platform_backend.Permission.{User, Access, Project, require_project_access}
use test_platform_backend.Agent.Model.{AgentRun, AgentMigrationBlock, BlockStatus, RunStatus}
use test_platform_backend.Agent.Events.{append_event}
use test_platform_backend.Agent.Migration.{
  Site, BlockRow, Freshness, continue_from_checkpoint, stop_for, blocked_status, is_open,
  is_resolved, open_blocks, refresh_run_block_state, resolve_row, resolve_block, resolved_site,
  released_run, queried,
}

-- The blocks of a run other than `id` that are open.
abbrev pub others_open : ℕ → List BlockRow → List BlockRow
others_open id = select (λ r. is_open r.block.status && not (r.block.block_id == id))

resolved_open :
    (id : ℕ) (rows : List BlockRow)
    → length (
        select
          (λ r. is_open (queried true r))
          (update_where (λ r. r.block.block_id == id) resolve_row rows))
      ≡ length (others_open id rows)
resolved_open id [] = refl
resolved_open id (r ∷ rows) = ground (arith, resolved_open id rows)

-- The block and its row agree: nothing is waiting for a flush.
abbrev pub Flushed : List BlockRow → Type 0
Flushed [] = Unit
Flushed (r ∷ rows) = (r.stored ≡ r.block.status) × Flushed rows

unresolved_open :
    (id : ℕ) (rows : List BlockRow)
    → Flushed rows
    → length (
        select
          (λ r. is_open (queried false r))
          (update_where (λ r. r.block.block_id == id) resolve_row rows))
      ≡ length (select (λ r. is_open r.block.status) rows)
unresolved_open id [] h = refl
unresolved_open id (r ∷ rows) h = ground (arith, unresolved_open id rows h.1)

open_of_find :
    (id : ℕ) (rows : List BlockRow) (r : BlockRow)
    → find (λ r. r.block.block_id == id) rows ≡ some r
    → is_open r.block.status ≡ true
    → (n : ℕ) × (length (select (λ r. is_open r.block.status) rows) ≡ suc n)
open_of_find id [] r h o = cc
open_of_find id (x ∷ rows) r h o = elim (Bool-cases (is_open x.block.status)) [
  | inl e ↦ (length (select (λ r. is_open r.block.status) rows), ground arith)
  | inr e ↦ let (n, q) = open_of_find id rows r (ground arith) o in (n, ground arith)
]

-- The status of a run that no block holds any more.
abbrev pub freed : Freshness → RunStatus
freed continue_from_checkpoint = RunStatus.running
freed (stop_for code) = RunStatus.paused

ok_of_is_ok : (r : Result Project) → is_ok r ≡ true → (p : Project) × (r ≡ ok p)
ok_of_is_ok (ok p) h = (p, refl)
ok_of_is_ok (err e) h = cc

open_not_resolved : (b : BlockStatus) → is_open b ≡ true → is_resolved b ≡ false
open_not_resolved BlockStatus.open_block h = refl
open_not_resolved BlockStatus.resolved h = cc
open_not_resolved BlockStatus.cancelled h = cc

resolve_block-found :
    (autoflush : Bool) (u : User) (access : Access) (id : ℕ) (f : Freshness) (s : Site)
    (r : BlockRow)
    → is_ok (require_project_access u access) ≡ true
    → find (λ r. r.block.block_id == id) s.blocks ≡ some r
    → is_resolved r.block.status ≡ false
    → resolve_block autoflush u access id f s ≡ ok (resolved_site autoflush id f s)
unfolding resolve_block
resolve_block-found autoflush u access id f s r allowed found fresh =
    let (p, e) = ok_of_is_ok (require_project_access u access) allowed in rw (e, found, fresh)

blocked_status-length :
    (found : List AgentMigrationBlock) (status : RunStatus)
    → blocked_status found status
      ≡ (if length found == 0 then status else RunStatus.migration_blocked)
blocked_status-length [] status = refl
blocked_status-length (b ∷ bs) status = ground arith

if_suc :
    (n m : ℕ) (f : Freshness)
    → n ≡ suc m
    → (if n == 0 then freed f else RunStatus.migration_blocked) ≡ RunStatus.migration_blocked
if_suc n m f h = ground arith

released_run-counts :
    (f : Freshness) (run : AgentRun) (n : ℕ) (status : RunStatus)
    → run.migration_block_count ≡ n
    → run.status ≡ (if n == 0 then status else RunStatus.migration_blocked)
    → ((released_run f run).migration_block_count ≡ n)
      × ((released_run f run).status ≡ (if n == 0 then freed f else RunStatus.migration_blocked))
released_run-counts continue_from_checkpoint run n status h g = ground arith
released_run-counts (stop_for code) run n status h g = ground arith

resolved_site-counts :
    (autoflush : Bool) (id : ℕ) (f : Freshness) (s : Site) (n : ℕ)
    → length (
        select
          (λ r. is_open (queried autoflush r))
          (update_where (λ r. r.block.block_id == id) resolve_row s.blocks))
      ≡ n
    → ((resolved_site autoflush id f s).journal.run.migration_block_count ≡ n)
      × ((resolved_site autoflush id f s).journal.run.status
          ≡ (if n == 0 then freed f else RunStatus.migration_blocked))
unfolding append_event refresh_run_block_state open_blocks
resolved_site-counts autoflush id f s n h =
    let rows = update_where (λ r. r.block.block_id == id) resolve_row s.blocks in
    let run = refresh_run_block_state autoflush rows s.journal.run in
    let found = open_blocks autoflush rows in
    let counted : length found ≡ n = rw (length-map, h) in
    let blocked : run.status
        ≡ (if n == 0 then s.journal.run.status else RunStatus.migration_blocked) =
      rw (blocked_status-length, counted) in
    released_run-counts f run n s.journal.run.status counted blocked

-- In a session with autoflush, resolving a block that is not resolved leaves a run with a count of
-- its other open blocks, which goes on (or pauses, as the freshness gate says) exactly where there
-- is none, and is blocked otherwise.
pub resolve_block-autoflush :
    (u : User) (access : Access) (id : ℕ) (f : Freshness) (s : Site) (r : BlockRow)
    → is_ok (require_project_access u access) ≡ true
    → find (λ r. r.block.block_id == id) s.blocks ≡ some r
    → is_resolved r.block.status ≡ false
    → (s' : Site) × (resolve_block true u access id f s ≡ ok s')
      × (s'.journal.run.migration_block_count ≡ length (others_open id s.blocks))
      × (s'.journal.run.status ≡ (
          if length (others_open id s.blocks) == 0 then freed f else RunStatus.migration_blocked))
resolve_block-autoflush u access id f s r allowed found fresh = (
  resolved_site true id f s,
  resolve_block-found true u access id f s r allowed found fresh,
  (resolved_site-counts true id f s _ (resolved_open id s.blocks)).0,
  (resolved_site-counts true id f s _ (resolved_open id s.blocks)).1,
)

-- In a session without autoflush, resolving an open block leaves the run blocked, and counts the
-- block that was resolved as open.
pub resolve_block-no_autoflush :
    (u : User) (access : Access) (id : ℕ) (f : Freshness) (s : Site) (r : BlockRow)
    → is_ok (require_project_access u access) ≡ true
    → Flushed s.blocks
    → find (λ r. r.block.block_id == id) s.blocks ≡ some r
    → is_open r.block.status ≡ true
    → (s' : Site) × (resolve_block false u access id f s ≡ ok s')
      × (s'.journal.run.migration_block_count
          ≡ length (select (λ r. is_open r.block.status) s.blocks))
      × (s'.journal.run.status ≡ RunStatus.migration_blocked)
resolve_block-no_autoflush u access id f s r allowed flushed found fresh =
    let (n, q) = open_of_find id s.blocks r found fresh in
    let (count, status) =
      resolved_site-counts false id f s _ (unresolved_open id s.blocks flushed) in
    (
      resolved_site false id f s,
      resolve_block-found false u access id f s r allowed found (open_not_resolved _ fresh),
      count,
      status ∙ if_suc _ n f q,
    )
