-- ===== src/Tests/Migrations.antt =====
-- Resolving the one block of a run, in a session with autoflush and in one without.
use test_platform_backend.Prelude.{◌≡◌, refl, true, false, some, [], ◌∷◌}
use test_platform_backend.Session.{ok, is_ok}
use test_platform_backend.Permission.{
  require_project_access, owned_or_member, get_project_or_404, owns,
}
use test_platform_backend.Agent.Model.{BlockStatus, RunStatus}
use test_platform_backend.Agent.Migration.{Site, BlockRow, continue_from_checkpoint, resolve_block}
use test_platform_backend.Agent.Migration.Counts.{resolve_block-no_autoflush}
use test_platform_backend.Tests.Rows.{tester, tester_access, journal, call}

abbrev block_row : BlockRow
block_row = record {
  stored = BlockStatus.open_block;
  block = record {
    block_id = 51;
    run_id = 5;
    tool_call_id = some 9;
    status = BlockStatus.open_block;
  };
}

abbrev site : Site
site = record { journal = journal; blocks = block_row ∷ []; call = some call }

member : is_ok (require_project_access tester tester_access) ≡ true
unfolding require_project_access owned_or_member get_project_or_404 owns
member = refl

resolve_block-no_autoflush_example :
    (s : Site) × (resolve_block false tester tester_access 51 continue_from_checkpoint site ≡ ok s)
    × (s.journal.run.migration_block_count ≡ 1)
    × (s.journal.run.status ≡ RunStatus.migration_blocked)
resolve_block-no_autoflush_example =
    resolve_block-no_autoflush tester tester_access 51 continue_from_checkpoint site block_row
      member (refl, tt) refl refl
