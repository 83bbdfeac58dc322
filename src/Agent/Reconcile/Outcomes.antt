-- ===== src/Agent/Reconcile/Outcomes.antt =====
-- What a reconciliation makes of a call (app/services/agent_reconcile_service.py).
use test_platform_backend.Prelude.{
  ℕ, ◌+◌, ◌<◌, ◌≡◌, inl, inr, refl, Bool, true, false, Option, none, some, List, [], ◌∷◌, arith,
  Bool-cases, find,
}
use test_platform_backend.Session.{Result, ok, err}
use test_platform_backend.Agent.Model.{
  AgentToolCall, CallStatus, EffectState, ResultStatus, RunStatus,
}
use test_platform_backend.Agent.Events.{append_event}
use test_platform_backend.Agent.Migration.{
  flush_row, site_with, Site, BlockRow, create_tool_call_block, refresh_run_block_state,
  open_blocks, blocked_status, is_open, queried, open_for, add_block, flush_blocks,
}
use test_platform_backend.Agent.Reconcile.{
  unregistered, backs_off, Docket, ReconcileResult, Setup, Contract, is_due, reconcile_tool_call,
  reconcile_with, settle, route, mark_needs_migration, handle_not_found, record_attempt,
  is_eligible, is_legacy_risk, get_for_call, reconciling_call,
}
use test_platform_backend.Agent.Reconcile.Attempts.{not_due}

blocked_if_open :
    (autoflush : Bool) (p : BlockRow → Bool) (rows : List BlockRow) (r : BlockRow)
    (status : RunStatus)
    → ((x : BlockRow) → p x ≡ true → is_open (queried autoflush x) ≡ true)
    → find p rows ≡ some r
    → blocked_status (open_blocks autoflush rows) status ≡ RunStatus.migration_blocked
unfolding open_blocks
blocked_if_open autoflush p [] r status sound h = cc
blocked_if_open autoflush p (x ∷ rows) r status sound h =
    elim (Bool-cases (is_open (queried autoflush x))) [
      | inl e ↦ rw e refl
      | inr e ↦ elim (Bool-cases (p x)) [
        | inl y ↦ absurd (ground (arith, sound x y))
        | inr n ↦ rw e (blocked_if_open autoflush p rows r status sound (ground arith))
      ]
    ]

blocked_if_added :
    (autoflush : Bool) (fresh : ℕ) (c : AgentToolCall) (s : Site) (rows : List BlockRow)
    (status : RunStatus)
    → blocked_status
        (open_blocks autoflush
          (flush_blocks (add_block fresh c (record s { blocks = rows }))).blocks)
        status
      ≡ RunStatus.migration_blocked
unfolding open_blocks
blocked_if_added true fresh c s [] status = refl
blocked_if_added false fresh c s [] status = refl
blocked_if_added autoflush fresh c s (x ∷ rows) status =
    elim (Bool-cases (is_open (queried autoflush (flush_row x)))) [
      | inl e ↦ rw e refl
      | inr e ↦ rw e (blocked_if_added autoflush fresh c s rows status)
    ]

site_with-blocks :
    (autoflush : Bool) (fresh : ℕ) (c : AgentToolCall) (s : Site) (existing : Option BlockRow)
    → find (open_for autoflush c.tool_call_id) s.blocks ≡ existing
    → (site_with autoflush fresh c s existing).journal.run.status ≡ RunStatus.migration_blocked
unfolding refresh_run_block_state
site_with-blocks autoflush fresh c s none h = blocked_if_added autoflush fresh c s s.blocks _
site_with-blocks autoflush fresh c s (some r) h =
    blocked_if_open autoflush (open_for autoflush c.tool_call_id) s.blocks r _
      (λ x open_x. ground arith) h

-- Creating a block of a call blocks the run, with autoflush and without.
pub create_tool_call_block-blocks :
    (autoflush : Bool) (fresh : ℕ) (c : AgentToolCall) (s : Site)
    → (create_tool_call_block autoflush fresh c s).journal.run.status ≡ RunStatus.migration_blocked
unfolding create_tool_call_block
create_tool_call_block-blocks autoflush fresh c s = site_with-blocks autoflush fresh c s _ refl

-- The rows after a reconciliation that left the call for migration.
mark_needs_migration-blocks :
    (s : Setup) (r : ReconcileResult) (attempt : Docket → Docket) (d : Docket)
    → let e = mark_needs_migration s r attempt d in
      (e.journal.run.status ≡ RunStatus.migration_blocked)
unfolding mark_needs_migration append_event
mark_needs_migration-blocks s r attempt d = create_tool_call_block-blocks s.autoflush s.fresh _ _

mark_needs_migration-status :
    (s : Setup) (r : ReconcileResult) (d : Docket)
    → ((mark_needs_migration s r (λ d. d) d).call.status ≡ CallStatus.needs_migration)
      × ((mark_needs_migration s r (record_attempt r) d).call.status ≡ CallStatus.needs_migration)
unfolding mark_needs_migration record_attempt
mark_needs_migration-status s r d = (refl, refl)

-- How a reconciliation of a call can end.
pub data Outcome (s : Setup) (before after : Docket) : Type 0 where
  settled :
      after.call.status ≡ CallStatus.succeeded
      → after.call.effect_submission_state ≡ EffectState.effect_committed
      → Outcome s before after
  waits :
      is_eligible after.call.status ≡ true
      → ((t : ℕ) → t < s.now + s.backoff_seconds → is_due t after.attempts ≡ false)
      → Outcome s before after
  retryable :
      after.call.status ≡ CallStatus.failed_retryable
      → before.call.effect_submission_state ≡ EffectState.send_intent_recorded
      → Outcome s before after
  left_to_people : after.call.status ≡ CallStatus.manual_intervention → Outcome s before after
  ended : after.call.status ≡ CallStatus.failed → Outcome s before after
  migrates :
      after.call.status ≡ CallStatus.needs_migration
      → after.journal.run.status ≡ RunStatus.migration_blocked
      → Outcome s before after

handle_not_found-Outcome :
    (s : Setup) (state : EffectState) (r : ReconcileResult) (d b : Docket)
    → b.call.effect_submission_state ≡ state
    → Outcome s b (handle_not_found s state (record_attempt r d))
unfolding handle_not_found record_attempt
handle_not_found-Outcome s EffectState.send_intent_recorded r d b h = retryable refl h
handle_not_found-Outcome s EffectState.transport_sent_observed r d b h =
    elim (Bool-cases (backs_off d.call.backend_effect_capability)) [
      | inl e ↦ rw e (waits refl (λ t early. not_due _ _ _ t refl refl early))
      | inr e ↦ left_to_people (rw e refl)
    ]
handle_not_found-Outcome s EffectState.backend_accepted r d b h = left_to_people refl
handle_not_found-Outcome s EffectState.effect_committed r d b h = left_to_people refl
handle_not_found-Outcome s EffectState.none_sent r d b h = left_to_people refl
handle_not_found-Outcome s EffectState.unknown r d b h = left_to_people refl

settle-Outcome :
    (s : Setup) (r : ReconcileResult) (status : ResultStatus) (d b : Docket)
    → b.call.effect_submission_state ≡ d.call.effect_submission_state
    → Outcome s b (settle s r status (record_attempt r d))
unfolding settle record_attempt
settle-Outcome s r ResultStatus.succeeded d b h = settled refl refl
settle-Outcome s r ResultStatus.running d b h =
    waits refl (λ t early. not_due _ _ _ t refl refl early)
settle-Outcome s r ResultStatus.not_found d b h = handle_not_found-Outcome s _ r d b h
settle-Outcome s r ResultStatus.conflict d b h = left_to_people refl
settle-Outcome s r ResultStatus.failed d b h = ended refl
settle-Outcome s r ResultStatus.unsupported_schema_version d b h =
    let e = record_attempt r d in
    migrates ((mark_needs_migration-status s r e).0) (mark_needs_migration-blocks s r (λ d. d) e)

reconcile_with-Outcome :
    (s : Setup) (d : Docket) (found : Result Contract) → Outcome s d (reconcile_with s found d)
unfolding reconcile_with
reconcile_with-Outcome s d (ok k) =
    let c = reconciling_call d.call in
    let r = route s.adapters c k in settle-Outcome s r r.status (record d { call = c }) d refl
reconcile_with-Outcome s d (err e) =
    migrates ((mark_needs_migration-status s unregistered d).1)
      (mark_needs_migration-blocks s unregistered (record_attempt unregistered) d)

-- Reconciling an eligible call ends in one of six ways, whatever the backend, the registry and the
-- adapters answer: it has succeeded with its effect committed; or it stays eligible, and is not
-- taken again before the backoff is over; or it may be retried, and then nothing but an intent to
-- send was recorded before; or it is left to people; or it has failed; or it needs a migration,
-- and then its run is blocked.
pub reconcile_tool_call-Outcome :
    (s : Setup) (d : Docket)
    → is_eligible d.call.status ≡ true
    → Outcome s d (reconcile_tool_call s d)
unfolding reconcile_tool_call reconcile_with
reconcile_tool_call-Outcome s d eligible = elim (Bool-cases (is_legacy_risk d.call)) [
  | inl e ↦ left_to_people (ground arith)
  | inr e ↦ ground (arith, reconcile_with-Outcome s d (get_for_call d.call s.contract))
]
