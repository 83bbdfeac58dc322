-- ===== src/Agent/Loop/Evidence.antt =====
-- `EvidenceRefResolver` and `EvidenceWatchService` of app/services/agent_loop_service.py. References
-- are the parsed ones; the defaults that `parse` fills in for missing keys are left out.
use test_platform_backend.Prelude.{
  ℕ, Bool, true, false, ◌&&◌, ◌||◌, not, Option, List, ◌++◌, ◌==◌, map, select, any, all, elem,
  is_some, update_where,
}

-- EVIDENCE_MUTABILITY_CLASSES
pub data Mutability : Type 0 where
  immutable versioned mutable_current ephemeral_latest external_uncontrolled : Mutability
  other_mutability : Mutability

-- EVIDENCE_DEPENDENCY_ROLES
pub data Role : Type 0 where
  decision_dependency validation_evidence policy_dependency audit_background trace_only : Role
  superseded other_role : Role

-- `EvidenceRef`. `memory_id` is `int(ref_id)` of a reference whose type is "memory", none where
-- that raises or the type is another.
pub record EvidenceRef : Type 0 where
  pub evidence_ref_id : ℕ
  pub ref_type : ℕ
  pub ref_id : ℕ
  pub memory_id : Option ℕ
  pub mutability_class : Mutability
  pub dependency_role : Role
  pub active_for_policy : Bool
  pub version_id : Option ℕ
  pub content_hash : Option ℕ
  pub snapshot_id : Option ℕ
  pub superseded_by_ref : Option ℕ

-- FROZEN_MUTABILITY_CLASSES
abbrev pub is_frozen : Mutability → Bool
is_frozen immutable = true
is_frozen versioned = true
is_frozen _ = false

-- VOLATILE_MUTABILITY_CLASSES
abbrev pub is_volatile : Mutability → Bool
is_volatile mutable_current = true
is_volatile ephemeral_latest = true
is_volatile external_uncontrolled = true
is_volatile _ = false

-- ACTIVE_POLICY_DEPENDENCY_ROLES
abbrev pub is_active_role : Role → Bool
is_active_role decision_dependency = true
is_active_role validation_evidence = true
is_active_role policy_dependency = true
is_active_role _ = false

-- The test of `select_policy_refs`; an active role is not "superseded".
abbrev pub is_policy_ref : EvidenceRef → Bool
is_policy_ref r =
    r.active_for_policy && is_active_role r.dependency_role && not (is_some r.superseded_by_ref)

unfoldable pub select_policy_refs : List EvidenceRef → List EvidenceRef
select_policy_refs = select is_policy_ref

abbrev pub ids_of : List EvidenceRef → List ℕ
ids_of = map (λ (r : EvidenceRef). r.evidence_ref_id)

-- `split_policy_and_audit_refs`: the references whose id is that of a policy reference, and the
-- others.
unfoldable pub split_policy_and_audit_refs : List EvidenceRef → List EvidenceRef × List EvidenceRef
unfolding select_policy_refs
split_policy_and_audit_refs refs =
    let policy_ids = ids_of (select_policy_refs refs) in
    (
      select (λ r. elem r.evidence_ref_id policy_ids) refs,
      select (λ r. not (elem r.evidence_ref_id policy_ids)) refs,
    )

-- `evidence_requires_revalidation`
abbrev pub evidence_requires_revalidation : List EvidenceRef → Bool
evidence_requires_revalidation = any (λ r. is_volatile r.mutability_class)

-- `evidence_fully_frozen`
abbrev pub evidence_fully_frozen : List EvidenceRef → Bool
evidence_fully_frozen = all (λ r.
    is_frozen r.mutability_class
    && (is_some r.content_hash || is_some r.version_id || is_some r.snapshot_id))

pub data WatchStatus : Type 0 where
  active stale : WatchStatus

-- A row of the evidence watches of a run.
pub record AgentEvidenceWatch : Type 0 where
  pub evidence_ref_id : ℕ
  pub ref_type : ℕ
  pub ref_id : ℕ
  pub watch_status : WatchStatus

abbrev pub is_active : WatchStatus → Bool
is_active active = true
is_active stale = false

abbrev pub watches_for : ℕ → AgentEvidenceWatch → Bool
watches_for id w = w.evidence_ref_id == id && is_active w.watch_status

abbrev pub new_watch : EvidenceRef → AgentEvidenceWatch
new_watch r = record {
  evidence_ref_id = r.evidence_ref_id;
  ref_type = r.ref_type;
  ref_id = r.ref_id;
  watch_status = active;
}

-- The references that `register_watches` adds a watch for.
abbrev pub is_unwatched : List AgentEvidenceWatch → EvidenceRef → Bool
is_unwatched ws r = r.active_for_policy && not (any (watches_for r.evidence_ref_id) ws)

-- `register_watches` on the watches of the run. The session of app/db/session.py does not
-- autoflush, so the query for an existing watch finds none of those just added.
unfoldable pub register_watches :
    List AgentEvidenceWatch → List EvidenceRef → List AgentEvidenceWatch
register_watches ws refs = ws ++ map new_watch (select (is_unwatched ws) refs)

-- `mark_stale_by_ref`
unfoldable pub mark_stale_by_ref : ℕ → ℕ → List AgentEvidenceWatch → List AgentEvidenceWatch
mark_stale_by_ref kind id =
    update_where (λ w. w.ref_type == kind && w.ref_id == id && is_active w.watch_status)
      (λ w. record w { watch_status = stale })
