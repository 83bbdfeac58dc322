-- ===== src/Agent/Approval/Scanner/Batch.antt =====
-- What one batch of the expiry scanner does (app/services/agent_approval_service.py).
use test_platform_backend.Prelude.{
  Distinct, ℕ, ◌+◌, ◌≤◌, ◌≡◌, refl, inl, inr, true, false, Option, List, [], ◌∷◌, arith, All,
  Bool-cases, take, elem, length, length-take,
}
use test_platform_backend.Agent.Model.{AgentApproval}
use test_platform_backend.Agent.Approval.Desk.{Desk}
use test_platform_backend.Agent.Approval.Links.{IsLinked}
use test_platform_backend.Agent.Approval.History.{Reach-IsLinked, here, next, expiring}
use test_platform_backend.Agent.Approval.Scanner.{
  scan_due, expire_one, expire_due_summary, due_approvals, has_approval,
}

scan_due-counts :
    (now : ℕ) (rows : List AgentApproval) (seen : List ℕ) (desks : List Desk)
    → let s = (scan_due now rows seen desks).0 in
      (s.attempted + s.skipped_duplicates ≡ length rows) × (s.expired ≤ s.attempted)
unfolding scan_due
scan_due-counts now [] seen desks = (refl, omega arith)
scan_due-counts now (a ∷ rest) seen desks = ground (
  arith,
  scan_due-counts now rest seen desks,
  scan_due-counts now rest (a.approval_lineage_id ∷ seen) (expire_one now a.approval_id desks),
)

scan_due-unseen :
    (now : ℕ) (rows : List AgentApproval) (seen : List ℕ) (desks : List Desk) (x : ℕ)
    → elem x seen ≡ true
    → elem x (scan_due now rows seen desks).0.processed ≡ false
unfolding scan_due
scan_due-unseen now [] seen desks x h = refl
scan_due-unseen now (a ∷ rest) seen desks x h =
    let desks' = expire_one now a.approval_id desks in
    let go = scan_due-unseen now rest (a.approval_lineage_id ∷ seen) desks' x (ground arith) in
    let skip = scan_due-unseen now rest seen desks x h in
    elim (Bool-cases (elem a.approval_lineage_id seen)) [
      | inl old ↦ rw old skip
      | inr new ↦ rw new (ground arith)
    ]

scan_due-Distinct :
    (now : ℕ) (rows : List AgentApproval) (seen : List ℕ) (desks : List Desk)
    → Distinct (scan_due now rows seen desks).0.processed
unfolding scan_due
scan_due-Distinct now [] seen desks = tt
scan_due-Distinct now (a ∷ rest) seen desks =
    let desks' = expire_one now a.approval_id desks in
    let seen' = a.approval_lineage_id ∷ seen in
    elim (Bool-cases (elem a.approval_lineage_id seen)) [
      | inl old ↦ rw old (scan_due-Distinct now rest seen desks)
      | inr new ↦ rw new (
        scan_due-unseen now rest seen' desks' a.approval_lineage_id (ground arith),
        scan_due-Distinct now rest seen' desks',
      )
    ]

-- One batch expires each lineage at most once, looks at no more approvals than its limit, and
-- counts as expired no more than it attempted.
pub expire_due_summary-batch :
    (limit now : ℕ) (project : Option ℕ) (desks : List Desk)
    → let s = (expire_due_summary limit now project desks).0 in
      Distinct s.processed
      × (s.attempted + s.skipped_duplicates ≤ limit)
      × (s.expired ≤ s.attempted)
unfolding expire_due_summary
expire_due_summary-batch limit now project desks =
    let rows = take limit (due_approvals now project desks) in
    let (all_rows, expired) = scan_due-counts now rows [] desks in
    let size = length-take limit (due_approvals now project desks) in
    (scan_due-Distinct now rows [] desks, omega arith, expired)

expire_one-IsLinked :
    (now id : ℕ) (desks : List Desk) → All IsLinked desks → All IsLinked (expire_one now id desks)
unfolding expire_one
expire_one-IsLinked now id [] h = tt
expire_one-IsLinked now id (d ∷ rest) h =
    let others = expire_one-IsLinked now id rest h.1 in
    elim (Bool-cases (has_approval id d)) [
      | inl hit ↦ rw hit (Reach-IsLinked h.0 (next here (expiring now)), others)
      | inr miss ↦ rw miss (h.0, others)
    ]

scan_due-IsLinked :
    (now : ℕ) (rows : List AgentApproval) (seen : List ℕ) (desks : List Desk)
    → All IsLinked desks
    → All IsLinked (scan_due now rows seen desks).1
unfolding scan_due
scan_due-IsLinked now [] seen desks h = h
scan_due-IsLinked now (a ∷ rest) seen desks h =
    let desks' = expire_one now a.approval_id desks in
    let kept = expire_one-IsLinked now a.approval_id desks h in
    elim (Bool-cases (elem a.approval_lineage_id seen)) [
      | inl old ↦ rw old (scan_due-IsLinked now rest seen desks h)
      | inr new ↦ rw new (scan_due-IsLinked now rest (a.approval_lineage_id ∷ seen) desks' kept)
    ]

-- A batch keeps every lineage linked with its call and its approval.
pub expire_due_summary-IsLinked :
    (limit now : ℕ) (project : Option ℕ) (desks : List Desk)
    → All IsLinked desks
    → All IsLinked (expire_due_summary limit now project desks).1
unfolding expire_due_summary
expire_due_summary-IsLinked limit now project desks h =
    scan_due-IsLinked now (take limit (due_approvals now project desks)) [] desks h
