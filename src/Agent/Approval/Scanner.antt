-- ===== src/Agent/Approval/Scanner.antt =====
-- `ApprovalExpireScanner` of app/services/agent_approval_service.py, over the lineages of all
-- runs, one `Desk` for each: a pending approval is the current one of its lineage. The figures of
-- its report that measure time are left out.
pub mod Batch
use test_platform_backend.Prelude.{
  ℕ, ◌+◌, Bool, true, false, ◌&&◌, ◌||◌, not, Option, none, some, List, [], ◌∷◌, ◌==◌, ltb,
  if◌then◌else◌, take, select, update_where, elem, find, length,
}
use mathlib.Core.List.{filter_map}
use test_platform_backend.Session.{request}
use test_platform_backend.Agent.Model.{AgentApproval, ApprovalStatus}
use test_platform_backend.Agent.Approval.Desk.{Desk}
use test_platform_backend.Agent.Approval.Decide.{expire_approval, is_pending, is_due}

abbrev pub of_project : Option ℕ → AgentApproval → Bool
of_project none a = true
of_project (some p) a = a.project_id == p

-- The approvals that are there.
unfoldable pub approvals_of : List Desk → List AgentApproval
approvals_of [] = []
approvals_of (d ∷ rest) =
    let others = approvals_of rest in elim d.approval [ none ↦ others | some a ↦ a ∷ others ]

abbrev pub expiry_before : Option ℕ → Option ℕ → Bool
expiry_before (some a) (some b) = ltb a b
expiry_before _ _ = false

-- `order_by(approval_lineage_id.asc(), expires_at.asc())`
abbrev pub comes_first : AgentApproval → AgentApproval → Bool
comes_first a b =
    ltb a.approval_lineage_id b.approval_lineage_id
    || (a.approval_lineage_id == b.approval_lineage_id && expiry_before a.expires_at b.expires_at)

unfoldable pub insert_due : AgentApproval → List AgentApproval → List AgentApproval
insert_due a [] = a ∷ []
insert_due a (b ∷ rest) =
    let later = insert_due a rest in if comes_first b a then b ∷ later else a ∷ b ∷ rest

unfoldable pub in_order : List AgentApproval → List AgentApproval
unfolding insert_due
in_order [] = []
in_order (a ∷ rest) = insert_due a (in_order rest)

-- The query of `audit`, and with a limit that of `expire_due_summary`.
unfoldable pub due_approvals : ℕ → Option ℕ → List Desk → List AgentApproval
unfolding in_order approvals_of
due_approvals now project desks = in_order (
    select (λ a. is_pending a.approval_status && is_due a.expires_at now && of_project project a)
      (approvals_of desks))

abbrev pub has_approval : ℕ → Desk → Bool
has_approval id d = elim d.approval [ none ↦ false | some a ↦ a.approval_id == id ]

-- `guard.expire_approval(approval_id)`
unfoldable pub expire_one : ℕ → ℕ → List Desk → List Desk
expire_one now id = update_where (has_approval id) (λ d. (request (expire_approval now) d).1)

abbrev is_expired : ApprovalStatus → Bool
is_expired ApprovalStatus.expired = true
is_expired _ = false

abbrev shows_expired : Option Desk → Bool
shows_expired none = false
shows_expired (some d) = elim d.approval [ none ↦ false | some a ↦ is_expired a.approval_status ]

-- `refreshed is not None and refreshed.approval_status == "expired"`
abbrev pub refreshed_expired : ℕ → List Desk → Bool
refreshed_expired id desks = shows_expired (find (has_approval id) desks)

-- The counts of the loop, with `processed_lineage_ids`.
pub record Scan : Type 0 where
  pub attempted : ℕ
  pub expired : ℕ
  pub skipped_duplicates : ℕ
  pub processed : List ℕ

abbrev pub add_duplicate : Scan → Scan
add_duplicate s = record s { skipped_duplicates = s.skipped_duplicates + 1 }

abbrev pub add_attempt : ℕ → Bool → Scan → Scan
add_attempt id hit s = record s {
  attempted = s.attempted + 1;
  expired = if hit then s.expired + 1 else s.expired;
  processed = id ∷ s.processed;
}

-- The loop; `seen` is `seen_lineage_ids`.
unfoldable pub scan_due : ℕ → List AgentApproval → List ℕ → List Desk → Scan × List Desk
unfolding expire_one
scan_due now [] seen desks =
    (record { attempted = 0; expired = 0; skipped_duplicates = 0; processed = [] }, desks)
scan_due now (a ∷ rest) seen desks =
    let skip = scan_due now rest seen desks in
    let desks₁ = expire_one now a.approval_id desks in
    let go = scan_due now rest (a.approval_lineage_id ∷ seen) desks₁ in
    if elem a.approval_lineage_id seen
    then (add_duplicate skip.0, skip.1)
    else (add_attempt a.approval_lineage_id (refreshed_expired a.approval_id desks₁) go.0, go.1)

-- `expire_due_summary`
unfoldable pub expire_due_summary : ℕ → ℕ → Option ℕ → List Desk → Scan × List Desk
unfolding due_approvals scan_due
expire_due_summary limit now project desks =
    scan_due now (take limit (due_approvals now project desks)) [] desks
