-- ===== src/Agent/Approval/History.antt =====
-- Whatever sequence of decisions, expiries and replacements meets an approval
-- (app/services/agent_approval_service.py).
use test_platform_backend.Prelude.{
  ℕ, String, ◌≡◌, ◌≢◌, ◌↔◌, inl, inr, refl, true, Option, some, arith, is_some, ap, ◌∙◌, sym,
}
use mathlib.Core.Path.{subst}
use mathlib.Core.Option
use test_platform_backend.Session.{ok, request}
use test_platform_backend.Permission.{User, Access}
use test_platform_backend.Agent.Model.{
  AgentToolCall, AgentApproval, AgentApprovalLineage, ApprovalStatus,
}
use test_platform_backend.Agent.Policy.{ensure_approval_allows_execution}
use test_platform_backend.Agent.Approval.Desk.{Desk, ApprovalDecision}
use test_platform_backend.Agent.Approval.Decide.{
  Locked, approve, reject, expire_approval, approve_rows, reject_rows, mark_expired_locked,
}
use test_platform_backend.Agent.Approval.Create.{
  Fresh, Replacement, ToolSpec, supersede_with_replacement, supersede_rows,
}
use test_platform_backend.Agent.Approval.Outcome.{
  core, locked_rows, approve-Ends, reject-Ends, expire_approval-cases, supersede-cases,
}
use test_platform_backend.Agent.Approval.Links.{
  Links, IsLinked, IsLinked-of_core, locked_of_IsLinked, mark_expired_locked-IsLinked,
  approve_rows-IsLinked, reject_rows-IsLinked, supersede_rows-IsLinked,
}

-- One request against the database, whoever makes it and however it ends.
pub data Step (d : Desk) : Desk → Type 0 where
  approving :
      (u : User) (access : Access) (p : ApprovalDecision) (now fresh : ℕ)
      → Step d (request (approve u access p now fresh) d).1
  rejecting :
      (u : User) (access : Access) (p : ApprovalDecision) (now : ℕ)
      → Step d (request (reject u access p now) d).1
  expiring : (now : ℕ) → Step d (request (expire_approval now) d).1
  superseding :
      (u : User) (access : Access) (r : Replacement) (reason : Option String) (f : Fresh) (now : ℕ)
      → Step d (request (supersede_with_replacement u access r reason f now) d).1

pub data Reach (d : Desk) : Desk → Type 0 where
  here : Reach d d
  next : {e f : Desk} → Reach d e → Step e f → Reach d f

-- The ways in which a request changes the rows.
data Change (k : Locked) (d : Desk) : Desk → Type 0 where
  same : {e : Desk} → core e ≡ core (locked_rows k d) → Change k d e
  expired :
      {e : Desk} (now : ℕ)
      → core e ≡ core (mark_expired_locked k.approval k.lineage k.call now (locked_rows k d))
      → k.approval.approval_status ≡ ApprovalStatus.pending
      → Change k d e
  approved :
      {e : Desk} (u : User) (p : ApprovalDecision) (now fresh : ℕ)
      → e ≡ approve_rows u p now fresh k (locked_rows k d)
      → k.approval.approval_status ≡ ApprovalStatus.pending
      → Change k d e
  rejected :
      {e : Desk} (u : User) (p : ApprovalDecision) (now : ℕ)
      → e ≡ reject_rows u p now k (locked_rows k d)
      → k.approval.approval_status ≡ ApprovalStatus.pending
      → Change k d e
  replaced :
      {e : Desk} (r : Replacement) (spec : ToolSpec) (u : User) (reason : Option String) (f : Fresh)
      (now : ℕ)
      → e
        ≡ supersede_rows k.lineage k.call k.approval k.journal r spec u reason f now
            (locked_rows k d)
      → k.approval.approval_status ≡ ApprovalStatus.pending
      → Change k d e

Change-of_Step : (k : Locked) (d e : Desk) → Step (locked_rows k d) e → Change k d e
Change-of_Step k d e (approving u access p now fresh) =
    elim (approve-Ends u access p now fresh k d) [
      | inl (_, after, decidable) ↦ approved u p now fresh after decidable.valid.pending
      | inr (inl (_, kept)) ↦ same kept
      | inr (inr (_, marked, pending, _)) ↦ expired now marked pending
    ]
Change-of_Step k d e (rejecting u access p now) = elim (reject-Ends u access p now k d) [
  | inl (_, after, decidable) ↦ rejected u p now after decidable.valid.pending
  | inr (inl (_, kept)) ↦ same kept
  | inr (inr (_, marked, pending, _)) ↦ expired now marked pending
]
Change-of_Step k d e (expiring now) = elim (expire_approval-cases now k d) [
  | inl kept ↦ same kept
  | inr (marked, pending, _) ↦ expired now marked pending
]
Change-of_Step k d e (superseding u access r reason f now) =
    elim (supersede-cases u access r reason f now k d) [
      | inl (_, kept) ↦ same (ap core kept)
      | inr (spec, _, _, after, checks) ↦ replaced r spec u reason f now after checks.pending
    ]

Change-IsLinked :
    {k : Locked} {d e : Desk} → Links k.lineage k.call k.approval → Change k d e → IsLinked e
Change-IsLinked {k} {d} {e} h (same kept) = IsLinked-of_core e (locked_rows k d) kept (refl, h)
Change-IsLinked {k} {d} {e} h (expired now marked pending) =
    IsLinked-of_core e _ marked (mark_expired_locked-IsLinked k d h now pending)
Change-IsLinked {k} {d} {e} h (approved u p now fresh after pending) =
    rw after (approve_rows-IsLinked k d h u p now fresh)
Change-IsLinked {k} {d} {e} h (rejected u p now after pending) =
    rw after (reject_rows-IsLinked k d h u p now pending)
Change-IsLinked {k} {d} {e} h (replaced r spec u reason f now after pending) =
    rw after (supersede_rows-IsLinked k d h r spec u reason f now)

Step-IsLinked : {d e : Desk} → IsLinked d → Step d e → IsLinked e
Step-IsLinked {d} {e} h st =
    let (k, rows, links) = locked_of_IsLinked d h in
    Change-IsLinked links (Change-of_Step k d e (subst (λ x. Step x e) rows st))

-- Whatever requests follow, the lineage, its call and its approval stay linked: they agree on
-- their ids, on the epoch, on the content approved, and the call names the approval exactly when
-- it is approved.
pub Reach-IsLinked : {d e : Desk} → IsLinked d → Reach d e → IsLinked e
Reach-IsLinked h here = h
Reach-IsLinked h (next r st) = Step-IsLinked (Reach-IsLinked h r) st

Change-decided :
    {k : Locked} {d e : Desk}
    → k.approval.approval_status ≢ ApprovalStatus.pending
    → Change k d e
    → core e ≡ core (locked_rows k d)
Change-decided decided (same kept) = kept
Change-decided decided (expired now marked pending) = absurd (decided pending)
Change-decided decided (approved u p now fresh after pending) = absurd (decided pending)
Change-decided decided (rejected u p now after pending) = absurd (decided pending)
Change-decided decided (replaced r spec u reason f now after pending) = absurd (decided pending)

-- The status of the approval, none if the row is missing.
abbrev pub status_of : Desk → Option ApprovalStatus
status_of d = Option.map (λ a. a.approval_status) d.approval

Step-decided :
    {d e : Desk}
    → IsLinked d
    → status_of d ≢ some ApprovalStatus.pending
    → Step d e
    → core e ≡ core d
Step-decided {d} {e} h decided st =
    let (k, rows, links) = locked_of_IsLinked d h in
    Change-decided (λ pending. decided (ap status_of rows ∙ ap some pending))
      (Change-of_Step k d e (subst (λ x. Step x e) rows st))
    ∙ sym (ap core rows)

-- A decision is final: once an approval is no longer pending, no sequence of requests to approve,
-- reject, expire or replace it changes the lineage, the call, the approval, the queue or the
-- mutation log. Only events may be added.
pub Reach-decided :
    {d e : Desk}
    → IsLinked d
    → status_of d ≢ some ApprovalStatus.pending
    → Reach d e
    → core e ≡ core d
Reach-decided h decided here = refl
Reach-decided {d} {e} h decided (next {e = m} r st) =
    let kept = Reach-decided h decided r in
    Step-decided (Reach-IsLinked h r)
      (λ pending.
        decided (
          ap (λ c. Option.map (λ (a : AgentApproval). a.approval_status) c.3) (sym kept) ∙ pending))
      st
    ∙ kept

Links-guard :
    (l : AgentApprovalLineage) (c : AgentToolCall) (a : AgentApproval)
    → Links l c a
    → is_some c.approval_scope_hash ≡ true
    → (ensure_approval_allows_execution c (some a) ≡ ok tt)
      ↔ (a.approval_status ≡ ApprovalStatus.approved)
unfolding ensure_approval_allows_execution
Links-guard l c a h scoped = (λ passed. ground arith, λ status. ground arith)

-- After any requests, the execution guard lets the call through, with its current approval,
-- exactly if that approval is approved; the call's scope hash is there, as in every call made.
pub Reach-guard :
    {d e : Desk} (l : AgentApprovalLineage) (c : AgentToolCall) (a : AgentApproval)
    → IsLinked d
    → Reach d e
    → e.lineage ≡ some l
    → e.call ≡ some c
    → e.approval ≡ some a
    → is_some c.approval_scope_hash ≡ true
    → (ensure_approval_allows_execution c (some a) ≡ ok tt)
      ↔ (a.approval_status ≡ ApprovalStatus.approved)
Reach-guard {d} {e} l c a h r rl rc ra scoped =
    let linked = Reach-IsLinked h r in Links-guard l c a (rw (rl, rc, ra) at (linked.1)) scoped
