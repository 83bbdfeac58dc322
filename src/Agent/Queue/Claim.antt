-- ===== src/Agent/Queue/Claim.antt =====
-- Which item a worker gets from `claim_next`, and in which state
-- (app/services/agent_runtime_service.py).
use test_platform_backend.Prelude.{
  ℕ, ◌+◌, ◌≤◌, ◌≡◌, inl, inr, true, false, none, some, List, [], ◌∷◌, ◌==◌, arith, update_where,
  Bool-cases, Option-cases, ltb, leb_of_not_ltb, sym,
}
use mathlib.Core.Path.{subst}
use test_platform_backend.Agent.Model.{AgentToolCall, AgentWorkerQueue}
use test_platform_backend.Agent.Queue.{
  Pool, is_claimable, next_item, find_call, set_item, set_call, claim_item, claim_next,
  lacks_approval, needs_reconcile, lease_item, lease_call,
}

-- The item stands among the rows.
pub data Among (i : AgentWorkerQueue) : List AgentWorkerQueue → Type 0 where
  first : {is : List AgentWorkerQueue} → Among i (i ∷ is)
  later : {j : AgentWorkerQueue} {is : List AgentWorkerQueue} → Among i is → Among i (j ∷ is)

-- Nothing that can be claimed comes before the item.
abbrev pub Least : ℕ → AgentWorkerQueue → List AgentWorkerQueue → Type 0
Least now i rows =
    (j : AgentWorkerQueue) → Among j rows → is_claimable now j ≡ true → i.priority ≤ j.priority

-- What the query of `claim_next` finds.
pub record Best (now : ℕ) (i : AgentWorkerQueue) (rows : List AgentWorkerQueue) : Type 0 where
  pub among : Among i rows
  pub claimable : is_claimable now i ≡ true
  pub least : Least now i rows

next_item-none :
    (now : ℕ) (rows : List AgentWorkerQueue) (j : AgentWorkerQueue)
    → next_item now rows ≡ none
    → Among j rows
    → is_claimable now j ≡ false
unfolding next_item
next_item-none now [] j h m = elim m [ ]
next_item-none now (i ∷ rows) j h first = ground (arith, next_item-none now rows i)
next_item-none now (i ∷ rows) j h (later m) = next_item-none now rows j (ground arith) m

Least-skip :
    (now : ℕ) (i x : AgentWorkerQueue) (rows : List AgentWorkerQueue)
    → Least now i rows
    → (is_claimable now x ≡ true → i.priority ≤ x.priority)
    → Least now i (x ∷ rows)
Least-skip now i x rows least below j first c = below c
Least-skip now i x rows least below j (later m) c = least j m c

Best-skip :
    (now : ℕ) (i x : AgentWorkerQueue) (rows : List AgentWorkerQueue)
    → Best now i rows
    → (is_claimable now x ≡ true → i.priority ≤ x.priority)
    → Best now i (x ∷ rows)
Best-skip now i x rows b below = record {
  among = later b.among;
  claimable = b.claimable;
  least = Least-skip now i x rows b.least below;
}

Best-first :
    (now : ℕ) (x : AgentWorkerQueue) (rows : List AgentWorkerQueue)
    → is_claimable now x ≡ true
    → Least now x rows
    → Best now x (x ∷ rows)
Best-first now x rows c least = record {
  among = first;
  claimable = c;
  least = Least-skip now x x rows least (λ _. omega arith);
}

-- The item that the query finds is claimable, and no claimable row has a smaller priority.
next_item-Best :
    (now : ℕ) (rows : List AgentWorkerQueue) (i : AgentWorkerQueue)
    → next_item now rows ≡ some i
    → Best now i rows
next_item-Best now [] i h = unfold next_item in cc
next_item-Best now (x ∷ rows) i h = elim (Bool-cases (is_claimable now x)) [
  | inr skipped ↦
      Best-skip now i x rows (next_item-Best now rows i (unfold next_item in ground arith))
        (λ c. cc)
  | inl c ↦ elim (Option-cases (next_item now rows)) [
    | inl empty ↦
        let e : i ≡ x = unfold next_item in ground arith in
        subst (λ y. Best now y (x ∷ rows)) (sym e)
          (Best-first now x rows c
            (λ j m d. absurd (ground (arith, next_item-none now rows j empty m))))
    | inr (y, found) ↦
        let b = next_item-Best now rows y found in
        elim (Bool-cases (ltb y.priority x.priority)) [
          | inl less ↦
              let e : i ≡ y = unfold next_item in ground arith in
              subst (λ z. Best now z (x ∷ rows)) (sym e)
                (Best-skip now y x rows b (λ _. ground arith))
          | inr more ↦
              let e : i ≡ x = unfold next_item in ground arith in
              subst (λ z. Best now z (x ∷ rows)) (sym e)
                (Best-first now x rows c
                  (λ j m d. omega (arith, b.least j m d, leb_of_not_ltb _ _ more)))
        ]
  ]
]

-- What `claim_next` gives out. The item that a worker gets was queued and available, and nothing
-- that could be claimed had a smaller priority; it comes leased to that worker until the lease's
-- end, counted as one more attempt. Its call, if there is one, has the approval that it needs and
-- is not waiting to be reconciled.
pub claim_next_lem :
    (worker lease_seconds now : ℕ) (p : Pool) (i : AgentWorkerQueue)
    → (claim_next worker lease_seconds now p).0 ≡ some i
    → (found : AgentWorkerQueue) × Best now found p.items
      × (i ≡ lease_item worker (now + lease_seconds) found)
      × ((c : AgentToolCall)
          → find_call found.tool_call_id p.calls ≡ some c
          → (lacks_approval c ≡ false) × (needs_reconcile c.status ≡ false))
claim_next_lem worker lease_seconds now p i h = elim (Option-cases (next_item now p.items)) [
  | inl empty ↦ absurd (unfold claim_next in ground arith)
  | inr (found, e) ↦ (
    found,
    next_item-Best now p.items found e,
    unfold claim_next claim_item in ground arith,
    λ c ec. unfold claim_next claim_item in ground arith,
  )
]

-- When a worker gets an item whose call is there, the tables show the item and the call as leased
-- to it, all other rows and the events being as before.
pub claim_next_writes :
    (worker lease_seconds now : ℕ) (p : Pool) (i : AgentWorkerQueue) (c : AgentToolCall)
    → (claim_next worker lease_seconds now p).0 ≡ some i
    → find_call i.tool_call_id p.calls ≡ some c
    → let p' = (claim_next worker lease_seconds now p).1 in
      (p'.items
        ≡ update_where
            (λ x. x.queue_id == i.queue_id)
            (lease_item worker (now + lease_seconds))
            p.items)
      × (p'.calls
          ≡ update_where
              (λ x. x.tool_call_id == c.tool_call_id)
              (lease_call worker (now + lease_seconds))
              p.calls)
      × (p'.journals ≡ p.journals)
claim_next_writes worker lease_seconds now p i c h ec =
    elim (Option-cases (next_item now p.items)) [
      | inl empty ↦ absurd (unfold claim_next in ground arith)
      | inr (found, e) ↦ unfold claim_next claim_item set_item set_call in ground arith
    ]
