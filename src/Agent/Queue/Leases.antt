-- ===== src/Agent/Queue/Leases.antt =====
-- Leases of queue items: `heartbeat` and `recover_orphans` (app/services/agent_runtime_service.py).
use test_platform_backend.Prelude.{
  ℕ, ◌+◌, ◌≤◌, ◌<◌, ◌≡◌, refl, true, false, none, some, List, [], ◌∷◌, ◌==◌, arith, update_where,
  take, select, length-take, Option-cases, All, Bool-cases, inl, inr,
}
use mathlib.Core.Path.{subst}
use test_platform_backend.Session.{ok, err, http, not_found}
use test_platform_backend.Agent.Model.{AgentWorkerQueue}
use test_platform_backend.Agent.Queue.{
  Pool, set_item, set_call, held_item, heartbeat, is_orphan, by_expiry, release_item, release_call,
  recover_all, recover_orphans,
}
use test_platform_backend.Agent.Queue.Claim.{Among, first, later}

-- No row with this id has an owner.
abbrev Unowned : ℕ → List AgentWorkerQueue → Type 0
Unowned id [] = Unit
Unowned id (j ∷ js) = ((j.queue_id == id) ≡ true → j.lease_owner ≡ none) × Unowned id js

Unowned-release_self :
    (id : ℕ) (rows : List AgentWorkerQueue)
    → Unowned id (update_where (λ i. i.queue_id == id) release_item rows)
Unowned-release_self id [] = tt
Unowned-release_self id (j ∷ js) = (
  (λ e. elim (Bool-cases (j.queue_id == id)) [ inl s ↦ rw s | inr n ↦ ground arith ]),
  Unowned-release_self id js,
)

Unowned-release :
    (id other : ℕ) (rows : List AgentWorkerQueue)
    → Unowned id rows
    → Unowned id (update_where (λ i. i.queue_id == other) release_item rows)
Unowned-release id other [] h = tt
Unowned-release id other (j ∷ js) h = (
  (λ e.
      let k = h.0 in
      elim (Bool-cases (j.queue_id == other)) [ inl s ↦ rw s | inr n ↦ ground arith ]),
  Unowned-release id other js h.1,
)

recover_all-Unowned :
    (id : ℕ) (is : List AgentWorkerQueue) (p : Pool)
    → Unowned id p.items
    → Unowned id (recover_all is p).items
unfolding recover_all set_item set_call
recover_all-Unowned id [] p h = h
recover_all-Unowned id (i ∷ is) p h =
    recover_all-Unowned id is _ (Unowned-release id i.queue_id p.items h)

set_item-Unowned :
    (x : AgentWorkerQueue) (p : Pool)
    → Unowned x.queue_id
        (set_call x.tool_call_id release_call (set_item x.queue_id release_item p)).items
unfolding set_item set_call
set_item-Unowned x p = Unowned-release_self x.queue_id p.items

recovered-Unowned :
    (i : AgentWorkerQueue) (is : List AgentWorkerQueue) (p : Pool)
    → Among i is
    → Unowned i.queue_id (recover_all is p).items
unfolding recover_all
recovered-Unowned i [] p m = elim m [ ]
recovered-Unowned i (x ∷ is) p first =
    recover_all-Unowned x.queue_id is
      (set_call x.tool_call_id release_call (set_item x.queue_id release_item p))
      (set_item-Unowned x p)
recovered-Unowned i (x ∷ is) p (later m) =
    recovered-Unowned i is
      (set_call x.tool_call_id release_call (set_item x.queue_id release_item p)) m

held_item-Unowned :
    (id worker : ℕ) (rows : List AgentWorkerQueue)
    → Unowned id rows
    → held_item id worker rows ≡ none
unfolding held_item
held_item-Unowned id worker [] h = refl
held_item-Unowned id worker (j ∷ js) h =
    let k = h.0 in ground (arith, held_item-Unowned id worker js h.1)

-- Once `recover_orphans` has taken an item whose lease was over, no worker can extend that lease:
-- the worker that lost it gets 404.
pub recover_orphans-heartbeat :
    (now limit : ℕ) (p : Pool) (i : AgentWorkerQueue) (worker lease_seconds later_now : ℕ)
    → Among i (take limit (by_expiry (select (is_orphan now) p.items)))
    → heartbeat i.queue_id worker lease_seconds later_now (recover_orphans now limit p).1
      ≡ err (http not_found none)
unfolding recover_orphans heartbeat
recover_orphans-heartbeat now limit p i worker lease_seconds later_now m =
    rw (held_item-Unowned i.queue_id worker _ (recovered-Unowned i _ p m)) refl

held_item_id :
    (id worker : ℕ) (rows : List AgentWorkerQueue) (i : AgentWorkerQueue)
    → held_item id worker rows ≡ some i
    → i.queue_id ≡ id
unfolding held_item
held_item_id id worker [] i h = cc
held_item_id id worker (j ∷ js) i h = ground (arith, held_item_id id worker js i)

-- One call recovers at most `limit` items.
pub recover_orphans-le-limit : (now limit : ℕ) (p : Pool) → (recover_orphans now limit p).0 ≤ limit
unfolding recover_orphans
recover_orphans-le-limit now limit p =
    omega (arith, length-take limit (by_expiry (select (is_orphan now) p.items)))

renewed :
    (id until t : ℕ) (rows : List AgentWorkerQueue)
    → t < until
    → All
        (λ (j : AgentWorkerQueue). (j.queue_id == id) ≡ true → is_orphan t j ≡ false)
        (update_where
          (λ i. i.queue_id == id)
          (λ i. record i { lease_expires_at = some until })
          rows)
renewed id until t [] h = tt
renewed id until t (i ∷ is) h = (
  (λ e. elim (Bool-cases (i.queue_id == id)) [
    | inl s ↦ rw s (ground arith)
    | inr n ↦ ground arith
  ]),
  renewed id until t is h,
)

-- A heartbeat that is answered puts off the recovery: until the end of the new lease no row of
-- that item counts as an orphan.
pub heartbeat-renews :
    (id worker lease_seconds now t : ℕ) (p p' : Pool)
    → heartbeat id worker lease_seconds now p ≡ ok p'
    → t < now + lease_seconds
    → All (λ (j : AgentWorkerQueue). (j.queue_id == id) ≡ true → is_orphan t j ≡ false) p'.items
heartbeat-renews id worker lease_seconds now t p p' h early =
    elim (Option-cases (held_item id worker p.items)) [
      | inl lost ↦ absurd (unfold heartbeat in ground arith)
      | inr (i, held) ↦
          let e : p'.items
              ≡ update_where (λ x. x.queue_id == i.queue_id)
                  (λ x. record x { lease_expires_at = some (now + lease_seconds) }) p.items =
            unfold heartbeat set_item set_call in ground arith in
          let q : i.queue_id ≡ id = held_item_id id worker p.items i held in
          rw e (
            subst
              (λ z.
                All (λ (j : AgentWorkerQueue). (j.queue_id == z) ≡ true → is_orphan t j ≡ false)
                  (update_where (λ x. x.queue_id == i.queue_id)
                    (λ x. record x { lease_expires_at = some (now + lease_seconds) }) p.items))
              q (renewed i.queue_id (now + lease_seconds) t p.items early))
    ]
