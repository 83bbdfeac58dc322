-- ===== src/Tests/Queues.antt =====
-- Claims, heartbeats and recoveries of two queue items.
use test_platform_backend.Prelude.{◌≡◌, refl, false, none, some, [], ◌∷◌, take, select}
use test_platform_backend.Session.{ok, err, http, not_found}
use test_platform_backend.Agent.Model.{AgentToolCall, AgentWorkerQueue}
use test_platform_backend.Agent.Queue.{
  Pool, claim_next, claim_item, next_item, find_call, lacks_approval, needs_reconcile, lease_item,
  heartbeat, held_item, set_item, set_call, is_orphan, by_expiry, insert_by_expiry, recover_orphans,
}
use test_platform_backend.Agent.Queue.Claim.{Among, first, Best, claim_next_lem}
use test_platform_backend.Agent.Queue.Leases.{recover_orphans-heartbeat}
use test_platform_backend.Tests.Rows.{item, approved_call, journal}

abbrev urgent : AgentWorkerQueue
urgent = record item { queue_id = 40; priority = 10 }

abbrev pool : Pool
pool = record { items = item ∷ urgent ∷ []; calls = approved_call ∷ []; journals = journal ∷ [] }

abbrev held : AgentWorkerQueue
held = lease_item 2 50 item

abbrev held_pool : Pool
held_pool = record pool { items = held ∷ [] }

claimed : (claim_next 2 30 20 pool).0 ≡ some (lease_item 2 50 urgent)
unfolding claim_next claim_item next_item find_call
claimed = refl

call_found : find_call 9 pool.calls ≡ some approved_call
unfolding find_call
call_found = refl

orphaned : Among held (take 5 (by_expiry (select (is_orphan 60) held_pool.items)))
unfolding by_expiry insert_by_expiry
orphaned = first

beaten :
    heartbeat 41 2 30 40 held_pool
    ≡ ok (record held_pool {
      items = record held { lease_expires_at = some 70 } ∷ [];
      calls = record approved_call { last_heartbeat_at = some 40; lease_expires_at = some 70 } ∷ [];
    })
unfolding heartbeat held_item set_item set_call
beaten = refl

claim_next_lem_example :
    (found : AgentWorkerQueue) × Best 20 found pool.items
    × (lease_item 2 50 urgent ≡ lease_item 2 50 found)
    × ((c : AgentToolCall)
        → find_call found.tool_call_id pool.calls ≡ some c
        → (lacks_approval c ≡ false) × (needs_reconcile c.status ≡ false))
claim_next_lem_example = claim_next_lem 2 30 20 pool (lease_item 2 50 urgent) claimed

recover_orphans-heartbeat_example :
    heartbeat 41 2 30 61 (recover_orphans 60 5 held_pool).1 ≡ err (http not_found none)
recover_orphans-heartbeat_example = recover_orphans-heartbeat 60 5 held_pool held 2 30 61 orphaned
