-- ===== src/Flow/Search.antt =====
-- `_reachable` and `_reverse_reachable` of app/services/visual_flow_service.py. The stack has its
-- top first; the `while` loop has fuel, one round for each push.
pub mod Reach
use test_platform_backend.Prelude.{
  ℕ, zero, suc, ◌+◌, Bool, true, false, Option, none, some, List, [], ◌∷◌, elem, if◌then◌else◌,
  length, map,
}
use test_platform_backend.Flow.{FlowEdge, targets_of, sources_of}

-- `stack.extend(...)`: the last one is popped first.
unfoldable pub push_all : List ℕ → List ℕ → List ℕ
push_all [] stack = stack
push_all (v ∷ vs) stack = push_all vs (v ∷ stack)

-- The loop, with `next` the nodes that a node leads to: the set `seen`.
unfoldable pub search : (ℕ → List ℕ) → ℕ → List ℕ → List ℕ → Option (List ℕ)
unfolding push_all
search next fuel [] seen = some seen
search next zero (u ∷ stack) seen = none
search next (suc fuel) (u ∷ stack) seen =
    let skip = search next fuel stack seen in
    let go = search next fuel (push_all (next u) stack) (u ∷ seen) in
    if elem u seen then skip else go

unfoldable pub reachable : ℕ → List FlowEdge → Option (List ℕ)
unfolding search
reachable start es = search (λ u. targets_of u es) (length es + 1) (start ∷ []) []

-- `stack = list(ends)`
unfoldable pub reverse_reachable : List ℕ → List FlowEdge → Option (List ℕ)
unfolding search
reverse_reachable ends es =
    search (λ v. sources_of v es) (length es + length ends) (push_all ends []) []
