-- ===== src/Flow/Order.antt =====
-- `_topological_order` of app/services/visual_flow_service.py. `indegree` is a function of the node
-- id, `outgoing` is read off the edges, and the `while` loop has fuel: one round for each node.
pub mod Degrees
pub mod Rounds
pub mod Sorted
use test_platform_backend.Prelude.{
  ℕ, zero, suc, ◌-◌, Bool, true, false, Option, none, some, List, [], ◌∷◌, ◌++◌, ◌==◌,
  if◌then◌else◌, select, length,
}
use mathlib.Core.Option
use test_platform_backend.Flow.{FlowEdge, FlowDefinition, node_ids, links, targets_of, sources_of}

-- `indegree` and `queue`
pub record Kahn : Type 0 where
  pub indegree : ℕ → ℕ
  pub queue : List ℕ

-- `indegree[target] -= 1`
abbrev pub decrement : ℕ → (ℕ → ℕ) → ℕ → ℕ
decrement t d v = if v == t then d v - 1 else d v

-- One target of the node that left the queue.
abbrev pub visit : ℕ → Kahn → Kahn
visit t k =
    let d = decrement t k.indegree in
    record { indegree = d; queue = if d t == 0 then k.queue ++ t ∷ [] else k.queue }

unfoldable pub visit_all : List ℕ → Kahn → Kahn
visit_all [] k = k
visit_all (t ∷ ts) k = visit_all ts (visit t k)

-- The nodes in the order in which they leave the queue; none if the fuel does not suffice.
unfoldable pub drain : ℕ → List FlowEdge → (ℕ → ℕ) → List ℕ → Option (List ℕ)
drain fuel es d [] = some []
drain zero es d (u ∷ rest) = none
drain (suc fuel) es d (u ∷ rest) =
    let k = visit_all (targets_of u es) (record { indegree = d; queue = rest }) in
    Option.map (λ order. u ∷ order) (drain fuel es k.indegree k.queue)

abbrev pub first_degree : List FlowEdge → ℕ → ℕ
first_degree es v = length (select (λ e. e.target == v) es)

abbrev pub first_queue : List ℕ → (ℕ → ℕ) → List ℕ
first_queue ids d = select (λ v. d v == 0) ids

unfoldable pub order_with : ℕ → List ℕ → List FlowEdge → Option (List ℕ)
unfolding drain
order_with fuel ids es = drain fuel es (first_degree es) (first_queue ids (first_degree es))

unfoldable pub topological_order : FlowDefinition → Option (List ℕ)
unfolding order_with
topological_order d = order_with (length d.nodes) (node_ids d) (links (node_ids d) d.edges)
