-- ===== src/Flow/Order/Sorted.antt =====
-- What `_topological_order` returns (app/services/visual_flow_service.py).
pub mod Acyclic
use test_platform_backend.Prelude.{
  ℕ, zero, suc, ◌+◌, ◌≤◌, ◌<◌, ◌≡◌, refl, Bool, true, false, ◌||◌, not, Option, none, some, List,
  [], ◌∷◌, ◌==◌, if◌then◌else◌, length, length-map, elem, Distinct, Subset, length-le-Subset,
  Bool-cases, Option-cases, inl, inr, ◌⊎◌, arith, ap,
}
use mathlib.Core.Option
use mathlib.Core.Path.{subst}
use test_platform_backend.Flow.{
  FlowNode, FlowEdge, FlowDefinition, node_ids, links, targets_of, sources_of,
}
use test_platform_backend.Flow.Order.{
  Kahn, drain, order_with, first_degree, first_queue, topological_order,
}
use test_platform_backend.Flow.Order.Degrees.{elem-sources_of, waiting}
use test_platform_backend.Flow.Order.Rounds.{
  Closed, links-Closed, IsRound, first-IsRound, visited, next-IsRound,
}

-- Each node of the order comes once, after every node that has an edge to it; `done` come first.
abbrev pub Sorted : List FlowEdge → List ℕ → List ℕ → Type 0
Sorted es done [] = Unit
Sorted es done (u ∷ order) =
    (elem u done ≡ false) × Subset (sources_of u es) done × Sorted es (u ∷ done) order

abbrev pub after : List ℕ → List ℕ → List ℕ
after [] done = done
after (u ∷ order) done = after order (u ∷ done)

pub elem-after :
    (order done : List ℕ) (v : ℕ) → elem v (after order done) ≡ (elem v done || elem v order)
elem-after [] done v = ground arith
elem-after (u ∷ order) done v = ground (arith, elem-after order (u ∷ done) v)

pub length-after : (order done : List ℕ) → length (after order done) ≡ length order + length done
length-after [] done = omega arith
length-after (u ∷ order) done = omega (arith, length-after order (u ∷ done))

-- A node that waits for no other has all its sources behind it.
pub sources_done :
    (done : List ℕ) (es : List FlowEdge) (u : ℕ)
    → waiting done es u ≡ 0
    → Subset (sources_of u es) done
sources_done done [] u h a m = cc
sources_done done (e ∷ es) u h a m =
    let here = elem-sources_of a u e es in
    let rest = sources_done done es u (ground arith) a in
    elim (Bool-cases (a == e.source)) [
      | inl same ↦ let q : a ≡ e.source = ground arith in rw q (ground (arith, rest))
      | inr other ↦ ground (arith, rest)
    ]

pub drain-Sorted :
    (fuel : ℕ) (ids : List ℕ) (es : List FlowEdge) (done : List ℕ) (d : ℕ → ℕ) (queue : List ℕ)
    → Closed ids es
    → IsRound ids es done d queue
    → length ids ≤ fuel + length done
    → (order : List ℕ) × (drain fuel es d queue ≡ some order)
      × Sorted es done order
      × (d' : ℕ → ℕ) × IsRound ids es (after order done) d' []
unfolding drain
drain-Sorted fuel ids es done d [] closed h room = ([], refl, tt, d, h)
drain-Sorted zero ids es done d (u ∷ rest) closed h room =
    let more =
      length-le-Subset (u ∷ done) ids (h.apart u (ground arith), h.done_distinct)
        (λ a m. ground (arith, h.done_inside a, h.queue_inside a)) in
    absurd (omega arith)
drain-Sorted (suc fuel) ids es done d (u ∷ rest) closed h room =
    let k = visited ids es closed done d u rest h in
    let (order, e, sorted, d', end) =
      drain-Sorted fuel ids es (u ∷ done) k.indegree k.queue closed
        (next-IsRound ids es closed done d u rest h) (omega arith) in
    (
      u ∷ order,
      ap (Option.map (λ order. u ∷ order)) e,
      (
        h.apart u (ground arith),
        sources_done done es u (omega (arith, h.degree u, h.ready u (ground arith))),
        sorted,
      ),
      d',
      end,
    )

-- The order that the code returns for a definition whose node ids are distinct, and what holds of
-- the nodes that it leaves out.
pub topological_order-rounds :
    (d : FlowDefinition)
    → Distinct (node_ids d)
    → (order : List ℕ) × (topological_order d ≡ some order)
      × Sorted (links (node_ids d) d.edges) [] order
      × (d' : ℕ → ℕ) × IsRound (node_ids d) (links (node_ids d) d.edges) (after order []) d' []
unfolding topological_order order_with
topological_order-rounds d h =
    let ids = node_ids d in
    let es = links ids d.edges in
    drain-Sorted (length d.nodes) ids es [] (first_degree es) (first_queue ids (first_degree es))
      (links-Closed ids d.edges) (first-IsRound ids es h)
      (omega (arith, length-map (λ (n : FlowNode). n.id) d.nodes))

-- For distinct node ids the loop ends within one round for each node, and returns an order in
-- which each node comes at most once, after every node that has an edge to it.
pub topological_order-Sorted :
    (d : FlowDefinition)
    → Distinct (node_ids d)
    → (order : List ℕ) × (topological_order d ≡ some order)
      × Sorted (links (node_ids d) d.edges) [] order
      × Subset order (node_ids d)
topological_order-Sorted d h =
    let (order, e, sorted, d', end) = topological_order-rounds d h in
    (order, e, sorted, λ v m. end.done_inside v (ground (arith, elem-after order [] v)))

-- The same of an order that is given.
pub topological_order-facts :
    (d : FlowDefinition) (order : List ℕ)
    → Distinct (node_ids d)
    → topological_order d ≡ some order
    → Sorted (links (node_ids d) d.edges) [] order
      × (d' : ℕ → ℕ) × IsRound (node_ids d) (links (node_ids d) d.edges) (after order []) d' []
topological_order-facts d order h e =
    let (found, e', sorted, d', end) = topological_order-rounds d h in
    let same : found ≡ order = ground arith in
    subst
      (λ o.
        Sorted (links (node_ids d) d.edges) [] o
        × (d' : ℕ → ℕ) × IsRound (node_ids d) (links (node_ids d) d.edges) (after o []) d' [])
      same (sorted, d', end)
