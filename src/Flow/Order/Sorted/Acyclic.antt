-- ===== src/Flow/Order/Sorted/Acyclic.antt =====
-- When `_topological_order` has all nodes (app/services/visual_flow_service.py).
use test_platform_backend.Prelude.{
  ℕ, zero, suc, ◌<◌, ◌≡◌, refl, true, ◌&&◌, some, List, [], ◌∷◌, ◌==◌, if◌then◌else◌, length,
  length-map, elem, Distinct, Subset, length-le-Subset, Subset_of_length, Bool-cases, inl, inr, ◌⊎◌,
  ◌↔◌, arith,
}
use test_platform_backend.Flow.{FlowNode, FlowEdge, FlowDefinition, node_ids, links, sources_of}
use test_platform_backend.Flow.Order.{topological_order}
use test_platform_backend.Flow.Order.Degrees.{elem-sources_of, waiting}
use test_platform_backend.Flow.Order.Rounds.{IsRound}
use test_platform_backend.Flow.Order.Sorted.{
  Sorted, after, elem-after, length-after, topological_order-facts,
}

-- The edges lead upwards in some numbering of the nodes.
abbrev pub Acyclic : List FlowEdge → Type 0
Acyclic es = (rank : ℕ → ℕ) × ((s t : ℕ) → elem s (sources_of t es) ≡ true → rank s < rank t)

abbrev pub position : List ℕ → ℕ → ℕ
position [] v = 0
position (u ∷ order) v = if v == u then 0 else suc (position order v)

position-rises :
    (es : List FlowEdge) (done order : List ℕ) (s t : ℕ)
    → Sorted es done order
    → elem t order ≡ true
    → elem s (sources_of t es) ≡ true
    → (elem s done ≡ true) ⊎ (position order s < position order t)
position-rises es done [] s t h m e = cc
position-rises es done (u ∷ order) s t h m e = elim (Bool-cases (t == u)) [
  | inl same ↦ let q : t ≡ u = ground arith in inl (h.1 s (rw q at e))
  | inr other ↦ let ih = position-rises es (u ∷ done) order s t h.2 (ground arith) e in ground arith
]

-- The sources of a link are nodes.
pub source_inside :
    (ids : List ℕ) (edges : List FlowEdge) (s t : ℕ)
    → elem s (sources_of t (links ids edges)) ≡ true
    → (elem s ids ≡ true) × (elem t ids ≡ true)
source_inside ids [] s t h = cc
source_inside ids (e ∷ edges) s t h =
    let here = elem-sources_of s t e (links ids edges) in
    elim (Bool-cases (elem e.source ids && elem e.target ids)) [
      | inr out ↦ source_inside ids edges s t (rw out at h)
      | inl both ↦ elim (Bool-cases (e.target == t && s == e.source)) [
        | inl same ↦
            let q : s ≡ e.source = ground arith in
            let r : t ≡ e.target = ground arith in rw (q, r) (ground arith)
        | inr other ↦ source_inside ids edges s t (ground (arith, rw both at h))
      ]
    ]

-- A node all of whose sources are behind waits for no other.
nothing_waits :
    (done : List ℕ) (es : List FlowEdge) (t : ℕ)
    → Subset (sources_of t es) done
    → waiting done es t ≡ 0
nothing_waits done [] t h = refl
nothing_waits done (e ∷ es) t h =
    let here = h e.source in
    let rest = nothing_waits done es t (λ a m. h a (ground arith)) in ground arith

-- Where the edges lead upwards, every node has left the queue at the end.
all_done :
    (ids : List ℕ) (edges : List FlowEdge) (done : List ℕ) (d : ℕ → ℕ)
    → IsRound ids (links ids edges) done d []
    → (rank : ℕ → ℕ)
    → ((s t : ℕ) → elem s (sources_of t (links ids edges)) ≡ true → rank s < rank t)
    → (bound v : ℕ) → rank v < bound
    → elem v ids ≡ true
    → elem v done ≡ true
all_done ids edges done d h rank up zero v below m = absurd (omega arith)
all_done ids edges done d h rank up (suc bound) v below m =
    let ready : waiting done (links ids edges) v ≡ 0 =
      nothing_waits done (links ids edges) v (λ s e.
        all_done ids edges done d h rank up bound s (omega (arith, up s v e))
          ((source_inside ids edges s v e).0)) in
    ground (arith, h.complete v m (omega (arith, h.degree v)))

-- For distinct node ids, the order has all nodes exactly if the edges have no cycle.
pub topological_order_complete :
    (d : FlowDefinition) (order : List ℕ)
    → Distinct (node_ids d)
    → topological_order d ≡ some order
    → (length order ≡ length d.nodes) ↔ Acyclic (links (node_ids d) d.edges)
topological_order_complete d order h e =
    let ids = node_ids d in
    let es = links ids d.edges in
    let (sorted, d', end) = topological_order-facts d order h e in
    let size = length-after order [] in
    let nodes = length-map (λ (n : FlowNode). n.id) d.nodes in
    (
      λ full.
          let inside =
            Subset_of_length (after order []) ids end.done_distinct end.done_inside (omega arith) in
          (
            position order,
            λ s t edge.
                let there = inside t ((source_inside ids d.edges s t edge).1) in
                let last = elem-after order [] t in
                let rises = position-rises es [] order s t sorted (ground arith) edge in
                ground arith,
          ),
      λ (rank, up).
          let few = length-le-Subset (after order []) ids end.done_distinct end.done_inside in
          let all = length-le-Subset ids (after order []) h (λ v m.
            all_done ids d.edges (after order []) d' end rank up (suc (rank v)) v (omega arith)
              m) in
          omega arith,
    )

-- Without a cycle the order leaves out no node.
pub topological_order-all :
    (d : FlowDefinition) (order : List ℕ)
    → Distinct (node_ids d)
    → topological_order d ≡ some order
    → Acyclic (links (node_ids d) d.edges)
    → Subset (node_ids d) order
topological_order-all d order h e (rank, up) v m =
    let (sorted, d', end) = topological_order-facts d order h e in
    let last = elem-after order [] v in
    let there =
      all_done (node_ids d) d.edges (after order []) d' end rank up (suc (rank v)) v (omega arith)
        m in
    ground arith
