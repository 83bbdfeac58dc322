-- ===== src/Flow/Validate/Executable.antt =====
-- What a flow that may be executed is like (app/services/visual_flow_service.py).
use test_platform_backend.Prelude.{
  ℕ, ◌≡◌, refl, Bool, true, false, ◌&&◌, ◌||◌, not, List, [], ◌∷◌, ◌==◌, map, select, elem, length,
  Distinct, Subset, Subset_of_length, All, Bool-cases, inl, inr, arith, ap, sym, ◌∙◌,
}
use mathlib.Core.Path.{subst}
use test_platform_backend.Flow.{
  FlowNode, FlowEdge, FlowDefinition, node_ids, links, targets_of, sources_of,
}
use test_platform_backend.Flow.Order.Sorted.Acyclic.{source_inside}
use test_platform_backend.Flow.Search.{reachable, reverse_reachable}
use test_platform_backend.Flow.Search.Reach.{
  at_start, step, Walk, reachable-Walk, reverse_reachable-Walk,
}
use test_platform_backend.Flow.Issue.{is_end, is_start, Issue, issue_if, set_size}
use test_platform_backend.Flow.Validate.{
  executable_checks, length_of, executable_issues, flow_checks, flow_issues, starts_of, ends_of,
  unreachable_issues, no_end_issues, per_node, bad_routes, no_nodes, has_some,
}
use test_platform_backend.Flow.Config.{Project}
use test_platform_backend.Flow.Validate.Sound.{
  IsGraph, append-nil, issue_if-nil, join-nil, set_size_of_Distinct, graph_issues-IsGraph,
}

-- A flow that can be executed: it has one start, with no edge to it, from which a walk leads to
-- each node, and an end to which a walk leads from each node.
pub record IsExecutable (d : FlowDefinition) : Type 0 where
  pub graph : IsGraph d
  pub start : FlowNode
  pub one_start : starts_of d ≡ start ∷ []
  pub entry : sources_of start.id d.edges ≡ []
  pub routes : All (λ n. bad_routes d.edges n ≡ false) d.nodes
  pub reached :
      (v : ℕ) → elem v (node_ids d) ≡ true → Walk (λ u. targets_of u d.edges) (start.id ∷ []) v
  pub ending :
      (v : ℕ)
      → elem v (node_ids d) ≡ true
      → Walk (λ v. sources_of v d.edges) (map (λ (n : FlowNode). n.id) (ends_of d)) v

one_of_length : (ns : List FlowNode) → length ns ≡ 1 → (s : FlowNode) × (ns ≡ s ∷ [])
one_of_length [] h = absurd (omega arith)
one_of_length (s ∷ []) h = (s, refl)
one_of_length (s ∷ t ∷ ns) h = absurd (omega arith)

per_node-nil :
    (bad : FlowNode → Bool) (issue : ℕ → Issue) (ns : List FlowNode)
    → per_node bad issue ns ≡ []
    → All (λ n. bad n ≡ false) ns
per_node-nil bad issue [] h = tt
per_node-nil bad issue (n ∷ ns) h =
    let (now, later) = append-nil (issue_if (bad n) (issue n.id)) (per_node bad issue ns) h in
    (issue_if-nil (bad n) (issue n.id) now, per_node-nil bad issue ns later)

nil_of_has_some : (xs : List ℕ) → has_some xs ≡ false → xs ≡ []
nil_of_has_some [] h = refl
nil_of_has_some (x ∷ xs) h = cc

-- A set of nodes as large as the flow has them all, if it has only nodes of the flow.
all_found :
    (found ids : List ℕ)
    → Distinct ids
    → Distinct found
    → Subset found ids
    → (length found ≡ set_size ids)
    → Subset ids found
all_found found ids once d inside size =
    Subset_of_length found ids d inside (omega (arith, set_size_of_Distinct ids once))

-- A walk along the edges of the flow stays among its nodes.
Walk-inside :
    (ids : List ℕ) (edges : List FlowEdge) (next : ℕ → List ℕ) (starts : List ℕ)
    → ((u v : ℕ) → elem v (next u) ≡ true → elem v ids ≡ true)
    → Subset starts ids
    → (v : ℕ) → Walk next starts v
    → elem v ids ≡ true
Walk-inside ids edges next starts stays inside v (at_start s) = inside v s
Walk-inside ids edges next starts stays inside v (step {u} w edge) = stays u v edge

elem-targets_of :
    (b u : ℕ) (e : FlowEdge) (es : List FlowEdge)
    → elem b (targets_of u (e ∷ es))
      ≡ ((e.source == u && b == e.target) || elem b (targets_of u es))
elem-targets_of b u e es = elim (Bool-cases (e.source == u)) [
  | inl hit ↦ rw hit refl
  | inr miss ↦ rw miss refl
]

-- The targets of a link are nodes.
target_inside :
    (ids : List ℕ) (edges : List FlowEdge) (u v : ℕ)
    → elem v (targets_of u (links ids edges)) ≡ true
    → elem v ids ≡ true
target_inside ids [] u v h = cc
target_inside ids (e ∷ edges) u v h =
    let here = elem-targets_of v u e (links ids edges) in
    elim (Bool-cases (elem e.source ids && elem e.target ids)) [
      | inr out ↦ target_inside ids edges u v (rw out at h)
      | inl both ↦ elim (Bool-cases (v == e.target)) [
        | inl same ↦ let q : v ≡ e.target = ground arith in rw q (ground arith)
        | inr other ↦ target_inside ids edges u v (ground (arith, rw both at h))
      ]
    ]

-- The nodes that pass a test are nodes.
selected_inside :
    (p : FlowNode → Bool) (ns : List FlowNode)
    → Subset (map (λ (n : FlowNode). n.id) (select p ns)) (map (λ (n : FlowNode). n.id) ns)
selected_inside p [] a h = cc
selected_inside p (n ∷ ns) a h = elim (Bool-cases (p n)) [
  | inl kept ↦ let m = rw kept at h in ground (arith, selected_inside p ns a)
  | inr dropped ↦ let m = rw dropped at h in ground (arith, selected_inside p ns a)
]

executable_checks-nil :
    (d : FlowDefinition)
    → IsGraph d
    → executable_issues d ≡ []
    → All (λ xs. xs ≡ []) (executable_checks d d.edges)
unfolding executable_issues
executable_checks-nil d g h =
    subst (λ es. All (λ xs. xs ≡ []) (executable_checks d es)) g.linked
      (join-nil (executable_checks d (links (node_ids d) d.edges)) h)

module _ (d : FlowDefinition) (g : IsGraph d) where
  next_inside : (u v : ℕ) → elem v (targets_of u d.edges) ≡ true → elem v (node_ids d) ≡ true
  next_inside u v h =
      target_inside (node_ids d) d.edges u v
        (subst (λ es. elem v (targets_of u es) ≡ true) (sym g.linked) h)

  before_inside : (v u : ℕ) → elem u (sources_of v d.edges) ≡ true → elem u (node_ids d) ≡ true
  before_inside v u h =
      (source_inside (node_ids d) d.edges u v
        (subst (λ es. elem u (sources_of v es) ≡ true) (sym g.linked) h)).0

  all_reached :
      (s : FlowNode)
      → elem s.id (node_ids d) ≡ true
      → length_of (reachable s.id d.edges) ≡ set_size (node_ids d)
      → (v : ℕ) → elem v (node_ids d) ≡ true
      → Walk (λ u. targets_of u d.edges) (s.id ∷ []) v
  all_reached s there size v m =
      let (found, e, once, both) = reachable-Walk s.id d.edges in
      let inside : Subset found (node_ids d) = λ a k.
        Walk-inside (node_ids d) d.edges (λ u. targets_of u d.edges) (s.id ∷ []) next_inside
          (λ b q. let same : b ≡ s.id = ground arith in rw same there) a ((both a).0 k) in
      (both v).0
        (all_found found (node_ids d) g.nodes once inside (sym (ap length_of e) ∙ size) v m)

  all_ending :
      length_of (reverse_reachable (map (λ (n : FlowNode). n.id) (ends_of d)) d.edges)
        ≡ set_size (node_ids d)
      → (v : ℕ) → elem v (node_ids d) ≡ true
      → Walk (λ v. sources_of v d.edges) (map (λ (n : FlowNode). n.id) (ends_of d)) v
  all_ending size v m =
      let ends = map (λ (n : FlowNode). n.id) (ends_of d) in
      let (found, e, once, both) = reverse_reachable-Walk ends d.edges in
      let inside : Subset found (node_ids d) = λ a k.
        Walk-inside (node_ids d) d.edges (λ v. sources_of v d.edges) ends before_inside
          (selected_inside (λ n. is_end n.kind) d.nodes) a ((both a).0 k) in
      (both v).0
        (all_found found (node_ids d) g.nodes once inside (sym (ap length_of e) ∙ size) v m)

start_inside :
    (d : FlowDefinition) (s : FlowNode) → starts_of d ≡ s ∷ [] → elem s.id (node_ids d) ≡ true
start_inside d s one =
    let inside = selected_inside (λ n. is_start n.kind) d.nodes s.id in
    let first : elem s.id (map (λ (n : FlowNode). n.id) (starts_of d)) ≡ true =
      rw one (ground arith) in
    inside first

start_checked :
    (d : FlowDefinition) (es : List FlowEdge) (s : FlowNode)
    → starts_of d ≡ s ∷ []
    → unreachable_issues d (starts_of d) es ≡ []
    → per_node (λ n. has_some (sources_of n.id es)) Issue.start_incoming (starts_of d) ≡ []
    → (length_of (reachable s.id es) ≡ set_size (node_ids d)) × (sources_of s.id es ≡ [])
start_checked d es s one reach entry =
    let r = issue_if-nil _ _ (rw one at reach) in
    let n =
      per_node-nil (λ n. has_some (sources_of n.id es)) Issue.start_incoming (s ∷ [])
        (rw one at entry) in
    (ground arith, nil_of_has_some (sources_of s.id es) n.0)

ends_checked :
    (d : FlowDefinition) (ends : List FlowNode) (es : List FlowEdge)
    → no_nodes ends ≡ false
    → no_end_issues d ends es ≡ []
    → length_of (reverse_reachable (map (λ (n : FlowNode). n.id) ends) es) ≡ set_size (node_ids d)
ends_checked d [] es some_end h = cc
ends_checked d (n ∷ ns) es some_end h = let r = issue_if-nil _ _ h in ground arith

-- A definition without issues can be executed: it has distinct ids, edges between its nodes and no
-- cycle; one start, which no edge leads to and from which a walk leads to each node; a walk to an
-- end from each node; and both routes once at each condition.
pub flow_issues-IsExecutable :
    (p : Project) (d : FlowDefinition) → flow_issues p d true ≡ [] → IsExecutable d
unfolding flow_issues
flow_issues-IsExecutable p d h =
    let (graph_none, (_, (_, (rest_none, _)))) = join-nil (flow_checks p d true) h in
    let g = graph_issues-IsGraph d graph_none in
    let (count, (ends, (entry, (leaving, (routes, (reach, (finish, _))))))) =
      executable_checks-nil d g rest_none in
    let (s, one) = one_of_length (starts_of d) (one_start (starts_of d) (issue_if-nil _ _ count)) in
    let (found, free) = start_checked d d.edges s one reach entry in
    let there = start_inside d s one in
    record {
      graph = g;
      start = s;
      one_start = one;
      entry = free;
      routes = per_node-nil (bad_routes d.edges) Issue.condition_routes d.nodes routes;
      reached = all_reached d g s there found;
      ending = all_ending d g (ends_checked d (ends_of d) d.edges (issue_if-nil _ _ ends) finish);
    }
  where
    one_start : (ns : List FlowNode) → not (length ns == 1) ≡ false → length ns ≡ 1
    one_start ns e = ground arith
