-- ===== src/Flow/Validate/Sound.antt =====
-- What a flow without issues is like (app/services/visual_flow_service.py).
use test_platform_backend.Prelude.{
  ℕ, ◌≤◌, ◌≡◌, refl, Bool, true, false, ◌&&◌, not, List, [], ◌∷◌, ◌++◌, ◌==◌, map, elem, length,
  length-map, Distinct, All, Bool-cases, inl, inr, arith, ap, sym, ◌∙◌,
}
use mathlib.Core.Path.{subst}
use test_platform_backend.Flow.{FlowNode, FlowEdge, FlowDefinition, node_ids, links}
use test_platform_backend.Flow.Order.{topological_order}
use test_platform_backend.Flow.Order.Sorted.{topological_order-Sorted}
use test_platform_backend.Flow.Order.Sorted.Acyclic.{Acyclic, topological_order_complete}
use test_platform_backend.Flow.Issue.{join, Issue, issue_if, set_size, repeats}
use test_platform_backend.Flow.Validate.{
  local_checks, edge_issues, link_issues, is_empty, length_of, local_issues, graph_issues,
}

-- A flow that can be ordered: distinct ids, edges between its nodes, and no cycle.
pub record IsGraph (d : FlowDefinition) : Type 0 where
  pub nodes : Distinct (node_ids d)
  pub edge_ids : Distinct (map (λ (e : FlowEdge). e.id) d.edges)
  pub linked : links (node_ids d) d.edges ≡ d.edges
  pub acyclic : Acyclic d.edges

pub append-nil : (xs ys : List Issue) → xs ++ ys ≡ [] → (xs ≡ []) × (ys ≡ [])
append-nil [] ys h = (refl, h)
append-nil (x ∷ xs) ys h = cc

pub join-nil : (xss : List (List Issue)) → join xss ≡ [] → All (λ xs. xs ≡ []) xss
join-nil [] h = tt
join-nil (xs ∷ xss) h = let (now, later) = append-nil xs (join xss) h in (now, join-nil xss later)

pub issue_if-nil : (b : Bool) (i : Issue) → issue_if b i ≡ [] → b ≡ false
issue_if-nil true i h = cc
issue_if-nil false i h = refl

set_size-le : (xs : List ℕ) → set_size xs ≤ length xs
set_size-le [] = omega arith
set_size-le (x ∷ xs) = ground (arith, set_size-le xs)

Distinct_of_set_size : (xs : List ℕ) → length xs ≡ set_size xs → Distinct xs
Distinct_of_set_size [] h = tt
Distinct_of_set_size (x ∷ xs) h =
    let k = set_size-le xs in
    elim (Bool-cases (elem x xs)) [
      | inl twice ↦ absurd (ground arith)
      | inr once ↦ (once, Distinct_of_set_size xs (ground arith))
    ]

pub set_size_of_Distinct : (xs : List ℕ) → Distinct xs → set_size xs ≡ length xs
set_size_of_Distinct [] h = refl
set_size_of_Distinct (x ∷ xs) h = let k = set_size_of_Distinct xs h.1 in let n = h.0 in ground arith

pub Distinct_of_repeats : (xs : List ℕ) → repeats xs ≡ false → Distinct xs
Distinct_of_repeats xs h = Distinct_of_set_size xs (ground arith)

linked_of_issues :
    (nodes : List FlowNode) (ids : List ℕ) (before es : List FlowEdge)
    → edge_issues nodes ids before es ≡ []
    → links ids es ≡ es
unfolding edge_issues
linked_of_issues nodes ids before [] h = refl
linked_of_issues nodes ids before (e ∷ es) h =
    elim (Bool-cases (elem e.source ids && elem e.target ids)) [
      | inr dangling ↦ absurd (ground arith)
      | inl inside ↦
          let both =
            append-nil (link_issues nodes before e) (edge_issues nodes ids (e ∷ before) es)
              (rw inside at h) in
          let rest = linked_of_issues nodes ids (e ∷ before) es both.1 in
          rw inside (ap (λ es. e ∷ es) rest)
    ]

-- The three parts of the checks before that for a cycle.
local_issues-nil :
    (d : FlowDefinition)
    → local_issues d ≡ []
    → (repeats (node_ids d) ≡ false)
      × (repeats (map (λ (e : FlowEdge). e.id) d.edges) ≡ false)
      × (links (node_ids d) d.edges ≡ d.edges)
unfolding local_issues
local_issues-nil d h =
    let (nodes, (edges, (linked, _))) = join-nil (local_checks d) h in
    (
      issue_if-nil _ _ nodes,
      issue_if-nil _ _ edges,
      linked_of_issues d.nodes (node_ids d) [] d.edges linked,
    )

same_of_test : {b : Bool} (n m : ℕ) → b ≡ true → (b && not (n == m)) ≡ false → n ≡ m
same_of_test n m h e = ground arith

graph_issues-nil :
    (d : FlowDefinition)
    → graph_issues d ≡ []
    → (local_issues d ≡ []) × (length_of (topological_order d) ≡ set_size (node_ids d))
unfolding graph_issues
graph_issues-nil d h =
    let a = append-nil (local_issues d) _ h in
    let c = issue_if-nil _ _ a.1 in
    (a.0, same_of_test (length_of (topological_order d)) _ (ap is_empty a.0) c)

-- A definition without issues in its graph has distinct ids, edges between its nodes, and no
-- cycle.
pub graph_issues-IsGraph : (d : FlowDefinition) → graph_issues d ≡ [] → IsGraph d
graph_issues-IsGraph d h =
    let (local, full) = graph_issues-nil d h in
    let (once, edge_once, linked) = local_issues-nil d local in
    let nodes = Distinct_of_repeats (node_ids d) once in
    let (order, e, sorted, inside) = topological_order-Sorted d nodes in
    let size : length order ≡ length d.nodes =
      sym (ap length_of e)
      ∙ full
      ∙ set_size_of_Distinct (node_ids d) nodes
      ∙ length-map (λ (n : FlowNode). n.id) d.nodes in
    record {
      nodes = nodes;
      edge_ids = Distinct_of_repeats _ edge_once;
      linked = linked;
      acyclic = subst Acyclic linked ((topological_order_complete d order nodes e).0 size);
    }
