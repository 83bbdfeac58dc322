-- ===== src/Flow/Validate.antt =====
-- The checks of `_validate` of app/services/visual_flow_service.py on the graph of a flow, with the
-- whole list of its issues.
pub mod Sound
pub mod Executable
pub mod Configured
use test_platform_backend.Prelude.{
  ℕ, zero, suc, ◌+◌, Bool, true, false, ◌&&◌, ◌||◌, not, Option, none, some, List, [], ◌∷◌, ◌++◌,
  ◌==◌, map, select, elem, length, if◌then◌else◌,
}
use test_platform_backend.Flow.{
  FlowNode, FlowEdge, FlowDefinition, NodeKind, Route, node_ids, links, targets_of, sources_of,
}
use test_platform_backend.Flow.Order.{topological_order}
use test_platform_backend.Flow.Search.{reachable, reverse_reachable}
use test_platform_backend.Flow.Issue.{
  Issue, is_condition, is_end, is_false_route, is_start, is_true_route, issue_if, join, kind_is,
  node_at, repeats, set_size, self_edge, duplicate_edge, invalid_route, dangling_edge,
  duplicate_node_id, duplicate_edge_id, cycle, unreachable_node, no_end_path, start_count,
  end_count, start_incoming, end_outgoing, condition_routes,
}
use test_platform_backend.Flow.Config.{Project, config_issues, environment_issues}

-- `(edge.source, edge.target) in pairs`
abbrev pub has_pair : FlowEdge → List FlowEdge → Bool
has_pair e [] = false
has_pair e (f ∷ fs) = (e.source == f.source && e.target == f.target) || has_pair e fs

-- The checks of one edge whose ends are nodes; `before` are such edges that came before it.
unfoldable pub link_issues : List FlowNode → List FlowEdge → FlowEdge → List Issue
unfolding node_at
link_issues nodes before e = join (
    issue_if (e.source == e.target) (self_edge e.id)
    ∷ issue_if (has_pair e before) (duplicate_edge e.id)
    ∷ issue_if
        (not (kind_is is_condition (node_at e.source nodes))
          && (is_true_route e.route || is_false_route e.route))
        (invalid_route e.id)
    ∷ [])

-- The loop over the edges.
unfoldable pub edge_issues : List FlowNode → List ℕ → List FlowEdge → List FlowEdge → List Issue
unfolding link_issues
edge_issues nodes ids before [] = []
edge_issues nodes ids before (e ∷ es) =
    let skip = edge_issues nodes ids before es in
    let go = edge_issues nodes ids (e ∷ before) es in
    if elem e.source ids && elem e.target ids
    then link_issues nodes before e ++ go
    else dangling_edge e.id ∷ skip

abbrev pub length_of : Option (List ℕ) → ℕ
length_of none = 0
length_of (some xs) = length xs

abbrev pub is_empty : List Issue → Bool
is_empty [] = true
is_empty (_ ∷ _) = false

-- The checks up to that for a cycle.
abbrev pub local_checks : FlowDefinition → List (List Issue)
local_checks d =
    issue_if (repeats (node_ids d)) duplicate_node_id
    ∷ issue_if (repeats (map (λ (e : FlowEdge). e.id) d.edges)) duplicate_edge_id
    ∷ edge_issues d.nodes (node_ids d) [] d.edges
    ∷ []

unfoldable pub local_issues : FlowDefinition → List Issue
unfolding edge_issues
local_issues d = join (local_checks d)

unfoldable pub graph_issues : FlowDefinition → List Issue
unfolding local_issues topological_order
graph_issues d =
    local_issues d
    ++ issue_if
        (is_empty (local_issues d)
          && not (length_of (topological_order d) == set_size (node_ids d)))
        cycle

abbrev pub starts_of : FlowDefinition → List FlowNode
starts_of d = select (λ n. is_start n.kind) d.nodes

abbrev pub ends_of : FlowDefinition → List FlowNode
ends_of d = select (λ n. is_end n.kind) d.nodes

abbrev pub has_some : List ℕ → Bool
has_some [] = false
has_some (_ ∷ _) = true

abbrev pub per_node : (FlowNode → Bool) → (ℕ → Issue) → List FlowNode → List Issue
per_node bad issue [] = []
per_node bad issue (n ∷ ns) = issue_if (bad n) (issue n.id) ++ per_node bad issue ns

-- `routes.count("true") != 1 or routes.count("false") != 1 or len(routes) != 2`
abbrev pub bad_routes : List FlowEdge → FlowNode → Bool
bad_routes es n =
    let out = select (λ e. e.source == n.id) es in
    is_condition n.kind
    && (not (length (select (λ e. is_true_route e.route) out) == 1)
        || not (length (select (λ e. is_false_route e.route) out) == 1)
        || not (length out == 2))

abbrev pub unreachable_issues : FlowDefinition → List FlowNode → List FlowEdge → List Issue
unreachable_issues d (s ∷ []) es =
    issue_if (not (length_of (reachable s.id es) == set_size (node_ids d))) unreachable_node
unreachable_issues d _ es = []

abbrev pub no_end_issues : FlowDefinition → List FlowNode → List FlowEdge → List Issue
no_end_issues d [] es = []
no_end_issues d (n ∷ ns) es =
    issue_if
      (not (
        length_of (reverse_reachable (map (λ (n : FlowNode). n.id) (n ∷ ns)) es)
        == set_size (node_ids d)))
      no_end_path

abbrev pub no_nodes : List FlowNode → Bool
no_nodes [] = true
no_nodes (_ ∷ _) = false

-- The checks for a flow that is to be executed, with its links `es`.
abbrev pub executable_checks : FlowDefinition → List FlowEdge → List (List Issue)
executable_checks d es =
    issue_if (not (length (starts_of d) == 1)) start_count
    ∷ issue_if (no_nodes (ends_of d)) end_count
    ∷ per_node (λ n. has_some (sources_of n.id es)) start_incoming (starts_of d)
    ∷ per_node (λ n. has_some (targets_of n.id es)) end_outgoing (ends_of d)
    ∷ per_node (bad_routes es) condition_routes d.nodes
    ∷ unreachable_issues d (starts_of d) es
    ∷ no_end_issues d (ends_of d) es
    ∷ []

unfoldable pub executable_issues : FlowDefinition → List Issue
unfolding reachable reverse_reachable
executable_issues d = join (executable_checks d (links (node_ids d) d.edges))

abbrev pub flow_checks : Project → FlowDefinition → Bool → List (List Issue)
flow_checks p d executable =
    graph_issues d
    ∷ config_issues p d [] d.nodes
    ∷ environment_issues p d.environment_id
    ∷ (if executable then executable_issues d else [])
    ∷ []

-- `_validate`, which raises 422 where there is an issue.
unfoldable pub flow_issues : Project → FlowDefinition → Bool → List Issue
unfolding graph_issues executable_issues config_issues environment_issues
flow_issues p d executable = join (flow_checks p d executable)
