-- ===== src/Flow/Issue.antt =====
-- The issues that `_validate` of app/services/visual_flow_service.py collects, and its tests on
-- nodes.
use test_platform_backend.Prelude.{
  ℕ, suc, Bool, true, false, not, Option, none, some, List, [], ◌∷◌, ◌++◌, ◌==◌, elem, length,
  if◌then◌else◌,
}
use test_platform_backend.Flow.{FlowNode, NodeKind, Route}

-- The codes of `issues`, with the id of the edge or the node that they name.
pub data Issue : Type 0 where
  duplicate_node_id duplicate_edge_id cycle start_count end_count : Issue
  unreachable_node no_end_path invalid_environment : Issue
  dangling_edge self_edge duplicate_edge invalid_route : ℕ → Issue
  start_incoming end_outgoing condition_routes : ℕ → Issue
  missing_reference invalid_reference invalid_case_override : ℕ → Issue
  invalid_case_override_environment invalid_case_override_value missing_condition : ℕ → Issue
  duplicate_binding_id invalid_binding_target invalid_binding_source : ℕ → Issue
  undeclared_output : ℕ → Issue

abbrev pub issue_if : Bool → Issue → List Issue
issue_if b i = if b then i ∷ [] else []

-- The issues of checks that are made one after the other.
abbrev pub join : List (List Issue) → List Issue
join [] = []
join (xs ∷ rest) = xs ++ join rest

-- `len(set(xs))`
abbrev pub set_size : List ℕ → ℕ
set_size [] = 0
set_size (x ∷ xs) = if elem x xs then set_size xs else suc (set_size xs)

-- `len(xs) != len(set(xs))`
abbrev pub repeats : List ℕ → Bool
repeats xs = not (length xs == set_size xs)

abbrev pub is_condition : NodeKind → Bool
is_condition NodeKind.condition = true
is_condition _ = false

abbrev pub is_start : NodeKind → Bool
is_start NodeKind.start = true
is_start _ = false

abbrev pub is_end : NodeKind → Bool
is_end NodeKind.end_node = true
is_end _ = false

abbrev pub is_true_route : Route → Bool
is_true_route Route.true_route = true
is_true_route _ = false

abbrev pub is_false_route : Route → Bool
is_false_route Route.false_route = true
is_false_route _ = false

abbrev pub kind_is : (NodeKind → Bool) → Option FlowNode → Bool
kind_is p none = false
kind_is p (some n) = p n.kind

-- `nodes[id]`, where the last node of an id stands.
unfoldable pub node_at : ℕ → List FlowNode → Option FlowNode
node_at id [] = none
node_at id (n ∷ ns) = elim (node_at id ns) [
  | some m ↦ some m
  | none ↦ if n.id == id then some n else none
]
