-- ===== src/Tests/Flows.antt =====
-- A flow with a condition, from which one branch is taken and the other is passed by.
use test_platform_backend.Prelude.{
  ℕ, ◌≡◌, refl, true, false, none, some, List, [], ◌∷◌, ◌==◌, length, Distinct, Subset, ◌↔◌, All,
}
use test_platform_backend.Prelude.{codes}
use test_platform_backend.Json.{Json, null, number, array, object, no_items, item, no_fields, field}
use test_platform_backend.Flow.Paths.{write_path, int_of, magnitude}
use test_platform_backend.Flow.{
  FlowNode, FlowEdge, FlowDefinition, NodeKind, FlowInputBinding, TargetRoot, OverrideKey, Route,
  node_ids, links,
}
use test_platform_backend.Flow.Order.{visit_all, topological_order}
use test_platform_backend.Flow.Order.Sorted.{Sorted, topological_order-Sorted}
use test_platform_backend.Flow.Order.Sorted.Acyclic.{Acyclic, topological_order_complete}
use test_platform_backend.Flow.Config.{Project}
use test_platform_backend.Flow.Validate.{flow_issues}
use test_platform_backend.Flow.Validate.Configured.{IsConfigured, flow_issues-IsConfigured}
use test_platform_backend.Flow.Validate.Executable.{IsExecutable, flow_issues-IsExecutable}
use test_platform_backend.Flow.Run.{failed, Runner, execute}
use test_platform_backend.Flow.Run.Whole.{Ends, execute-Ends}

abbrev node : ℕ → NodeKind → FlowNode
node id kind = record {
  id = id;
  kind = kind;
  reference_id = some 70;
  has_condition = true;
  continue_on_failure = false;
  input_bindings = [];
  output_paths = (5 ∷ []) ∷ [];
  case_config = [];
  case_overrides = [];
}

-- Reads `5.6` of the output of the condition.
abbrev binding : FlowInputBinding
binding = record {
  id = 1;
  target_root = TargetRoot.query;
  target_has_dot = true;
  source_node_id = 2;
  source_path = 5 ∷ 6 ∷ [];
}

abbrev case_node : FlowNode
case_node = record (node 3 NodeKind.api_case) {
  input_bindings = binding ∷ [];
  case_overrides = OverrideKey.query_params_alias ∷ OverrideKey.method ∷ [];
}

abbrev project : Project
project = record {
  has_environment = λ e. e == 9;
  has_http_case = λ r. r == 70;
  has_websocket_case = λ _. false;
  validated_environment = λ n r. some (some 9);
}

abbrev edge : ℕ → ℕ → ℕ → Route → FlowEdge
edge id source target route = record { id = id; source = source; target = target; route = route }

-- 1 to the condition 2, which leads to the case 3 if it is true and to the end 4 if it is not.
abbrev branches : FlowDefinition
branches = record {
  environment_id = some 9;
  nodes =
      node 4 NodeKind.end_node ∷ case_node ∷ node 2 NodeKind.condition ∷ node 1 NodeKind.start ∷ [];
  edges =
      edge 10 1 2 Route.always
      ∷ edge 11 2 3 Route.true_route
      ∷ edge 12 2 4 Route.false_route
      ∷ edge 13 3 4 Route.success
      ∷ [];
}

-- The condition is true and the case fails.
abbrev failing : Runner
failing = record {
  evaluate_condition = λ n outputs. some true;
  run_case = λ n outputs. some failed;
}

abbrev one_each : Distinct (node_ids branches)
one_each = (refl, (refl, (refl, (refl, tt))))

ordered : topological_order branches ≡ some (1 ∷ 2 ∷ 3 ∷ 4 ∷ [])
unfolding topological_order visit_all
ordered = refl

no_issues : flow_issues project branches true ≡ []
unfolding flow_issues visit_all
no_issues = refl

topological_order-Sorted_example :
    (order : List ℕ) × (topological_order branches ≡ some order)
    × Sorted (links (node_ids branches) branches.edges) [] order
    × Subset order (node_ids branches)
topological_order-Sorted_example = topological_order-Sorted branches one_each

topological_order_complete_example :
    (length {A = ℕ} (1 ∷ 2 ∷ 3 ∷ 4 ∷ []) ≡ 4) ↔ Acyclic (links (node_ids branches) branches.edges)
topological_order_complete_example =
    topological_order_complete branches (1 ∷ 2 ∷ 3 ∷ 4 ∷ []) one_each ordered

flow_issues-IsExecutable_example : IsExecutable branches
flow_issues-IsExecutable_example = flow_issues-IsExecutable project branches no_issues

flow_issues-IsConfigured_example : All (IsConfigured project branches) branches.nodes
flow_issues-IsConfigured_example = flow_issues-IsConfigured project branches true no_issues

execute-Ends_example : Ends project (some 0) branches (execute failing project (some 0) branches)
execute-Ends_example = execute-Ends failing project (some 0) branches

-- A list below a key is made longer by a write.
abbrev request : Json
request = object (field (codes "messages") (array (item (number 1) no_items)) no_fields)

longer :
    write_path request (codes "messages" ∷ codes "2" ∷ []) (number 8)
    ≡ some (
        object (
          field
            (codes "messages")
            (array (item (number 1) (item null (item (number 8) no_items))))
            no_fields))
unfolding write_path int_of magnitude
longer = refl

signed :
    (int_of (codes " +1_0 ") ≡ some (false, 10))
    × (int_of (codes "-1") ≡ some (true, 1))
    × (int_of (codes "1__0") ≡ none)
    × (int_of (codes "- 1") ≡ none)
    × (int_of (codes "_1") ≡ none)
    × (int_of [] ≡ none)
unfolding int_of magnitude
signed = (refl, refl, refl, refl, refl, refl)

-- The last element, which is not read at the path that wrote it.
last_replaced :
    write_path request (codes "messages" ∷ codes "-1" ∷ []) (number 8)
    ≡ some (object (field (codes "messages") (array (item (number 8) no_items)) no_fields))
unfolding write_path int_of magnitude
last_replaced = refl

before_the_start : write_path request (codes "messages" ∷ codes "-2" ∷ []) (number 8) ≡ none
unfolding write_path int_of magnitude
before_the_start = refl
