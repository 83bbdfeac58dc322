-- ===== src/Flow/Run.antt =====
-- `_execute`, `_execute_node` and `_route_matches` of app/services/visual_flow_service.py. What a
-- condition evaluates to and how a case ends are arguments; of an output its status and the result
-- of a condition are kept.
pub mod Steps
pub mod Meaning
pub mod Whole
use test_platform_backend.Prelude.{
  ℕ, zero, suc, Bool, true, false, ◌&&◌, ◌||◌, not, Option, none, some, List, [], ◌∷◌, ◌++◌, ◌==◌,
  map, select, elem, any, if◌then◌else◌,
}
use test_platform_backend.Flow.{FlowNode, FlowEdge, FlowDefinition, NodeKind, Route}
use test_platform_backend.Flow.Order.{topological_order}
use test_platform_backend.Flow.Issue.{Issue, node_at, is_start}
use test_platform_backend.Flow.Config.{Project}
use test_platform_backend.Flow.Validate.{flow_issues, is_empty}

-- How a case ends.
pub data CaseStatus : Type 0 where
  passed failed error : CaseStatus

pub data NodeStatus : Type 0 where
  ran : CaseStatus → NodeStatus
  skipped : NodeStatus

-- `_node_output`
pub record Output : Type 0 where
  pub node_id : ℕ
  pub status : NodeStatus
  pub result : Option Bool

-- The value of a condition and the status of a case, given the outputs so far; none if an
-- exception is raised.
pub record Runner : Type 0 where
  pub evaluate_condition : FlowNode → List Output → Option Bool
  pub run_case : FlowNode → List Output → Option CaseStatus

abbrev pub output : FlowNode → CaseStatus → Option Bool → Output
output n s r = record { node_id = n.id; status = ran s; result = r }

-- The output of a condition with its value, and of a case with its status; an exception gives the
-- output of the `except` clause.
abbrev pub condition_output : FlowNode → Option Bool → Output
condition_output n none = output n error none
condition_output n (some b) = output n passed (some b)

abbrev pub case_output : FlowNode → Option CaseStatus → Output
case_output n none = output n error none
case_output n (some s) = output n s none

-- `_execute_node`
unfoldable pub execute_node : Runner → List Output → FlowNode → NodeKind → Output
execute_node c outputs n NodeKind.condition = condition_output n (c.evaluate_condition n outputs)
execute_node c outputs n NodeKind.api_case = case_output n (c.run_case n outputs)
execute_node c outputs n NodeKind.websocket_case = case_output n (c.run_case n outputs)
execute_node c outputs n _ = output n passed none

-- `output["status"] in {"failed", "error"}`
abbrev pub is_failed : NodeStatus → Bool
is_failed (ran failed) = true
is_failed (ran error) = true
is_failed _ = false

abbrev pub is_skipped : NodeStatus → Bool
is_skipped skipped = true
is_skipped _ = false

abbrev is_result : Bool → Option Bool → Bool
is_result b none = false
is_result true (some r) = r
is_result false (some r) = not r

-- The routes of an output that does not end the flow.
abbrev route_of : Route → Bool → Option Bool → Bool
route_of Route.always failed_status result = true
route_of Route.success failed_status result = not failed_status
route_of Route.failure failed_status result = failed_status
route_of Route.true_route failed_status result = is_result true result
route_of Route.false_route failed_status result = is_result false result

abbrev is_failure : Route → Bool
is_failure Route.failure = true
is_failure _ = false

-- `_route_matches`
unfoldable pub route_matches : Route → FlowNode → Output → Bool
route_matches r n o =
    if is_failed o.status && not n.continue_on_failure
    then is_failure r
    else route_of r (is_failed o.status) o.result

-- `active_edges`, `outputs` with the newest first, and `fatal_failure`.
pub record Run : Type 0 where
  pub active_edges : List ℕ
  pub outputs : List Output
  pub fatal_failure : Bool

abbrev pub incoming : ℕ → List FlowEdge → List FlowEdge
incoming v es = select (λ e. e.target == v) es

-- The edges that an output activates.
abbrev pub activated : FlowNode → Output → List FlowEdge → List FlowEdge
activated n o es = select (λ e. e.source == n.id && route_matches e.route n o) es

abbrev pub is_active : Run → FlowNode → List FlowEdge → Bool
is_active run n es = is_start n.kind || any (λ e. elem e.id run.active_edges) (incoming n.id es)

abbrev pub skip_node : FlowNode → Run → Run
skip_node n run = record run {
  outputs = record { node_id = n.id; status = skipped; result = none } ∷ run.outputs;
}

abbrev pub finish_node : List FlowEdge → FlowNode → Output → Run → Run
finish_node es n o run = record {
  active_edges = map (λ (e : FlowEdge). e.id) (activated n o es) ++ run.active_edges;
  outputs = o ∷ run.outputs;
  fatal_failure = run.fatal_failure || (is_failed o.status && not n.continue_on_failure);
}

-- One round of the loop over the order.
unfoldable pub run_node : Runner → List FlowEdge → Run → FlowNode → Run
unfolding execute_node route_matches
run_node c es run n =
    if is_active run n es
    then finish_node es n (execute_node c run.outputs n n.kind) run
    else skip_node n run

abbrev pub run_at : Runner → List FlowEdge → Run → Option FlowNode → Run
run_at c es run none = run
run_at c es run (some n) = run_node c es run n

unfoldable pub run_all : Runner → FlowDefinition → List ℕ → Run → Run
unfolding run_node node_at
run_all c d [] run = run
run_all c d (id ∷ order) run = run_all c d order (run_at c d.edges run (node_at id d.nodes))

abbrev pub first_run : Run
first_run = record { active_edges = []; outputs = []; fatal_failure = false }

abbrev pub order_of : Option (List ℕ) → List ℕ
order_of none = []
order_of (some order) = order

-- `environment_id or definition.environment_id`
abbrev pub selected_environment : Option ℕ → Option ℕ → Option ℕ
selected_environment none own = own
selected_environment (some zero) own = own
selected_environment (some (suc e)) own = some (suc e)

-- `_require_environment` raises for the environment that is selected.
abbrev pub lacks_environment : Project → Option ℕ → Bool
lacks_environment p none = false
lacks_environment p (some e) = not (p.has_environment e)

-- `_execute`: 422 with the issues, 404, or the execution that finished.
pub data Execution : Type 0 where
  invalid : List Issue → Execution
  no_environment : Execution
  finished : CaseStatus → Run → Execution

abbrev pub finish : Run → Execution
finish run = finished (if run.fatal_failure then failed else passed) run

unfoldable pub execute : Runner → Project → Option ℕ → FlowDefinition → Execution
unfolding run_all topological_order flow_issues
execute c p environment_id d =
    let run = run_all c d (order_of (topological_order d)) first_run in
    if is_empty (flow_issues p d true)
    then if lacks_environment p (selected_environment environment_id d.environment_id)
      then no_environment
      else finish run
    else invalid (flow_issues p d true)
