-- ===== src/Flow.antt =====
-- Visual flows: app/services/visual_flow_service.py over the definitions of
-- app/schemas/visual_flow.py. The id of a node or an edge is a number, since the code only compares
-- ids.
pub mod Order
pub mod Search
pub mod Issue
pub mod Config
pub mod Validate
pub mod Run
pub mod Paths
use test_platform_backend.Prelude.{
  ℕ, Bool, true, false, ◌&&◌, Option, List, [], ◌∷◌, ◌==◌, map, select, elem,
}

pub data NodeKind : Type 0 where
  start end_node api_case websocket_case condition delay : NodeKind

pub data Route : Type 0 where
  always success failure true_route false_route : Route

-- The part of a binding's target before its first dot, by the names of `_TARGET_ROOTS`.
pub data TargetRoot : Type 0 where
  path_params query headers body variables messages other_root : TargetRoot

-- `source_path` is the list of its parts between the dots.
pub record FlowInputBinding : Type 0 where
  pub id : ℕ
  pub target_root : TargetRoot
  pub target_has_dot : Bool
  pub source_node_id : ℕ
  pub source_path : List ℕ

-- A key of `caseConfig` or `caseOverrides`: a field of a case, one of the other spellings in
-- `_CASE_OVERRIDE_ALIASES`, or something else.
pub data OverrideKey : Type 0 where
  method path headers query_params body_type body assertions extractors : OverrideKey
  retry_policy subprotocols messages receive_count : OverrideKey
  connect_timeout_ms receive_timeout_ms : OverrideKey
  query_alias query_params_alias body_type_alias receive_count_alias : OverrideKey
  connect_timeout_alias receive_timeout_alias retry_policy_alias other_key : OverrideKey

-- `FlowNode` with its `FlowNodeConfig`: `reference_id` is none where `int(node.reference_id)`
-- raises, and `has_condition` tells that the condition has more than white space.
pub record FlowNode : Type 0 where
  pub id : ℕ
  pub kind : NodeKind
  pub reference_id : Option ℕ
  pub has_condition : Bool
  pub continue_on_failure : Bool
  pub input_bindings : List FlowInputBinding
  pub output_paths : List (List ℕ)
  pub case_config : List OverrideKey
  pub case_overrides : List OverrideKey

pub record FlowEdge : Type 0 where
  pub id : ℕ
  pub source : ℕ
  pub target : ℕ
  pub route : Route

pub record FlowDefinition : Type 0 where
  pub environment_id : Option ℕ
  pub nodes : List FlowNode
  pub edges : List FlowEdge

abbrev pub node_ids : FlowDefinition → List ℕ
node_ids d = map (λ (n : FlowNode). n.id) d.nodes

-- `edge.source in outgoing and edge.target in indegree`
abbrev pub links : List ℕ → List FlowEdge → List FlowEdge
links ids = select (λ e. elem e.source ids && elem e.target ids)

-- `outgoing[node_id]` as targets, and `incoming[node_id]` as sources, in the order of the edges.
abbrev pub targets_of : ℕ → List FlowEdge → List ℕ
targets_of u es = map (λ (e : FlowEdge). e.target) (select (λ e. e.source == u) es)

abbrev pub sources_of : ℕ → List FlowEdge → List ℕ
sources_of v es = map (λ (e : FlowEdge). e.source) (select (λ e. e.target == v) es)
