-- ===== src/Flow/Config.antt =====
-- The checks of `_validate` of app/services/visual_flow_service.py on the configuration of the
-- nodes. The cases and environments of the project, and what Pydantic says of a case under the
-- overrides of a node, are arguments.
use test_platform_backend.Prelude.{
  ℕ, Bool, true, false, ◌&&◌, ◌||◌, not, Option, none, some, List, [], ◌∷◌, ◌++◌, ◌==◌, map, elem,
  any, if◌then◌else◌,
}
use test_platform_backend.Flow.{
  FlowNode, FlowDefinition, FlowInputBinding, NodeKind, OverrideKey, TargetRoot, node_ids, links,
  sources_of,
}
use test_platform_backend.Flow.Issue.{Issue, issue_if, join, repeats, is_condition, node_at}

-- `validated_environment` is the environment of the case of a node under its overrides, none if the
-- case does not validate.
pub record Project : Type 0 where
  pub has_environment : ℕ → Bool
  pub has_http_case : ℕ → Bool
  pub has_websocket_case : ℕ → Bool
  pub validated_environment : FlowNode → ℕ → Option (Option ℕ)

-- `_CASE_OVERRIDE_ALIASES.get(raw_key, raw_key)`
abbrev pub canonical : OverrideKey → OverrideKey
canonical OverrideKey.query_alias = OverrideKey.query_params
canonical OverrideKey.query_params_alias = OverrideKey.query_params
canonical OverrideKey.body_type_alias = OverrideKey.body_type
canonical OverrideKey.receive_count_alias = OverrideKey.receive_count
canonical OverrideKey.connect_timeout_alias = OverrideKey.connect_timeout_ms
canonical OverrideKey.receive_timeout_alias = OverrideKey.receive_timeout_ms
canonical OverrideKey.retry_policy_alias = OverrideKey.retry_policy
canonical key = key

-- `_HTTP_CASE_OVERRIDE_FIELDS`
abbrev pub is_http_field : OverrideKey → Bool
is_http_field OverrideKey.method = true
is_http_field OverrideKey.path = true
is_http_field OverrideKey.headers = true
is_http_field OverrideKey.query_params = true
is_http_field OverrideKey.body_type = true
is_http_field OverrideKey.body = true
is_http_field OverrideKey.assertions = true
is_http_field OverrideKey.extractors = true
is_http_field OverrideKey.retry_policy = true
is_http_field _ = false

-- `_WEBSOCKET_CASE_OVERRIDE_FIELDS`
abbrev pub is_websocket_field : OverrideKey → Bool
is_websocket_field OverrideKey.path = true
is_websocket_field OverrideKey.headers = true
is_websocket_field OverrideKey.subprotocols = true
is_websocket_field OverrideKey.messages = true
is_websocket_field OverrideKey.receive_count = true
is_websocket_field OverrideKey.connect_timeout_ms = true
is_websocket_field OverrideKey.receive_timeout_ms = true
is_websocket_field OverrideKey.assertions = true
is_websocket_field OverrideKey.extractors = true
is_websocket_field OverrideKey.retry_policy = true
is_websocket_field _ = false

-- `_invalid_override_fields` is not empty.
abbrev pub has_invalid_field : (OverrideKey → Bool) → List OverrideKey → Bool
has_invalid_field allowed = any (λ key. not (allowed (canonical key)))

abbrev pub override_issues : (OverrideKey → Bool) → FlowNode → List Issue
override_issues allowed n = join (
    issue_if (has_invalid_field allowed n.case_config) (Issue.invalid_case_override n.id)
    ∷ issue_if (has_invalid_field allowed n.case_overrides) (Issue.invalid_case_override n.id)
    ∷ [])

-- An issue `invalid_case_override` of the node is among those found.
abbrev pub is_override_of : ℕ → Issue → Bool
is_override_of id (Issue.invalid_case_override i) = i == id
is_override_of id _ = false

abbrev pub value_issues : Project → FlowNode → Option (Option ℕ) → List Issue
value_issues p n none = Issue.invalid_case_override_value n.id ∷ []
value_issues p n (some none) = []
value_issues p n (some (some e)) =
    issue_if (not (p.has_environment e)) (Issue.invalid_case_override_environment n.id)

-- The checks of a node that runs a case, `seen` being the issues of the nodes before.
unfoldable pub case_issues :
    Project → List Issue → FlowNode → Bool → (OverrideKey → Bool) → ℕ → List Issue
case_issues p seen n found allowed r =
    let overrides = override_issues allowed n in
    join (
      issue_if (not found) (Issue.invalid_reference n.id)
      ∷ overrides
      ∷ (if found && not (any (is_override_of n.id) (seen ++ overrides))
          then value_issues p n (p.validated_environment n r)
          else [])
      ∷ [])

-- `source_path == path or source_path.startswith(path + ".")`
abbrev pub is_below : List ℕ → List ℕ → Bool
is_below [] source = true
is_below (x ∷ path) [] = false
is_below (x ∷ path) (y ∷ source) = x == y && is_below path source

abbrev pub is_other_root : TargetRoot → Bool
is_other_root TargetRoot.other_root = true
is_other_root _ = false

abbrev pub paths_of : Option FlowNode → List (List ℕ)
paths_of none = []
paths_of (some n) = n.output_paths

abbrev pub source_issues : Bool → Bool → ℕ → List Issue
source_issues direct declared id =
    if direct
    then issue_if (not declared) (Issue.undeclared_output id)
    else Issue.invalid_binding_source id ∷ []

-- The checks of one binding, with the sources of the edges to the node.
unfoldable pub binding_issues : FlowDefinition → List ℕ → ℕ → FlowInputBinding → List Issue
unfolding node_at
binding_issues d direct_upstream id b =
    let paths = paths_of (node_at b.source_node_id d.nodes) in
    join (
      issue_if (not b.target_has_dot || is_other_root b.target_root)
        (Issue.invalid_binding_target id)
      ∷ (if elem b.source_node_id direct_upstream
          then issue_if (not (any (λ path. is_below path b.source_path) paths))
              (Issue.undeclared_output id)
          else Issue.invalid_binding_source id ∷ [])
      ∷ [])

unfoldable pub binding_list_issues :
    FlowDefinition → List ℕ → ℕ → List FlowInputBinding → List Issue
unfolding binding_issues
binding_list_issues d direct_upstream id [] = []
binding_list_issues d direct_upstream id (b ∷ bs) =
    binding_issues d direct_upstream id b ++ binding_list_issues d direct_upstream id bs

-- The checks that every node goes through.
unfoldable pub input_issues : FlowDefinition → FlowNode → List Issue
unfolding binding_list_issues
input_issues d n = join (
    issue_if (is_condition n.kind && not n.has_condition) (Issue.missing_condition n.id)
    ∷ issue_if (repeats (map (λ (b : FlowInputBinding). b.id) n.input_bindings))
        (Issue.duplicate_binding_id n.id)
    ∷ binding_list_issues d (sources_of n.id (links (node_ids d) d.edges)) n.id n.input_bindings
    ∷ [])

-- Without a numeric reference the node is not checked further.
abbrev pub referenced : FlowNode → Option ℕ → (ℕ → List Issue) → List Issue
referenced n none rest = Issue.missing_reference n.id ∷ []
referenced n (some r) rest = rest r

unfoldable pub node_issues :
    Project → FlowDefinition → List Issue → FlowNode → NodeKind → List Issue
unfolding input_issues case_issues
node_issues p d seen n NodeKind.api_case =
    referenced n n.reference_id
      (λ r. case_issues p seen n (p.has_http_case r) is_http_field r ++ input_issues d n)
node_issues p d seen n NodeKind.websocket_case =
    referenced n n.reference_id
      (λ r. case_issues p seen n (p.has_websocket_case r) is_websocket_field r ++ input_issues d n)
node_issues p d seen n _ = input_issues d n

-- The loop over the nodes.
unfoldable pub config_issues : Project → FlowDefinition → List Issue → List FlowNode → List Issue
unfolding node_issues
config_issues p d seen [] = []
config_issues p d seen (n ∷ ns) =
    let found = node_issues p d seen n n.kind in found ++ config_issues p d (seen ++ found) ns

unfoldable pub environment_issues : Project → Option ℕ → List Issue
environment_issues p none = []
environment_issues p (some e) = issue_if (not (p.has_environment e)) Issue.invalid_environment
