-- ===== src/Flow/Validate/Configured.antt =====
-- What the nodes of a flow without issues are like (app/services/visual_flow_service.py).
use test_platform_backend.Prelude.{
  ℕ, ◌≡◌, refl, Bool, true, false, ◌&&◌, ◌||◌, not, Option, none, some, List, [], ◌∷◌, ◌++◌, map,
  elem, any, All, Distinct, arith,
}
use mathlib.Core.Path.{subst}
use test_platform_backend.Flow.{
  FlowNode, FlowDefinition, FlowInputBinding, NodeKind, OverrideKey, node_ids, links, sources_of,
}
use test_platform_backend.Flow.Issue.{Issue, issue_if, join, repeats, is_condition, node_at}
use test_platform_backend.Flow.Config.{
  Project, override_issues, has_invalid_field, value_issues, case_issues, is_below, is_other_root,
  paths_of, referenced, source_issues, binding_issues, binding_list_issues, input_issues,
  node_issues, config_issues, is_http_field, is_websocket_field,
}
use test_platform_backend.Flow.Validate.{flow_checks, flow_issues}
use test_platform_backend.Flow.Validate.Sound.{
  append-nil, issue_if-nil, join-nil, Distinct_of_repeats,
}

-- A binding reads a declared output of a node with an edge to this one, and writes to a part of the
-- request.
pub record IsBound (d : FlowDefinition) (n : FlowNode) (b : FlowInputBinding) : Type 0 where
  pub has_dot : b.target_has_dot ≡ true
  pub known_root : is_other_root b.target_root ≡ false
  pub direct : elem b.source_node_id (sources_of n.id (links (node_ids d) d.edges)) ≡ true
  pub declared :
      any (λ path. is_below path b.source_path) (paths_of (node_at b.source_node_id d.nodes)) ≡ true

-- The case of a node is in the project, the overrides are of its fields, and it validates with an
-- environment of the project or with none.
pub record IsReferenced (p : Project) (n : FlowNode) (found : ℕ → Bool)
    (allowed : OverrideKey → Bool) : Type 0 where
  pub case_id : ℕ
  pub reference : n.reference_id ≡ some case_id
  pub in_project : found case_id ≡ true
  pub config_fields : has_invalid_field allowed n.case_config ≡ false
  pub override_fields : has_invalid_field allowed n.case_overrides ≡ false
  pub validated : value_issues p n (p.validated_environment n case_id) ≡ []

-- By the kind of the node.
abbrev pub CaseOf : Project → FlowNode → NodeKind → Type 0
CaseOf p n NodeKind.api_case = IsReferenced p n p.has_http_case is_http_field
CaseOf p n NodeKind.websocket_case = IsReferenced p n p.has_websocket_case is_websocket_field
CaseOf p n _ = Unit

pub record IsConfigured (p : Project) (d : FlowDefinition) (n : FlowNode) : Type 0 where
  pub referenced : CaseOf p n n.kind
  pub has_condition : is_condition n.kind ≡ true → n.has_condition ≡ true
  pub binding_ids : Distinct (map (λ (b : FlowInputBinding). b.id) n.input_bindings)
  pub bound : All (IsBound d n) n.input_bindings

-- The checks of a node that do not read its case.
record HasInputs (d : FlowDefinition) (n : FlowNode) : Type 0 where
  has_condition : is_condition n.kind ≡ true → n.has_condition ≡ true
  binding_ids : Distinct (map (λ (b : FlowInputBinding). b.id) n.input_bindings)
  bound : All (IsBound d n) n.input_bindings

binding-IsBound :
    (d : FlowDefinition) (n : FlowNode) (b : FlowInputBinding)
    → binding_issues d (sources_of n.id (links (node_ids d) d.edges)) n.id b ≡ []
    → IsBound d n b
unfolding binding_issues
binding-IsBound d n b h =
    let direct = elem b.source_node_id (sources_of n.id (links (node_ids d) d.edges)) in
    let declared =
      any (λ path. is_below path b.source_path) (paths_of (node_at b.source_node_id d.nodes)) in
    let (target, rest) =
      append-nil
        (issue_if (not b.target_has_dot || is_other_root b.target_root)
          (Issue.invalid_binding_target n.id))
        (join (source_issues direct declared n.id ∷ [])) h in
    let t = issue_if-nil (not b.target_has_dot || is_other_root b.target_root) _ target in
    let s =
      source_fits direct declared (append-nil (source_issues direct declared n.id) [] rest).0 in
    record { has_dot = ground arith; known_root = ground arith; direct = s.0; declared = s.1 }
  where
    source_fits :
        (direct declared : Bool)
        → source_issues direct declared n.id ≡ []
        → (direct ≡ true) × (declared ≡ true)
    source_fits true true e = (refl, refl)
    source_fits true false e = cc
    source_fits false declared e = cc

bindings-IsBound :
    (d : FlowDefinition) (n : FlowNode) (bs : List FlowInputBinding)
    → binding_list_issues d (sources_of n.id (links (node_ids d) d.edges)) n.id bs ≡ []
    → All (IsBound d n) bs
unfolding binding_list_issues
bindings-IsBound d n [] h = tt
bindings-IsBound d n (b ∷ bs) h =
    let (now, later) = append-nil (binding_issues d _ n.id b) (binding_list_issues d _ n.id bs) h in
    (binding-IsBound d n b now, bindings-IsBound d n bs later)

inputs-HasInputs : (d : FlowDefinition) (n : FlowNode) → input_issues d n ≡ [] → HasInputs d n
unfolding input_issues
inputs-HasInputs d n h =
    let upstream = sources_of n.id (links (node_ids d) d.edges) in
    let ids = map (λ (b : FlowInputBinding). b.id) n.input_bindings in
    let (condition, (once, (bound, _))) =
      join-nil
        (issue_if (is_condition n.kind && not n.has_condition) (Issue.missing_condition n.id)
          ∷ issue_if (repeats ids) (Issue.duplicate_binding_id n.id)
          ∷ binding_list_issues d upstream n.id n.input_bindings
          ∷ [])
        h in
    let c = issue_if-nil (is_condition n.kind && not n.has_condition) _ condition in
    record {
      has_condition = λ k. ground arith;
      binding_ids = Distinct_of_repeats ids (issue_if-nil (repeats ids) _ once);
      bound = bindings-IsBound d n n.input_bindings bound;
    }

case-IsReferenced :
    (p : Project) (n : FlowNode) (found : ℕ → Bool) (allowed : OverrideKey → Bool) (r : ℕ)
    → n.reference_id ≡ some r
    → case_issues p [] n (found r) allowed r ≡ []
    → IsReferenced p n found allowed
unfolding case_issues
case-IsReferenced p n found allowed r at_r h =
    let config = has_invalid_field allowed n.case_config in
    let override = has_invalid_field allowed n.case_overrides in
    let (there, rest) = append-nil (issue_if (not (found r)) (Issue.invalid_reference n.id)) _ h in
    let (fields, values) = append-nil (override_issues allowed n) _ rest in
    let (one, two) = append-nil (issue_if config (Issue.invalid_case_override n.id)) _ fields in
    let (two, _) = append-nil (issue_if override (Issue.invalid_case_override n.id)) [] two in
    let e1 = issue_if-nil config _ one in
    let e2 = issue_if-nil override _ two in
    let e3 : found r ≡ true = (let k = issue_if-nil (not (found r)) _ there in ground arith) in
    record {
      case_id = r;
      reference = at_r;
      in_project = e3;
      config_fields = e1;
      override_fields = e2;
      validated =
          (append-nil (value_issues p n (p.validated_environment n r)) []
            (rw (fields, e3) at values)).0;
    }

of_case :
    (p : Project) (d : FlowDefinition) (n : FlowNode) (found : ℕ → Bool)
    (allowed : OverrideKey → Bool) (r : Option ℕ)
    → n.reference_id ≡ r
    → referenced n r (λ r. case_issues p [] n (found r) allowed r ++ input_issues d n) ≡ []
    → IsReferenced p n found allowed × HasInputs d n
of_case p d n found allowed none at_r h = cc
of_case p d n found allowed (some r) at_r h =
    let (case, inputs) = append-nil (case_issues p [] n (found r) allowed r) (input_issues d n) h in
    (case-IsReferenced p n found allowed r at_r case, inputs-HasInputs d n inputs)

node_issues-nil :
    (p : Project) (d : FlowDefinition) (n : FlowNode) (kind : NodeKind)
    → node_issues p d [] n kind ≡ []
    → CaseOf p n kind × HasInputs d n
unfolding node_issues
node_issues-nil p d n NodeKind.api_case h =
    of_case p d n p.has_http_case is_http_field n.reference_id refl h
node_issues-nil p d n NodeKind.websocket_case h =
    of_case p d n p.has_websocket_case is_websocket_field n.reference_id refl h
node_issues-nil p d n NodeKind.start h = (tt, inputs-HasInputs d n h)
node_issues-nil p d n NodeKind.end_node h = (tt, inputs-HasInputs d n h)
node_issues-nil p d n NodeKind.condition h = (tt, inputs-HasInputs d n h)
node_issues-nil p d n NodeKind.delay h = (tt, inputs-HasInputs d n h)

nodes-IsConfigured :
    (p : Project) (d : FlowDefinition) (ns : List FlowNode)
    → config_issues p d [] ns ≡ []
    → All (IsConfigured p d) ns
unfolding config_issues
nodes-IsConfigured p d [] h = tt
nodes-IsConfigured p d (n ∷ ns) h =
    let found = node_issues p d [] n n.kind in
    let (now, later) = append-nil found (config_issues p d ([] ++ found) ns) h in
    let (case, inputs) = node_issues-nil p d n n.kind now in
    let one : IsConfigured p d n = record {
      referenced = case;
      has_condition = inputs.has_condition;
      binding_ids = inputs.binding_ids;
      bound = inputs.bound;
    } in
    (one, nodes-IsConfigured p d ns (subst (λ xs. config_issues p d xs ns ≡ []) now later))

-- A flow without issues is configured: each node that runs a case refers to one of the project,
-- overrides only fields of that case and validates under them; each condition has an expression;
-- and the bindings of a node have distinct ids, write to a part of a request, and read a declared
-- output of a node with an edge to this one.
pub flow_issues-IsConfigured :
    (p : Project) (d : FlowDefinition) (executable : Bool)
    → flow_issues p d executable ≡ []
    → All (IsConfigured p d) d.nodes
unfolding flow_issues
flow_issues-IsConfigured p d executable h =
    nodes-IsConfigured p d d.nodes (join-nil (flow_checks p d executable) h).1.0
