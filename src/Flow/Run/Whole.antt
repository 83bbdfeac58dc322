-- ===== src/Flow/Run/Whole.antt =====
-- The run of a whole flow that passes its checks (app/services/visual_flow_service.py).
use test_platform_backend.Prelude.{
  ℕ, ◌≡◌, refl, true, false, Option, none, some, List, [], ◌∷◌, elem, any, if◌then◌else◌, All,
  Subset, Bool-cases, inl, inr, arith, sym, ◌∙◌,
}
use mathlib.Core.Path.{subst}
use test_platform_backend.Prelude.{is_some}
use test_platform_backend.Flow.{Route, FlowNode, FlowEdge, FlowDefinition, node_ids}
use test_platform_backend.Flow.Order.{topological_order}
use test_platform_backend.Flow.Order.Sorted.{Sorted, elem-after, topological_order-Sorted}
use test_platform_backend.Flow.Order.Sorted.Acyclic.{Acyclic, topological_order-all}
use test_platform_backend.Flow.Config.{Project}
use test_platform_backend.Flow.Issue.{Issue, node_at}
use test_platform_backend.Flow.Validate.{is_empty, flow_issues}
use test_platform_backend.Flow.Validate.Executable.{flow_issues-IsExecutable}
use test_platform_backend.Flow.Run.{
  failed, passed, no_environment, selected_environment, lacks_environment, Runner, Run, run_all,
  first_run, order_of, Execution, finished, invalid, execute,
}
use test_platform_backend.Flow.Run.Steps.{fires, fires_with, output_at}
use test_platform_backend.Flow.Run.Meaning.{Explained, is_fatal, IsRun, run_all-IsRun}

-- Without outputs, no edge is followed.
idle : (d : FlowDefinition) (es : List FlowEdge) → All (λ e. false ≡ fires d [] e) es
idle d [] = tt
idle d (e ∷ es) = (sym (silent e.route (node_at e.source d.nodes)), idle d es)
  where
    silent : (r : Route) (n : Option FlowNode) → fires_with r n none ≡ false
    silent r none = refl
    silent r (some n) = refl

first_run-IsRun : (d : FlowDefinition) → IsRun d [] first_run
first_run-IsRun d = record {
  recorded = λ v. refl;
  activity = idle d d.edges;
  behind = λ v m a k. cc;
  explained = λ v m. absurd (ground arith);
  fatal = refl;
}

same_elements : (xs ys : List ℕ) → Subset xs ys → Subset ys xs → (v : ℕ) → elem v xs ≡ elem v ys
same_elements xs ys there back v = elim (Bool-cases (elem v xs)) [
  | inl m ↦ ground (arith, there v m)
  | inr m ↦ elim (Bool-cases (elem v ys)) [
    | inl k ↦ ground (arith, back v k)
    | inr k ↦ ground arith
  ]
]

-- A run as it is meant: each node has an output and was executed exactly if it is due, no other id
-- has one, and the flow failed exactly if an output is fatal.
pub record IsWhole (d : FlowDefinition) (run : Run) : Type 0 where
  pub explained : (v : ℕ) → elem v (node_ids d) ≡ true → Explained d run.outputs v
  pub no_other : (v : ℕ) → is_some (output_at v run.outputs) ≡ elem v (node_ids d)
  pub fatal : run.fatal_failure ≡ any (is_fatal d) run.outputs

-- How an execution ends.
pub data Ends (p : Project) (environment_id : Option ℕ) (d : FlowDefinition)
    : Execution → Type 0 where
  refused :
      is_empty (flow_issues p d true) ≡ false
      → Ends p environment_id d (invalid (flow_issues p d true))
  unplaced :
      flow_issues p d true ≡ []
      → lacks_environment p (selected_environment environment_id d.environment_id) ≡ true
      → Ends p environment_id d no_environment
  ended :
      flow_issues p d true ≡ []
      → lacks_environment p (selected_environment environment_id d.environment_id) ≡ false
      → (run : Run) → IsWhole d run
      → Ends p environment_id d
          (finished (if any (is_fatal d) run.outputs then failed else passed) run)

-- The loop over the nodes of a flow without issues.
run_all-IsWhole :
    (c : Runner) (p : Project) (d : FlowDefinition)
    → flow_issues p d true ≡ []
    → IsWhole d (run_all c d (order_of (topological_order d)) first_run)
run_all-IsWhole c p d h =
    let g = (flow_issues-IsExecutable p d h).graph in
    let (order, e, sorted, inside) = topological_order-Sorted d g.nodes in
    let whole = topological_order-all d order g.nodes e (subst Acyclic (sym g.linked) g.acyclic) in
    let r =
      run_all-IsRun c d [] order first_run g.edge_ids
        (subst (λ es. Sorted es [] order) g.linked sorted) inside (first_run-IsRun d) in
    let at = λ (v : ℕ). elem-after order [] v ∙ same_elements order (node_ids d) inside whole v in
    let run : IsWhole d (run_all c d order first_run) = record {
      explained = λ v m. r.explained v (at v ∙ m);
      no_other = λ v. r.recorded v ∙ at v;
      fatal = r.fatal;
    } in
    subst (λ o. IsWhole d (run_all c d (order_of o) first_run)) (sym e) run

-- An execution is refused with the issues if the flow has any, and with 404 if the environment
-- selected is not in the project. Otherwise it runs to its end, and each node has an output: it was
-- executed exactly if it is a start or an edge to it is followed, the edge's source having been
-- executed and the edge's route matching the source's output. The execution has then failed exactly
-- if the output of some node without `continue_on_failure` is a failure or an error.
pub execute-Ends :
    (c : Runner) (p : Project) (environment_id : Option ℕ) (d : FlowDefinition)
    → Ends p environment_id d (execute c p environment_id d)
unfolding execute
execute-Ends c p environment_id d = elim (Bool-cases (is_empty (flow_issues p d true))) [
  | inr issues ↦ rw issues (refused issues)
  | inl valid ↦
      let h = nil_of_empty (flow_issues p d true) valid in
      elim (Bool-cases
        (lacks_environment p (selected_environment environment_id d.environment_id))) [
          | inl missing ↦ rw (valid, missing) (unplaced h missing)
          | inr there ↦
              let w = run_all-IsWhole c p d h in rw (valid, there, w.fatal) (ended h there _ w)
        ]
]
  where
    nil_of_empty : (xs : List Issue) → is_empty xs ≡ true → xs ≡ []
    nil_of_empty [] e = refl
    nil_of_empty (x ∷ xs) e = cc
