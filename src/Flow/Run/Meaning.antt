-- ===== src/Flow/Run/Meaning.antt =====
-- What a run of a flow means, without reference to the order in which it goes
-- (app/services/visual_flow_service.py).
use test_platform_backend.Prelude.{
  ℕ, ◌≡◌, refl, Bool, true, false, ◌&&◌, ◌||◌, not, Option, none, some, List, [], ◌∷◌, ◌++◌, ◌==◌,
  map, elem, any, is_some, All, Distinct, Subset, not_elem_other, Bool-cases, inl, inr, arith, sym,
  ap, ◌∙◌,
}
use mathlib.Core.Path.{subst}
use test_platform_backend.Flow.{FlowNode, FlowEdge, FlowDefinition, NodeKind, node_ids, sources_of}
use test_platform_backend.Flow.Issue.{node_at, is_start}
use test_platform_backend.Flow.Order.Sorted.{Sorted, after}
use test_platform_backend.Flow.Run.{
  Output, Runner, Run, skipped, CaseStatus, execute_node, is_failed, is_skipped, incoming,
  activated, condition_output, case_output, is_active, run_node, run_at, run_all,
}
use test_platform_backend.Flow.Run.Steps.{
  output_at, fires, node_at-id, node_at-some, any-active, any-stable, activity-next, activity-skip,
}

-- A node is due: it is a start, or an edge to it is followed.
abbrev pub is_due : FlowDefinition → List Output → FlowNode → Bool
is_due d outs n = is_start n.kind || any (fires d outs) (incoming n.id d.edges)

-- The node has an output, and was executed exactly if it is due.
pub record Explained (d : FlowDefinition) (outs : List Output) (v : ℕ) : Type 0 where
  pub node : FlowNode
  pub is_node : node_at v d.nodes ≡ some node
  pub output : Output
  pub is_output : output_at v outs ≡ some output
  pub executed : not (is_skipped output.status) ≡ is_due d outs node

-- The output ends the flow as failed.
abbrev pub is_fatal_at : Option FlowNode → Output → Bool
is_fatal_at none o = false
is_fatal_at (some n) o = is_failed o.status && not n.continue_on_failure

abbrev pub is_fatal : FlowDefinition → Output → Bool
is_fatal d o = is_fatal_at (node_at o.node_id d.nodes) o

pub record IsRun (d : FlowDefinition) (done : List ℕ) (run : Run) : Type 0 where
  pub recorded : (v : ℕ) → is_some (output_at v run.outputs) ≡ elem v done
  pub activity : All (λ (e : FlowEdge). elem e.id run.active_edges ≡ fires d run.outputs e) d.edges
  pub behind : (v : ℕ) → elem v done ≡ true → Subset (sources_of v d.edges) done
  pub explained : (v : ℕ) → elem v done ≡ true → Explained d run.outputs v
  pub fatal : run.fatal_failure ≡ any (is_fatal d) run.outputs

condition_output-own :
    (n : FlowNode) (r : Option Bool)
    → let o = condition_output n r in (o.node_id ≡ n.id) × (is_skipped o.status ≡ false)
condition_output-own n none = (refl, refl)
condition_output-own n (some b) = (refl, refl)

case_output-own :
    (n : FlowNode) (r : Option CaseStatus)
    → let o = case_output n r in (o.node_id ≡ n.id) × (is_skipped o.status ≡ false)
case_output-own n none = (refl, refl)
case_output-own n (some s) = (refl, refl)

-- The output of an execution is the node's own, and is not that of a skipped node.
execute_node-own :
    (c : Runner) (outs : List Output) (n : FlowNode) (kind : NodeKind)
    → let o = execute_node c outs n kind in (o.node_id ≡ n.id) × (is_skipped o.status ≡ false)
unfolding execute_node
execute_node-own c outs n NodeKind.start = (refl, refl)
execute_node-own c outs n NodeKind.end_node = (refl, refl)
execute_node-own c outs n NodeKind.delay = (refl, refl)
execute_node-own c outs n NodeKind.condition = condition_output-own n (c.evaluate_condition n outs)
execute_node-own c outs n NodeKind.api_case = case_output-own n (c.run_case n outs)
execute_node-own c outs n NodeKind.websocket_case = case_output-own n (c.run_case n outs)

module _ (d : FlowDefinition) (ids : Distinct (map (λ (e : FlowEdge). e.id) d.edges))
    (done : List ℕ) (run : Run) (h : IsRun d done run) (n : FlowNode)
    (at_n : node_at n.id d.nodes ≡ some n) (new : elem n.id done ≡ false)
    (sources : Subset (sources_of n.id d.edges) done) where
  fresh : output_at n.id run.outputs ≡ none
  fresh = none_of_is_some (output_at n.id run.outputs) (h.recorded n.id ∙ new)
    where
      none_of_is_some : (o : Option Output) → is_some o ≡ false → o ≡ none
      none_of_is_some none e = refl
      none_of_is_some (some o) e = cc

  due_now : is_active run n d.edges ≡ is_due d run.outputs n
  due_now =
      ap (λ b. is_start n.kind || b)
        (any-active run.active_edges (fires d run.outputs) n.id d.edges h.activity)

  still_due :
      (o : Output)
      → o.node_id ≡ n.id
      → (m : FlowNode) → Subset (sources_of m.id d.edges) done
      → is_due d (o ∷ run.outputs) m ≡ is_due d run.outputs m
  still_due o named m back =
      ap (λ b. is_start m.kind || b)
        (any-stable d o run.outputs done m.id d.edges (ap (λ v. elem v done) named ∙ new) back)

  -- The node that the round was about.
  Explained-new :
      (o : Output)
      → o.node_id ≡ n.id
      → not (is_skipped o.status) ≡ is_due d run.outputs n
      → Explained d (o ∷ run.outputs) n.id
  Explained-new o named e = record {
    node = n;
    is_node = at_n;
    output = o;
    is_output = (let hit : (o.node_id == n.id) ≡ true = ground arith in rw hit refl);
    executed = e ∙ sym (still_due o named n sources);
  }

  Explained-old :
      (o : Output) (v : ℕ) → o.node_id ≡ n.id → elem v done ≡ true → Explained d (o ∷ run.outputs) v
  Explained-old o v named m =
      let x = h.explained v m in
      let back =
        subst (λ v. Subset (sources_of v d.edges) done)
          (sym (node_at-id v d.nodes x.node x.is_node)) (h.behind v m) in
      record {
        node = x.node;
        is_node = x.is_node;
        output = x.output;
        is_output =
            (let miss : (o.node_id == v) ≡ false =
                ground (arith, not_elem_other n.id v done new m) in
              rw miss x.is_output);
        executed = x.executed ∙ sym (still_due o named x.node back);
      }

  -- The round adds an output of the node.
  next_IsRun :
      (o : Output) (active : List ℕ) (failed : Bool)
      → o.node_id ≡ n.id
      → not (is_skipped o.status) ≡ is_due d run.outputs n
      → All (λ (e : FlowEdge). elem e.id active ≡ fires d (o ∷ run.outputs) e) d.edges
      → failed ≡ (run.fatal_failure || (is_failed o.status && not n.continue_on_failure))
      → IsRun d
          (n.id ∷ done)
          (record { active_edges = active; outputs = o ∷ run.outputs; fatal_failure = failed })
  next_IsRun o active failed named e flags fatal = record {
    recorded = λ v. elim (Bool-cases (o.node_id == v)) [
      | inl same ↦ rw same (ground arith)
      | inr other ↦ rw other (ground (arith, h.recorded v))
    ];
    activity = flags;
    behind = λ v m a k. elim (Bool-cases (v == n.id)) [
      | inl same ↦
          let q : v ≡ n.id = ground arith in let there = sources a (rw q at k) in ground arith
      | inr other ↦ let there = h.behind v (ground arith) a k in ground arith
    ];
    explained = λ v m. elim (Bool-cases (v == n.id)) [
      | inl same ↦
          let q : v ≡ n.id = ground arith in
          subst (Explained d (o ∷ run.outputs)) (sym q) (Explained-new o named e)
      | inr other ↦ Explained-old o v named (ground arith)
    ];
    fatal =
        (let own : is_fatal d o ≡ (is_failed o.status && not n.continue_on_failure) =
            ap (λ m. is_fatal_at m o) (ap (λ v. node_at v d.nodes) named ∙ at_n) in
          ground (arith, h.fatal));
  }

  pub run_node-IsRun : (c : Runner) → IsRun d (n.id ∷ done) (run_node c d.edges run n)
  unfolding run_node
  run_node-IsRun c = elim (Bool-cases (is_active run n d.edges)) [
    | inl active ↦
        let o = execute_node c run.outputs n n.kind in
        let (named, executed) = execute_node-own c run.outputs n n.kind in
        rw active (
          next_IsRun o (map (λ (e : FlowEdge). e.id) (activated n o d.edges) ++ run.active_edges)
            (run.fatal_failure || (is_failed o.status && not n.continue_on_failure)) named
            (ap not executed ∙ sym active ∙ due_now)
            (activity-next d n o run.active_edges run.outputs ids at_n named executed fresh
              h.activity)
            refl)
    | inr idle ↦
        let o : Output = record { node_id = n.id; status = skipped; result = none } in
        rw idle (
          next_IsRun o run.active_edges run.fatal_failure refl (sym idle ∙ due_now)
            (activity-skip d n o run.active_edges run.outputs refl refl fresh h.activity)
            (ground arith))
  ]

pub run_all-IsRun :
    (c : Runner) (d : FlowDefinition) (done order : List ℕ) (run : Run)
    → Distinct (map (λ (e : FlowEdge). e.id) d.edges)
    → Sorted d.edges done order
    → Subset order (node_ids d)
    → IsRun d done run
    → IsRun d (after order done) (run_all c d order run)
unfolding run_all
run_all-IsRun c d done [] run ids sorted inside h = h
run_all-IsRun c d done (v ∷ order) run ids sorted inside h =
    let (n, e) = node_at-some v d.nodes (inside v (ground arith)) in
    let q : n.id ≡ v = node_at-id v d.nodes n e in
    let next =
      run_node-IsRun d ids done run h n (ap (λ v. node_at v d.nodes) q ∙ e)
        (ap (λ v. elem v done) q ∙ sorted.0)
        (subst (λ v. Subset (sources_of v d.edges) done) (sym q) sorted.1) c in
    let same : IsRun d (v ∷ done) (run_at c d.edges run (node_at v d.nodes)) =
      rw e (subst (λ v. IsRun d (v ∷ done) (run_node c d.edges run n)) q next) in
    run_all-IsRun c d (v ∷ done) order (run_at c d.edges run (node_at v d.nodes)) ids sorted.2
      (λ a m. inside a (ground arith)) same
