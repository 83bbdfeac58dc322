-- ===== src/Flow/Order/Rounds.antt =====
-- The invariant of the rounds of `_topological_order` (app/services/visual_flow_service.py).
use test_platform_backend.Prelude.{
  ℕ, ◌-◌, ◌≤◌, ◌≡◌, refl, true, false, ◌&&◌, ◌||◌, not, List, [], ◌∷◌, ◌==◌, elem, count, Distinct,
  Subset, Bool-cases, inl, inr, arith, sym,
}
use test_platform_backend.Flow.{FlowEdge, links, targets_of}
use test_platform_backend.Flow.Order.{Kahn, visit_all, first_degree, first_queue}
use test_platform_backend.Flow.Order.Degrees.{
  waiting, waiting-cons, visit_all-indegree, visit_all-queue, visit_all-Distinct,
}

-- Each node waits at most for nodes of the flow.
abbrev pub Closed : List ℕ → List FlowEdge → Type 0
Closed ids es = (done : List ℕ) (v : ℕ) → (waiting done es v == 0) ≡ false → elem v ids ≡ true

pub links-Closed : (ids : List ℕ) (edges : List FlowEdge) → Closed ids (links ids edges)
links-Closed ids [] done v h = cc
links-Closed ids (e ∷ edges) done v h = ground (arith, links-Closed ids edges done v)

-- `done` has the nodes that left the queue.
pub record IsRound (ids : List ℕ) (es : List FlowEdge) (done : List ℕ) (d : ℕ → ℕ) (queue : List ℕ)
    : Type 0 where
  pub degree : (v : ℕ) → d v ≡ waiting done es v
  pub done_inside : Subset done ids
  pub queue_inside : Subset queue ids
  pub done_distinct : Distinct done
  pub queue_distinct : Distinct queue
  pub apart : (v : ℕ) → elem v queue ≡ true → elem v done ≡ false
  pub ready : (v : ℕ) → elem v queue ≡ true → d v ≡ 0
  pub finished : (v : ℕ) → elem v done ≡ true → d v ≡ 0
  pub complete : (v : ℕ) → elem v ids ≡ true → d v ≡ 0 → (elem v done || elem v queue) ≡ true

waiting_nil : (es : List FlowEdge) (v : ℕ) → waiting [] es v ≡ first_degree es v
waiting_nil [] v = refl
waiting_nil (e ∷ es) v = ground (arith, waiting_nil es v)

elem-first_queue :
    (ids : List ℕ) (d : ℕ → ℕ) (v : ℕ) → elem v (first_queue ids d) ≡ (elem v ids && d v == 0)
elem-first_queue [] d v = refl
elem-first_queue (x ∷ ids) d v = elim (Bool-cases (v == x)) [
  | inl same ↦ let e : v ≡ x = ground arith in rw e (ground (arith, elem-first_queue ids d x))
  | inr other ↦ ground (arith, elem-first_queue ids d v)
]

first_queue-Distinct : (ids : List ℕ) (d : ℕ → ℕ) → Distinct ids → Distinct (first_queue ids d)
first_queue-Distinct [] d h = tt
first_queue-Distinct (x ∷ ids) d h =
    let rest = first_queue-Distinct ids d h.1 in
    let out = elem-first_queue ids d x in
    elim (Bool-cases (d x == 0)) [
      | inl free ↦ rw free (ground arith, rest)
      | inr held ↦ rw held rest
    ]

pub first-IsRound :
    (ids : List ℕ) (es : List FlowEdge)
    → Distinct ids
    → IsRound ids es [] (first_degree es) (first_queue ids (first_degree es))
first-IsRound ids es h = record {
  degree = λ v. sym (waiting_nil es v);
  done_inside = λ v m. cc;
  queue_inside = λ v m. ground (arith, elem-first_queue ids (first_degree es) v);
  done_distinct = tt;
  queue_distinct = first_queue-Distinct ids (first_degree es) h;
  apart = λ v m. refl;
  ready = λ v m. ground (arith, elem-first_queue ids (first_degree es) v);
  finished = λ v m. cc;
  complete = λ v m z. ground (arith, elem-first_queue ids (first_degree es) v);
}

-- One round: `u` leaves the queue.
module _ (ids : List ℕ) (es : List FlowEdge) (closed : Closed ids es) (done : List ℕ) (d : ℕ → ℕ)
    (u : ℕ) (rest : List ℕ) (h : IsRound ids es done d (u ∷ rest)) where
  abbrev pub visited : Kahn
  visited = visit_all (targets_of u es) (record { indegree = d; queue = rest })

  unvisited : elem u done ≡ false
  unvisited = h.apart u (ground arith)

  enough : (v : ℕ) → count v (targets_of u es) ≤ d v
  enough v = omega (arith, waiting-cons u done es v unvisited, h.degree v)

  new_degree : (v : ℕ) → visited.indegree v ≡ d v - count v (targets_of u es)
  new_degree v = visit_all-indegree (targets_of u es) (record { indegree = d; queue = rest }) v

  new_queue :
      (v : ℕ) → elem v visited.queue ≡ (elem v rest || (not (d v == 0) && visited.indegree v == 0))
  new_queue v = visit_all-queue (targets_of u es) (record { indegree = d; queue = rest }) v enough

  pub next-IsRound : IsRound ids es (u ∷ done) visited.indegree visited.queue
  next-IsRound = record {
    degree = λ v. omega (arith, new_degree v, waiting-cons u done es v unvisited, h.degree v);
    done_inside = λ v m. ground (arith, h.done_inside v, h.queue_inside v, h.queue_inside u);
    queue_inside = λ v m. ground (arith, new_queue v, h.queue_inside v, closed done v, h.degree v);
    done_distinct = (unvisited, h.done_distinct);
    queue_distinct =
        visit_all-Distinct (targets_of u es) (record { indegree = d; queue = rest }) enough
          (λ v m. h.ready v (ground arith)) h.queue_distinct.1;
    apart = λ v m. elim (Bool-cases (v == u)) [
      | inl same ↦
          let e : v ≡ u = ground arith in
          let head = h.queue_distinct.0 in
          let zero_u = h.ready u (ground arith) in
          let q = new_queue u in absurd (ground (arith, rw e at m))
      | inr other ↦ let q = new_queue v in ground (arith, h.apart v, h.finished v)
    ];
    ready = λ v m. let old = h.ready v in let less = new_degree v in ground (arith, new_queue v);
    finished = λ v m. elim (Bool-cases (v == u)) [
      | inl same ↦
          let e : v ≡ u = ground arith in
          rw e (omega (arith, new_degree u, h.ready u (ground arith)))
      | inr other ↦ let z = h.finished v (ground arith) in omega (arith, new_degree v)
    ];
    complete = λ v m z. ground (arith, new_queue v, h.complete v);
  }
