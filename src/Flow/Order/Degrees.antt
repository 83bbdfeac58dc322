-- ===== src/Flow/Order/Degrees.antt =====
-- What the degrees and the queue of `_topological_order` say of the nodes that left the queue
-- (app/services/visual_flow_service.py).
use test_platform_backend.Prelude.{
  ℕ, ◌+◌, ◌-◌, ◌≤◌, ◌≡◌, refl, Bool, true, false, ◌&&◌, ◌||◌, not, List, [], ◌∷◌, ◌==◌, select,
  length, elem, count, Distinct, Distinct-concat, elem-append, Bool-cases, inl, inr, arith,
}
use test_platform_backend.Flow.{FlowEdge, targets_of, sources_of}
use test_platform_backend.Flow.Order.{Kahn, decrement, visit, visit_all}

-- The edges to `v` from nodes that have not left the queue.
abbrev pub waiting : List ℕ → List FlowEdge → ℕ → ℕ
waiting done es v = length (select (λ e. e.target == v && not (elem e.source done)) es)

-- The sources of `t` among one more edge.
pub elem-sources_of :
    (a t : ℕ) (e : FlowEdge) (es : List FlowEdge)
    → elem a (sources_of t (e ∷ es))
      ≡ ((e.target == t && a == e.source) || elem a (sources_of t es))
elem-sources_of a t e es = elim (Bool-cases (e.target == t)) [
  | inl hit ↦ rw hit refl
  | inr miss ↦ rw miss refl
]

-- When `u` leaves the queue, so do its edges.
pub waiting-cons :
    (u : ℕ) (done : List ℕ) (es : List FlowEdge) (v : ℕ)
    → elem u done ≡ false
    → waiting (u ∷ done) es v + count v (targets_of u es) ≡ waiting done es v
waiting-cons u done [] v h = refl
waiting-cons u done (e ∷ es) v h = elim (Bool-cases (e.source == u)) [
  | inl same ↦ ground (arith, waiting-cons u done es v h)
  | inr other ↦ ground (arith, waiting-cons u done es v h)
]

pub visit_all-indegree :
    (ts : List ℕ) (k : Kahn) (v : ℕ) → (visit_all ts k).indegree v ≡ k.indegree v - count v ts
unfolding visit_all
visit_all-indegree [] k v = omega arith
visit_all-indegree (t ∷ ts) k v = ground (arith, visit_all-indegree ts (visit t k) v)

visited-count :
    (t : ℕ) (ts : List ℕ) (k : Kahn)
    → ((w : ℕ) → count w (t ∷ ts) ≤ k.indegree w)
    → (w : ℕ) → count w ts ≤ (visit t k).indegree w
visited-count t ts k h w = let here = h w in ground arith

visit-zero :
    (t : ℕ) (ts : List ℕ) (k : Kahn)
    → ((w : ℕ) → count w (t ∷ ts) ≤ k.indegree w)
    → ((w : ℕ) → elem w k.queue ≡ true → k.indegree w ≡ 0)
    → (w : ℕ) → elem w (visit t k).queue ≡ true
    → (visit t k).indegree w ≡ 0
visit-zero t ts k h z w m =
    let more = elem-append w k.queue (t ∷ []) in
    let there = z w in
    elim (Bool-cases (elem w k.queue)) [
      | inl old ↦ let e = there old in ground arith
      | inr new ↦ ground arith
    ]

visit-Distinct :
    (t : ℕ) (ts : List ℕ) (k : Kahn)
    → ((w : ℕ) → count w (t ∷ ts) ≤ k.indegree w)
    → ((w : ℕ) → elem w k.queue ≡ true → k.indegree w ≡ 0)
    → Distinct k.queue
    → Distinct (visit t k).queue
visit-Distinct t ts k h z d = elim (Bool-cases (decrement t k.indegree t == 0)) [
  | inl emptied ↦ rw emptied (Distinct-concat t k.queue d (fresh (elem t k.queue) refl))
  | inr more ↦ rw more d
]
  where
    fresh : (b : Bool) → elem t k.queue ≡ b → b ≡ false
    fresh false e = refl
    fresh true e = let none_left = z t e in let here = h t in absurd (ground arith)

-- The nodes that are queued are those whose degree falls to 0.
pub visit_all-queue :
    (ts : List ℕ) (k : Kahn) (v : ℕ)
    → ((w : ℕ) → count w ts ≤ k.indegree w)
    → elem v (visit_all ts k).queue
      ≡ (elem v k.queue || (not (k.indegree v == 0) && (visit_all ts k).indegree v == 0))
unfolding visit_all
visit_all-queue [] k v h = ground arith
visit_all-queue (t ∷ ts) k v h =
    let less = visited-count t ts k h in
    let last = visit_all-indegree ts (visit t k) v in
    let more = elem-append v k.queue (t ∷ []) in
    let here = h t in ground (arith, visit_all-queue ts (visit t k) v less)

pub visit_all-Distinct :
    (ts : List ℕ) (k : Kahn)
    → ((w : ℕ) → count w ts ≤ k.indegree w)
    → ((w : ℕ) → elem w k.queue ≡ true → k.indegree w ≡ 0)
    → Distinct k.queue
    → Distinct (visit_all ts k).queue
unfolding visit_all
visit_all-Distinct [] k h z d = d
visit_all-Distinct (t ∷ ts) k h z d =
    visit_all-Distinct ts (visit t k) (visited-count t ts k h) (visit-zero t ts k h z)
      (visit-Distinct t ts k h z d)
