-- ===== src/Flow/Run/Steps.antt =====
-- The edges that are active while a flow runs, read off the outputs
-- (app/services/visual_flow_service.py).
use test_platform_backend.Prelude.{
  ℕ, ◌≡◌, refl, Bool, true, false, ◌&&◌, ◌||◌, not, Option, none, some, List, [], ◌∷◌, ◌++◌, ◌==◌,
  map, select, elem, any, find, All, All-map2, Distinct, Subset, elem-append, Bool-cases,
  Option-cases, inl, inr, arith, sym, ap, ◌∙◌,
}
use test_platform_backend.Flow.{FlowNode, FlowEdge, FlowDefinition, Route, sources_of}
use test_platform_backend.Flow.Order.Degrees.{elem-sources_of}
use test_platform_backend.Flow.Issue.{node_at}
use test_platform_backend.Flow.Run.{Output, route_matches, is_skipped, incoming, activated}

-- `outputs.get(v)`
abbrev pub output_at : ℕ → List Output → Option Output
output_at v = find (λ o. o.node_id == v)

abbrev pub fires_with : Route → Option FlowNode → Option Output → Bool
fires_with r none _ = false
fires_with r (some n) none = false
fires_with r (some n) (some o) = not (is_skipped o.status) && route_matches r n o

-- An edge is followed: its source was executed, and the edge's route matches the output.
abbrev pub fires : FlowDefinition → List Output → FlowEdge → Bool
fires d outs e = fires_with e.route (node_at e.source d.nodes) (output_at e.source outs)

pub node_at-id : (v : ℕ) (ns : List FlowNode) (n : FlowNode) → node_at v ns ≡ some n → n.id ≡ v
unfolding node_at
node_at-id v [] n h = cc
node_at-id v (m ∷ ns) n h = elim (Option-cases (node_at v ns)) [
  | inl e ↦ ground arith
  | inr (k, e) ↦ let ih = node_at-id v ns k e in ground arith
]

pub node_at-some :
    (v : ℕ) (ns : List FlowNode)
    → elem v (map (λ (n : FlowNode). n.id) ns) ≡ true
    → (n : FlowNode) × (node_at v ns ≡ some n)
unfolding node_at
node_at-some v [] h = cc
node_at-some v (m ∷ ns) h = elim (Option-cases (node_at v ns)) [
  | inr (k, e) ↦ (k, rw e refl)
  | inl e ↦ elim (Bool-cases (v == m.id)) [
    | inl same ↦ (m, ground arith)
    | inr other ↦ let (k, f) = node_at-some v ns (ground arith) in (k, cc)
  ]
]

pub any-active :
    (active : List ℕ) (f : FlowEdge → Bool) (v : ℕ) (es : List FlowEdge)
    → All (λ (e : FlowEdge). elem e.id active ≡ f e) es
    → any (λ (e : FlowEdge). elem e.id active) (incoming v es) ≡ any f (incoming v es)
any-active active f v [] h = refl
any-active active f v (e ∷ es) h =
    let rest = any-active active f v es h.1 in
    elim (Bool-cases (e.target == v)) [
      | inl hit ↦ rw (hit, h.0, rest) refl
      | inr miss ↦ rw miss rest
    ]

pub fires-stable :
    (d : FlowDefinition) (o : Output) (outs : List Output) (e : FlowEdge)
    → (o.node_id == e.source) ≡ false
    → fires d (o ∷ outs) e ≡ fires d outs e
fires-stable d o outs e h = rw h refl

pub any-stable :
    (d : FlowDefinition) (o : Output) (outs : List Output) (done : List ℕ) (v : ℕ)
    (es : List FlowEdge)
    → elem o.node_id done ≡ false
    → Subset (sources_of v es) done
    → any (fires d (o ∷ outs)) (incoming v es) ≡ any (fires d outs) (incoming v es)
any-stable d o outs done v [] new behind = refl
any-stable d o outs done v (e ∷ es) new behind =
    let rest =
      any-stable d o outs done v es new
        (λ a m. behind a (ground (arith, elem-sources_of a v e es))) in
    elim (Bool-cases (e.target == v)) [
      | inr miss ↦ rw miss rest
      | inl hit ↦
          let there : elem e.source done ≡ true =
            behind e.source (ground (arith, elem-sources_of e.source v e es)) in
          let stable = fires-stable d o outs e (other o.node_id e.source done new there) in
          rw (hit, stable, rest) refl
    ]
  where
    other : (a b : ℕ) (xs : List ℕ) → elem a xs ≡ false → elem b xs ≡ true → (a == b) ≡ false
    other a b [] h m = cc
    other a b (x ∷ xs) h m = ground (arith, other a b xs)

other_ids :
    (a : ℕ) (es : List FlowEdge) (p : FlowEdge → Bool)
    → elem a (map (λ (e : FlowEdge). e.id) es) ≡ false
    → elem a (map (λ (e : FlowEdge). e.id) (select p es)) ≡ false
other_ids a [] p h = refl
other_ids a (e ∷ es) p h = elim (Bool-cases (p e)) [
  | inl kept ↦ rw kept (ground (arith, other_ids a es p))
  | inr dropped ↦ rw dropped (other_ids a es p (ground arith))
]

others_differ :
    (a : ℕ) (es : List FlowEdge)
    → elem a (map (λ (e : FlowEdge). e.id) es) ≡ false
    → All (λ (x : FlowEdge). (x.id == a) ≡ false) es
others_differ a [] h = tt
others_differ a (e ∷ es) h = (ground arith, others_differ a es (ground arith))

-- An edge is among those selected exactly if it passes the test, for distinct ids.
pub selected_ids :
    (p : FlowEdge → Bool) (es : List FlowEdge)
    → Distinct (map (λ (e : FlowEdge). e.id) es)
    → All (λ (e : FlowEdge). elem e.id (map (λ (e : FlowEdge). e.id) (select p es)) ≡ p e) es
selected_ids p [] h = tt
selected_ids p (e ∷ es) h =
    let rest = selected_ids p es h.1 in
    let differ = others_differ e.id es h.0 in
    elim (Bool-cases (p e)) [
      | inl kept ↦
          (rw kept (ground arith), All-map2 (λ x n k. rw kept (ground arith)) es differ rest)
      | inr dropped ↦
          (rw dropped (other_ids e.id es p h.0), All-map2 (λ x n k. rw dropped k) es differ rest)
    ]

fires-none :
    (d : FlowDefinition) (outs : List Output) (e : FlowEdge)
    → output_at e.source outs ≡ none
    → fires d outs e ≡ false
fires-none d outs e h = rw h (without e.route (node_at e.source d.nodes))
  where
    without : (r : Route) (n : Option FlowNode) → fires_with r n none ≡ false
    without r none = refl
    without r (some n) = refl

fires-first :
    (d : FlowDefinition) (n : FlowNode) (o : Output) (outs : List Output) (e : FlowEdge)
    → node_at e.source d.nodes ≡ some n
    → (o.node_id == e.source) ≡ true
    → is_skipped o.status ≡ false
    → fires d (o ∷ outs) e ≡ route_matches e.route n o
fires-first d n o outs e at_n named done = rw (at_n, named) (rw done refl)

followed :
    {whole p q : Bool} (a b m : Bool) {f : Bool}
    → whole ≡ (a || b)
    → a ≡ (p && m)
    → b ≡ q
    → q ≡ false
    → p ≡ true
    → f ≡ m
    → whole ≡ f
followed a b m h1 h2 h3 h4 h5 h6 = ground arith

passed_by :
    {whole p q : Bool} (a b m : Bool) {f : Bool}
    → whole ≡ (a || b)
    → a ≡ (p && m)
    → b ≡ q
    → p ≡ false
    → f ≡ q
    → whole ≡ f
passed_by a b m h1 h2 h3 h4 h5 = ground arith

-- The edges that are active after a node was executed.
pub activity-next :
    (d : FlowDefinition) (n : FlowNode) (o : Output) (active : List ℕ) (outs : List Output)
    → Distinct (map (λ (e : FlowEdge). e.id) d.edges)
    → node_at n.id d.nodes ≡ some n
    → o.node_id ≡ n.id
    → is_skipped o.status ≡ false
    → output_at n.id outs ≡ none
    → All (λ (e : FlowEdge). elem e.id active ≡ fires d outs e) d.edges
    → All
        (λ (e : FlowEdge).
          elem e.id (map (λ (e : FlowEdge). e.id) (activated n o d.edges) ++ active)
          ≡ fires d (o ∷ outs) e)
        d.edges
activity-next d n o active outs ids at_n named done fresh old =
    All-map2 (λ e new before. one e new before) d.edges
      (selected_ids (λ e. e.source == n.id && route_matches e.route n o) d.edges ids) old
  where
    new_ids : List ℕ
    new_ids = map (λ (e : FlowEdge). e.id) (activated n o d.edges)

    one :
        (e : FlowEdge)
        → elem e.id new_ids ≡ (e.source == n.id && route_matches e.route n o)
        → elem e.id active ≡ fires d outs e
        → elem e.id (new_ids ++ active) ≡ fires d (o ∷ outs) e
    one e new before =
        let both = elem-append e.id new_ids active in
        elim (Bool-cases (e.source == n.id)) [
          | inl same ↦
              let q : e.source ≡ n.id = ground arith in
              let first =
                fires-first d n o outs e (ap (λ v. node_at v d.nodes) q ∙ at_n) (ground arith)
                  done in
              let none_yet = fires-none d outs e (ap (λ v. output_at v outs) q ∙ fresh) in
              followed _ _ _ both new before none_yet same first
          | inr other ↦
              let stable = fires-stable d o outs e (ground arith) in
              passed_by _ _ _ both new before other stable
        ]

-- And after a node was skipped.
pub activity-skip :
    (d : FlowDefinition) (n : FlowNode) (o : Output) (active : List ℕ) (outs : List Output)
    → o.node_id ≡ n.id
    → is_skipped o.status ≡ true
    → output_at n.id outs ≡ none
    → All (λ (e : FlowEdge). elem e.id active ≡ fires d outs e) d.edges
    → All (λ (e : FlowEdge). elem e.id active ≡ fires d (o ∷ outs) e) d.edges
activity-skip d n o active outs named left_out fresh old =
    All-map2 (λ e before k. before ∙ sym (one e)) d.edges old old
  where
    silent : (r : Route) (n : Option FlowNode) → fires_with r n (some o) ≡ false
    silent r none = refl
    silent r (some n) = rw left_out refl

    one : (e : FlowEdge) → fires d (o ∷ outs) e ≡ fires d outs e
    one e = elim (Bool-cases (o.node_id == e.source)) [
      | inr other ↦ fires-stable d o outs e other
      | inl same ↦
          let q : e.source ≡ n.id = ground arith in
          let before = fires-none d outs e (ap (λ v. output_at v outs) q ∙ fresh) in
          rw same (silent e.route (node_at e.source d.nodes)) ∙ sym before
    ]
