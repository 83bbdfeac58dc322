-- ===== src/Flow/Search/Reach.antt =====
-- What `_reachable` and `_reverse_reachable` return (app/services/visual_flow_service.py).
use test_platform_backend.Prelude.{
  ℕ, zero, suc, ◌+◌, ◌≤◌, ◌≡◌, refl, Bool, true, false, ◌||◌, not, some, List, [], ◌∷◌, ◌==◌,
  length, elem, select, Distinct, Bool-cases, inl, inr, ◌↔◌, arith,
}
use test_platform_backend.Flow.{FlowEdge, targets_of, sources_of}
use test_platform_backend.Flow.Search.{push_all, search, reachable, reverse_reachable}

-- The nodes to which a walk along `next` leads from one of `starts`.
pub data Walk (next : ℕ → List ℕ) (starts : List ℕ) : ℕ → Type 0 where
  at_start : {v : ℕ} → elem v starts ≡ true → Walk next starts v
  step : {u v : ℕ} → Walk next starts u → elem v (next u) ≡ true → Walk next starts v

elem-push_all :
    (vs stack : List ℕ) (v : ℕ) → elem v (push_all vs stack) ≡ (elem v vs || elem v stack)
unfolding push_all
elem-push_all [] stack v = refl
elem-push_all (x ∷ vs) stack v = ground (arith, elem-push_all vs (x ∷ stack) v)

length-push_all : (vs stack : List ℕ) → length (push_all vs stack) ≡ length vs + length stack
unfolding push_all
length-push_all [] stack = omega arith
length-push_all (x ∷ vs) stack = omega (arith, length-push_all vs (x ∷ stack))

module _ (next : ℕ → List ℕ) (starts : List ℕ) where
  -- What holds in each round: the walks that are behind, and those still to make.
  pub record IsSearch (stack seen : List ℕ) : Type 0 where
    pub started : (v : ℕ) → elem v starts ≡ true → (elem v seen || elem v stack) ≡ true
    pub stack_walked : (v : ℕ) → elem v stack ≡ true → Walk next starts v
    pub seen_walked : (v : ℕ) → elem v seen ≡ true → Walk next starts v
    pub closed :
        (u v : ℕ)
        → elem u seen ≡ true
        → elem v (next u) ≡ true
        → (elem v seen || elem v stack) ≡ true
    pub distinct : Distinct seen

  skip-IsSearch :
      (u : ℕ) (stack seen : List ℕ)
      → elem u seen ≡ true
      → IsSearch (u ∷ stack) seen
      → IsSearch stack seen
  skip-IsSearch u stack seen m h = record {
    started = λ v e. other v (h.started v e);
    stack_walked = λ v e. h.stack_walked v (ground arith);
    seen_walked = h.seen_walked;
    closed = λ a v e edge. other v (h.closed a v e edge);
    distinct = h.distinct;
  }
    where
      other :
          (v : ℕ)
          → (elem v seen || elem v (u ∷ stack)) ≡ true
          → (elem v seen || elem v stack) ≡ true
      other v e = elim (Bool-cases (v == u)) [
        | inl same ↦ let q : v ≡ u = ground arith in rw q (ground arith)
        | inr no_match ↦ ground arith
      ]

  visit-IsSearch :
      (u : ℕ) (stack seen : List ℕ)
      → elem u seen ≡ false
      → IsSearch (u ∷ stack) seen
      → IsSearch (push_all (next u) stack) (u ∷ seen)
  visit-IsSearch u stack seen m h = record {
    started = λ v e. ground (arith, h.started v e, elem-push_all (next u) stack v);
    stack_walked = λ v e. elim (Bool-cases (elem v (next u))) [
      | inl edge ↦ step (h.stack_walked u (ground arith)) edge
      | inr none_here ↦ h.stack_walked v (ground (arith, elem-push_all (next u) stack v))
    ];
    seen_walked = λ v e. elim (Bool-cases (v == u)) [
      | inl same ↦ let q : v ≡ u = ground arith in rw q (h.stack_walked u (ground arith))
      | inr older ↦ h.seen_walked v (ground arith)
    ];
    closed = λ a v e edge. elim (Bool-cases (a == u)) [
      | inl same ↦
          let q : a ≡ u = ground arith in
          ground (arith, rw q at edge, elem-push_all (next u) stack v)
      | inr older ↦ ground (arith, h.closed a v (ground arith) edge, elem-push_all (next u) stack v)
    ];
    distinct = (m, h.distinct);
  }

  -- The set found is closed under edges and has only nodes that a walk leads to.
  pub search-Walk :
      (fuel : ℕ) (stack seen found : List ℕ)
      → IsSearch stack seen
      → search next fuel stack seen ≡ some found
      → Distinct found × ((v : ℕ) → (elem v found ≡ true) ↔ Walk next starts v)
  unfolding search
  search-Walk fuel [] seen found h e =
      let q : seen ≡ found = ground arith in
      rw (← q) (h.distinct, λ v. (h.seen_walked v, complete v))
    where
      complete : (v : ℕ) → Walk next starts v → elem v seen ≡ true
      complete v (at_start s) = ground (arith, h.started v s)
      complete v (step {u} w edge) = ground (arith, h.closed u v (complete u w) edge)
  search-Walk zero (u ∷ stack) seen found h e = cc
  search-Walk (suc fuel) (u ∷ stack) seen found h e = elim (Bool-cases (elem u seen)) [
    | inl old ↦ search-Walk fuel stack seen found (skip-IsSearch u stack seen old h) (ground arith)
    | inr new ↦
        search-Walk fuel (push_all (next u) stack) (u ∷ seen) found
          (visit-IsSearch u stack seen new h) (ground arith)
  ]

  -- With a budget that pays for the pushes of each node visited, the fuel suffices.
  search_ends :
      (budget : List ℕ → ℕ)
      → ((u : ℕ) (seen : List ℕ)
          → elem u seen ≡ false
          → budget (u ∷ seen) + length (next u) ≡ budget seen)
      → (fuel : ℕ) (stack seen : List ℕ) → length stack + budget seen ≤ fuel
      → (found : List ℕ) × (search next fuel stack seen ≡ some found)
  unfolding search
  search_ends budget pays fuel [] seen room = (seen, refl)
  search_ends budget pays zero (u ∷ stack) seen room = absurd (omega arith)
  search_ends budget pays (suc fuel) (u ∷ stack) seen room = elim (Bool-cases (elem u seen)) [
    | inl old ↦ rw old (search_ends budget pays fuel stack seen (omega arith))
    | inr new ↦ rw new (
        search_ends budget pays fuel (push_all (next u) stack) (u ∷ seen)
          (omega (arith, pays u seen new, length-push_all (next u) stack)))
  ]

-- The edges of nodes not seen yet, by either end.
abbrev unseen_sources : List FlowEdge → List ℕ → ℕ
unseen_sources es seen = length (select (λ e. not (elem e.source seen)) es)

abbrev unseen_targets : List FlowEdge → List ℕ → ℕ
unseen_targets es seen = length (select (λ e. not (elem e.target seen)) es)

unseen_sources-cons :
    (es : List FlowEdge) (u : ℕ) (seen : List ℕ)
    → elem u seen ≡ false
    → unseen_sources es (u ∷ seen) + length (targets_of u es) ≡ unseen_sources es seen
unseen_sources-cons [] u seen h = refl
unseen_sources-cons (e ∷ es) u seen h =
    let rest = unseen_sources-cons es u seen h in
    elim (Bool-cases (e.source == u)) [
      | inl same ↦ let q : e.source ≡ u = ground arith in rw q (ground arith)
      | inr other ↦ ground arith
    ]

unseen_targets-cons :
    (es : List FlowEdge) (v : ℕ) (seen : List ℕ)
    → elem v seen ≡ false
    → unseen_targets es (v ∷ seen) + length (sources_of v es) ≡ unseen_targets es seen
unseen_targets-cons [] v seen h = refl
unseen_targets-cons (e ∷ es) v seen h =
    let rest = unseen_targets-cons es v seen h in
    elim (Bool-cases (e.target == v)) [
      | inl same ↦ let q : e.target ≡ v = ground arith in rw q (ground arith)
      | inr other ↦ ground arith
    ]

length-select : (p : FlowEdge → Bool) (es : List FlowEdge) → length (select p es) ≤ length es
length-select p [] = omega arith
length-select p (e ∷ es) = ground (arith, length-select p es)

first-IsSearch :
    (next : ℕ → List ℕ) (starts stack : List ℕ)
    → ((v : ℕ) → elem v stack ≡ elem v starts)
    → IsSearch next starts stack []
first-IsSearch next starts stack same = record {
  started = λ v e. ground (arith, same v);
  stack_walked = λ v e. at_start (ground (arith, same v));
  seen_walked = λ v e. cc;
  closed = λ u v e edge. cc;
  distinct = tt;
}

-- The search from a node ends, and finds each node once that a walk along the edges leads to, and
-- no other.
pub reachable-Walk :
    (start : ℕ) (es : List FlowEdge)
    → (found : List ℕ) × (reachable start es ≡ some found)
      × Distinct found
      × ((v : ℕ) → (elem v found ≡ true) ↔ Walk (λ u. targets_of u es) (start ∷ []) v)
unfolding reachable
reachable-Walk start es =
    let next = λ (u : ℕ). targets_of u es in
    let (found, e) =
      search_ends next (start ∷ []) (unseen_sources es) (unseen_sources-cons es) (length es + 1)
        (start ∷ []) [] (omega (arith, length-select (λ e. not (elem e.source [])) es)) in
    let (d, both) =
      search-Walk next (start ∷ []) (length es + 1) (start ∷ []) [] found
        (first-IsSearch next (start ∷ []) (start ∷ []) (λ v. refl)) e in
    (found, e, d, both)

-- The search backwards from the end nodes ends, and finds each node once from which a walk along
-- the edges leads to one of them, and no other.
pub reverse_reachable-Walk :
    (ends : List ℕ) (es : List FlowEdge)
    → (found : List ℕ) × (reverse_reachable ends es ≡ some found)
      × Distinct found
      × ((v : ℕ) → (elem v found ≡ true) ↔ Walk (λ v. sources_of v es) ends v)
unfolding reverse_reachable
reverse_reachable-Walk ends es =
    let next = λ (v : ℕ). sources_of v es in
    let size = length-push_all ends [] in
    let (found, e) =
      search_ends next ends (unseen_targets es) (unseen_targets-cons es) (length es + length ends)
        (push_all ends []) [] (omega (arith, length-select (λ e. not (elem e.target [])) es)) in
    let (d, both) =
      search-Walk next ends (length es + length ends) (push_all ends []) [] found
        (first-IsSearch next ends (push_all ends []) (λ v. ground (arith, elem-push_all ends [] v)))
        e in
    (found, e, d, both)
