-- ===== src/Agent/Loop/Context/Built.antt =====
-- How a context is built, and what it means for the guard of the executor
-- (app/services/agent_loop_service.py, app/services/agent_approval_service.py).
use test_platform_backend.Prelude.{
  ℕ, ◌≤◌, ◌<◌, ◌≡◌, refl, Bool, true, false, ◌&&◌, ◌||◌, not, some, List, [], ◌∷◌, ◌++◌, ◌==◌, map,
  select, any, elem, All, All-map, Bool-cases, inl, inr, ◌↔◌, ap, sym, ◌∙◌, arith,
}
use test_platform_backend.Prelude.{elem-append}
use test_platform_backend.Session.{
  Result, ok, err, http, HttpException, unprocessable, memory_bypassed, request, Result-split,
}
use test_platform_backend.Permission.{User, Access, require_project_access}
use test_platform_backend.Agent.Model.{AgentContextBuild, AgentToolCall, EventType, is_high_risk}
use test_platform_backend.Agent.Policy.{ensure_context_allows_execution}
use test_platform_backend.Agent.Policy.Laws.{ensure_context_allows_execution_high_risk}
use test_platform_backend.Agent.Loop.Evidence.{
  EvidenceRef, AgentEvidenceWatch, ids_of, register_watches, watches_for, is_unwatched, new_watch,
}
use test_platform_backend.Agent.Loop.Budget.{apply_budget, apply_budget-IsBudgeted}
use test_platform_backend.Agent.Loop.Context.{
  Rows, BuildRequest, log_loop, log_when, is_degraded, is_empty, max_seq, estimate_tokens,
  unwrapped, ensure_memory_usage_wrapped, new_build, built_rows, build,
}

-- A build that was made: `kept` are the references in its prompt.
pub record IsBuilt (p : BuildRequest) (estimated : ℕ) (before : Rows) (b : AgentContextBuild)
    (after : Rows) : Type 0 where
  pub kept : List EvidenceRef
  pub omitted : List EvidenceRef
  pub kept_cut : kept ≡ (apply_budget p.evidence_refs estimated p.token_budget).kept
  pub omitted_cut : omitted ≡ (apply_budget p.evidence_refs estimated p.token_budget).omitted
  pub whole : kept ++ omitted ≡ p.evidence_refs
  pub named : b.omitted_evidence_refs ≡ ids_of omitted
  pub fits : estimated ≤ p.token_budget → omitted ≡ []
  pub complete :
      (b.required_evidence_complete ≡ true)
      ↔ All (λ id. elem id (ids_of omitted) ≡ false) p.required_evidence_ref_ids
  pub newest :
      All
        (λ (o : AgentContextBuild).
          (o.iteration == b.iteration && o.step_index == b.step_index) ≡ true
          → o.build_seq < b.build_seq)
        before.builds
  pub stored : after.builds ≡ b ∷ before.builds
  pub watched :
      All
        (λ (r : EvidenceRef).
          r.active_for_policy ≡ true → any (watches_for r.evidence_ref_id) after.watches ≡ true)
        p.evidence_refs

-- How the request to build a context ends.
pub data BuildEnd (u : User) (access : Access) (p : BuildRequest) (estimated : ℕ) (before : Rows)
    : Result AgentContextBuild × Rows → Type 0 where
  refused :
      (e : HttpException)
      → require_project_access u access ≡ err e
      → BuildEnd u access p estimated before (err e, before)
  bypassed :
      is_empty (unwrapped p) ≡ false
      → BuildEnd u access p estimated before (
        err (http unprocessable (some memory_bypassed)),
        log_loop EventType.memory_bypassed_evidence_ref before,
      )
  built :
      is_empty (unwrapped p) ≡ true
      → (b : AgentContextBuild) (after : Rows) → IsBuilt p estimated before b after
      → BuildEnd u access p estimated before (ok b, after)

none_of :
    (out ids : List ℕ)
    → (not (any (λ id. elem id out) ids) ≡ true) ↔ All (λ id. elem id out ≡ false) ids
none_of out [] = (λ h. tt, λ h. refl)
none_of out (id ∷ ids) =
    let rest = none_of out ids in
    (
      λ h. (ground arith, rest.0 (ground arith)),
      λ h. let e = rest.1 h.1 in let f = h.0 in ground arith,
    )

max_seq-above :
    (iteration step n : ℕ) (bs : List AgentContextBuild)
    → max_seq iteration step bs ≤ n
    → All
        (λ (o : AgentContextBuild).
          (o.iteration == iteration && o.step_index == step) ≡ true → o.build_seq ≤ n)
        bs
unfolding max_seq
max_seq-above iteration step n [] h = tt
max_seq-above iteration step n (b ∷ bs) h =
    elim (Bool-cases (b.iteration == iteration && b.step_index == step)) [
      | inl same ↦
          let e = rw same at h in
          (λ k. omega arith, max_seq-above iteration step n bs (omega arith))
      | inr other ↦
          let e = rw other at h in
          (λ k. absurd (clash k other), max_seq-above iteration step n bs e)
    ]
  where
    clash : {b : Bool} → b ≡ true → b ≡ false → ⊥
    clash m n = ground arith

any-append :
    {A : Type 0} (p : A → Bool) (xs ys : List A) → any p (xs ++ ys) ≡ (any p xs || any p ys)
any-append p [] ys = refl
any-append p (x ∷ xs) ys = ground (arith, any-append p xs ys)

module _ (ws : List AgentEvidenceWatch) where
  -- The watches that a list of references adds.
  added : List EvidenceRef → List AgentEvidenceWatch
  added rs = map new_watch (select (is_unwatched ws) rs)

  covered : List EvidenceRef → EvidenceRef → Bool
  unfolding added
  covered rs r =
      any (watches_for r.evidence_ref_id) ws || any (watches_for r.evidence_ref_id) (added rs)

  covered-more :
      (x : EvidenceRef) (rs : List EvidenceRef) (r : EvidenceRef)
      → covered rs r ≡ true
      → covered (x ∷ rs) r ≡ true
  unfolding covered
  covered-more x rs r h = elim (Bool-cases (is_unwatched ws x)) [
    | inl new ↦ rw new (ground arith)
    | inr old ↦ rw old h
  ]

  covered-head :
      (x : EvidenceRef) (rs : List EvidenceRef)
      → x.active_for_policy ≡ true
      → covered (x ∷ rs) x ≡ true
  unfolding covered
  covered-head x rs active = elim (Bool-cases (any (watches_for x.evidence_ref_id) ws)) [
    | inl there ↦ rw there refl
    | inr not_there ↦ rw (active, not_there) (ground arith)
  ]

  All-covered :
      (rs : List EvidenceRef)
      → All (λ (r : EvidenceRef). r.active_for_policy ≡ true → covered rs r ≡ true) rs
  All-covered [] = tt
  All-covered (x ∷ rs) = (
    covered-head x rs,
    All-map (λ r h active. covered-more x rs r (h active)) rs (All-covered rs),
  )

  register_watches-covered :
      (refs : List EvidenceRef)
      → All
          (λ (r : EvidenceRef).
            r.active_for_policy ≡ true
            → any (watches_for r.evidence_ref_id) (register_watches ws refs) ≡ true)
          refs
  unfolding register_watches covered
  register_watches-covered refs =
      All-map (λ r h active. any-append (watches_for r.evidence_ref_id) ws (added refs) ∙ h active)
        refs (All-covered refs)

log_when-builds :
    (test : Bool) (kind : EventType) (d : Rows) → (log_when test kind d).builds ≡ d.builds
log_when-builds true kind d = refl
log_when-builds false kind d = refl

build_rows-IsBuilt :
    (p : BuildRequest) (estimated fresh : ℕ) (d : Rows)
    → let b = new_build p (apply_budget p.evidence_refs estimated p.token_budget) fresh d in
      IsBuilt p estimated d b (built_rows p b d)
unfolding new_build built_rows
build_rows-IsBuilt p estimated fresh d =
    let cut = apply_budget p.evidence_refs estimated p.token_budget in
    let h = apply_budget-IsBudgeted p.evidence_refs estimated p.token_budget in
    let n = max_seq d.journal.run.current_iteration p.step_index d.builds in
    let b = new_build p cut fresh d in
    let d₁ : Rows = record d { builds = b ∷ d.builds } in
    record {
      kept = cut.kept;
      omitted = cut.omitted;
      kept_cut = refl;
      omitted_cut = refl;
      whole = h.whole;
      named = refl;
      fits = h.nothing_omitted;
      complete = none_of (ids_of cut.omitted) p.required_evidence_ref_ids;
      newest =
          All-map (λ o f same. (let le = f same in omega arith)) d.builds
            (max_seq-above d.journal.run.current_iteration p.step_index n d.builds (omega arith));
      stored =
          log_when-builds (not b.required_evidence_complete)
            EventType.context_full_evidence_required
            (log_when (not (is_empty b.omitted_evidence_refs)) EventType.context_evidence_omitted
              (log_when (is_degraded b.context_degradation_level) EventType.context_degraded d₁))
          ∙ log_when-builds (not (is_empty b.omitted_evidence_refs))
              EventType.context_evidence_omitted
              (log_when (is_degraded b.context_degradation_level) EventType.context_degraded d₁)
          ∙ log_when-builds (is_degraded b.context_degradation_level) EventType.context_degraded d₁;
      watched = register_watches-covered d.watches p.evidence_refs;
    }

pub build-BuildEnd :
    (u : User) (access : Access) (characters : BuildRequest → ℕ) (p : BuildRequest) (fresh : ℕ)
    (d : Rows)
    → BuildEnd u access p
        (estimate_tokens (characters p))
        d
        (request (build u access characters p fresh) d)
unfolding build ensure_memory_usage_wrapped
build-BuildEnd u access characters p fresh d =
    elim (Result-split (require_project_access u access)) [
      | inr (e, denied) ↦ rw denied (refused e denied)
      | inl (a, may) ↦ rw may (elim (Bool-cases (is_empty (unwrapped p))) [
        | inr bare ↦ rw bare (bypassed bare)
        | inl wrapped ↦ rw wrapped (
            built wrapped
              (new_build p
                (apply_budget p.evidence_refs (estimate_tokens (characters p)) p.token_budget) fresh
                d)
              _ (build_rows-IsBuilt p (estimate_tokens (characters p)) fresh d))
      ])
    ]

omitted_required :
    (out ids : List ℕ) (id : ℕ)
    → All (λ id. elem id out ≡ false) ids
    → elem id ids ≡ true
    → elem id out ≡ false
omitted_required out [] id h there = cc
omitted_required out (i ∷ ids) id h there = elim (Bool-cases (id == i)) [
  | inl same ↦ ground arith
  | inr other ↦ omitted_required out ids id h.1 (ground arith)
]

ids_of-append : (xs ys : List EvidenceRef) → ids_of (xs ++ ys) ≡ ids_of xs ++ ids_of ys
ids_of-append [] ys = refl
ids_of-append (x ∷ xs) ys = rw (ids_of-append xs ys) refl

module _ {u : User} {access : Access} {p : BuildRequest} {estimated : ℕ} {d : Rows} where
  BuildEnd-ok :
      (r : Result AgentContextBuild × Rows) (b : AgentContextBuild) (after : Rows)
      → BuildEnd u access p estimated d r
      → r ≡ (ok b, after)
      → IsBuilt p estimated d b after
  BuildEnd-ok _ b after (refused e denied) h = absurd (ground arith)
  BuildEnd-ok _ b after (bypassed bare) h = absurd (ground arith)
  BuildEnd-ok _ b after (built wrapped b' after' is) h =
      let same : b' ≡ b = ground arith in
      let rows : after' ≡ after = ground arith in rw (sym same, sym rows) is

module _ {p : BuildRequest} {estimated : ℕ} {d : Rows} where
  kept_required :
      {b : AgentContextBuild} {after : Rows} (is : IsBuilt p estimated d b after)
      → b.required_evidence_complete ≡ true
      → (id : ℕ) → elem id p.required_evidence_ref_ids ≡ true
      → elem id (ids_of p.evidence_refs) ≡ true
      → elem id (ids_of is.kept) ≡ true
  kept_required is complete id required given =
      let absent =
        omitted_required (ids_of is.omitted) p.required_evidence_ref_ids id (is.complete.0 complete)
          required in
      let there =
        sym (elem-append id (ids_of is.kept) (ids_of is.omitted))
        ∙ ap (elem id) (sym (ids_of-append is.kept is.omitted))
        ∙ ap (λ rs. elem id (ids_of rs)) is.whole
        ∙ given in
      ground arith

-- If a request built a context, and the guard of the executor lets a high-risk call act on that
-- context, then the stored build names what the budget left out, no required evidence is among that,
-- and each piece that the request both required and gave is among the references that the budget
-- kept.
pub build-ensure_context_allows_execution :
    (u : User) (access : Access) (characters : BuildRequest → ℕ) (p : BuildRequest) (fresh : ℕ)
    (d after : Rows) (b : AgentContextBuild) (c : AgentToolCall)
    → request (build u access characters p fresh) d ≡ (ok b, after)
    → is_high_risk c.side_effect ≡ true
    → ensure_context_allows_execution c (some b) ≡ ok tt
    → let cut = apply_budget p.evidence_refs (estimate_tokens (characters p)) p.token_budget in
      (after.builds ≡ b ∷ d.builds)
      × (b.omitted_evidence_refs ≡ ids_of cut.omitted)
      × ((id : ℕ)
          → elem id p.required_evidence_ref_ids ≡ true
          → (elem id b.omitted_evidence_refs ≡ false)
            × (elem id (ids_of p.evidence_refs) ≡ true → elem id (ids_of cut.kept) ≡ true))
build-ensure_context_allows_execution u access characters p fresh d after b c e risky passed =
    let is =
      BuildEnd-ok (request (build u access characters p fresh) d) b after
        (build-BuildEnd u access characters p fresh d) e in
    let guard = ensure_context_allows_execution_high_risk c (some b) risky passed in
    let same : guard.0 ≡ b = ground arith in
    let complete =
      ap (λ (x : AgentContextBuild). x.required_evidence_complete) (sym same) ∙ guard.3 in
    (
      is.stored,
      is.named ∙ ap ids_of is.omitted_cut,
      λ id required. (
        ap (elem id) is.named
            ∙ omitted_required (ids_of is.omitted) p.required_evidence_ref_ids id
                (is.complete.0 complete) required,
        λ given.
            ap (λ rs. elem id (ids_of rs)) (sym is.kept_cut)
            ∙ kept_required is complete id required given,
      ),
    )
