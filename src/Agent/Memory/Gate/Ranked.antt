-- ===== src/Agent/Memory/Gate/Ranked.antt =====
-- The order of the memories that `retrieve` returns (app/services/agent_memory_service.py).
use test_platform_backend.Prelude.{
  ℕ, ◌+◌, ◌≤◌, ◌≡◌, sym, ap, ◌∙◌, ◌⊎◌, inl, inr, String, Bool, true, ◌&&◌, Option, none, some, List,
  [], ◌∷◌, ◌++◌, map, select, find, take, drop, length, length-take, length-append, length-map,
  take-append-drop, ◌==◌, All, All-map, Has, All-Has, All-of_Has, Has-append_left, Has-append_right,
  Has-split, Has-select, Has-of_select, Bool-cases, Option-cases, arith,
}
use test_platform_backend.Session.{
  Result, ok, err, http, HttpException, unprocessable, memory_retrieval_profile_missing, request,
  Result-split,
}
use test_platform_backend.Permission.{User, Access, require_project_access}
use test_platform_backend.Agent.Memory.{
  Floats, IsOrdered, ProjectMemory, SourceProfile, RetrievalProfile,
}
use test_platform_backend.Agent.Memory.Rows.{
  MemoryRows, ensure_source_profiles, ensure_retrieval_profiles, get_retrieval_profile,
}
use test_platform_backend.Agent.Memory.Gate.{
  hard_gate_filter_reason, passes, insert_candidate, by_score, used, selected, retrieve,
}
use mathlib.Core.Path.{subst}
use text.Mathlib.Text.{◌==◌ as str_eq}
use test_platform_backend.Agent.Memory.Gate.Safe.{IsUsable, hard_gate_filter_reason-IsUsable}

module _ {F : Type 0} (fl : Floats F) where
  module _ (ordered : IsOrdered fl) (score : ProjectMemory F → F) where
    abbrev AtMost : ProjectMemory F → ProjectMemory F → Type 0
    AtMost c m = fl.leb (score c) (score m) ≡ true

    abbrev Descending : List (ProjectMemory F) → Type 0
    Descending [] = Unit
    Descending (m ∷ ms) = All (λ c. AtMost c m) ms × Descending ms

    All-insert_candidate :
        (P : ProjectMemory F → Type 0) (m : ProjectMemory F) (ms : List (ProjectMemory F))
        → P m
        → All P ms
        → All P (insert_candidate fl score m ms)
    unfolding insert_candidate
    All-insert_candidate P m [] p ps = (p, tt)
    All-insert_candidate P m (c ∷ cs) p ps = elim (Bool-cases (fl.leb (score c) (score m))) [
      | inl above ↦ rw above (p, ps)
      | inr below ↦ rw below (ps.0, All-insert_candidate P m cs p ps.1)
    ]

    All-by_score :
        (P : ProjectMemory F → Type 0) (ms : List (ProjectMemory F))
        → All P ms
        → All P (by_score fl score ms)
    unfolding by_score
    All-by_score P [] ps = tt
    All-by_score P (m ∷ ms) ps =
        All-insert_candidate P m (by_score fl score ms) ps.0 (All-by_score P ms ps.1)

    Has-insert_candidate :
        (a m : ProjectMemory F) (ms : List (ProjectMemory F))
        → (a ≡ m) ⊎ Has a ms
        → Has a (insert_candidate fl score m ms)
    unfolding insert_candidate
    Has-insert_candidate a m [] h = h
    Has-insert_candidate a m (c ∷ cs) h = elim (Bool-cases (fl.leb (score c) (score m))) [
      | inl above ↦ rw above h
      | inr below ↦ rw below (elim h [
        | inl e ↦ inr (Has-insert_candidate a m cs (inl e))
        | inr k ↦ elim k [ inl e ↦ inl e | inr l ↦ inr (Has-insert_candidate a m cs (inr l)) ]
      ])
    ]

    Has-by_score :
        (a : ProjectMemory F) (ms : List (ProjectMemory F))
        → Has a ms
        → Has a (by_score fl score ms)
    unfolding by_score
    Has-by_score a [] h = h
    Has-by_score a (m ∷ ms) (inl e) = Has-insert_candidate a m (by_score fl score ms) (inl e)
    Has-by_score a (m ∷ ms) (inr h) =
        Has-insert_candidate a m (by_score fl score ms) (inr (Has-by_score a ms h))

    Descending-insert_candidate :
        (m : ProjectMemory F) (ms : List (ProjectMemory F))
        → Descending ms
        → Descending (insert_candidate fl score m ms)
    unfolding insert_candidate
    Descending-insert_candidate m [] h = (tt, tt)
    Descending-insert_candidate m (c ∷ cs) h = elim (Bool-cases (fl.leb (score c) (score m))) [
      | inl above ↦ rw above (
        (above, All-map (λ x k. ordered.transitive (score x) (score c) (score m) k above) cs h.0),
        h,
      )
      | inr below ↦ rw below (
        All-insert_candidate (λ x. AtMost x c) m cs (ordered.total (score c) (score m) below) h.0,
        Descending-insert_candidate m cs h.1,
      )
    ]

    by_score-Descending : (ms : List (ProjectMemory F)) → Descending (by_score fl score ms)
    unfolding by_score
    by_score-Descending [] = tt
    by_score-Descending (m ∷ ms) =
        Descending-insert_candidate m (by_score fl score ms) (by_score-Descending ms)

    AtMost-All :
        (xs ys : List (ProjectMemory F)) (y : ProjectMemory F)
        → Descending (xs ++ ys)
        → Has y ys
        → All (λ c. AtMost y c) xs
    AtMost-All [] ys y h there = tt
    AtMost-All (x ∷ xs) ys y h there = (
      All-Has (λ c. AtMost c x) y (xs ++ ys) h.0 (Has-append_right y xs ys there),
      AtMost-All xs ys y h.1 there,
    )

    module _ (now : ℕ) (profiles : List (SourceProfile F)) (p : RetrievalProfile F)
        (high_risk : Bool) (limit : ℕ) where
      abbrev pub gate : ProjectMemory F → Bool
      gate m = passes fl (hard_gate_filter_reason fl now profiles m p high_risk)

      -- The best of the memories that may be used.
      pub record IsBest (ms chosen : List (ProjectMemory F)) : Type 0 where
        pub short : length chosen ≤ limit
        pub usable : All (λ m. Has m ms × IsUsable fl now profiles p high_risk m) chosen
        pub best : All (λ m. gate m ≡ true → Has m chosen ⊎ All (λ c. AtMost m c) chosen) ms

      selected-IsBest :
          (ms : List (ProjectMemory F))
          → IsBest ms (selected fl score now profiles p high_risk limit ms)
      unfolding selected
      selected-IsBest ms =
          let allowed = select gate ms in
          let ranked = by_score fl score allowed in
          let whole = take-append-drop limit ranked in
          let within : (m : ProjectMemory F) → Has m ranked → Has m allowed = λ m h.
            All-Has (λ m. Has m allowed) m ranked
              (All-by_score (λ m. Has m allowed) allowed
                (All-of_Has (λ m. Has m allowed) allowed (λ m h. h)))
              h in
          record {
            short = (let e = length-take limit ranked in omega arith);
            usable = All-of_Has _ (take limit ranked) (λ m h.
                (let there : Has m ranked =
                    subst (Has m) whole
                      (Has-append_left m (take limit ranked) (drop limit ranked) h) in
                  let k = Has-of_select m gate ms (within m there) in
                  (k.0, hard_gate_filter_reason-IsUsable fl now profiles m p high_risk k.1)));
            best = All-of_Has _ ms (λ m h pass.
                (let there : Has m (take limit ranked ++ drop limit ranked) =
                    subst (Has m) (sym whole)
                      (Has-by_score m allowed (Has-select m gate ms h pass)) in
                  elim (Has-split m (take limit ranked) (drop limit ranked) there) [
                    | inl kept ↦ inl kept
                    | inr cut ↦ inr (
                        AtMost-All (take limit ranked) (drop limit ranked) m
                          (subst Descending (sym whole) (by_score-Descending allowed)) cut)
                  ]));
          }

module _ {F : Type 0} (fl : Floats F) (score : ProjectMemory F → F) where
  abbrev pub profile_named : MemoryRows F → String → Option (RetrievalProfile F)
  profile_named d name =
      find (λ (p : RetrievalProfile F). str_eq p.profile_name name && p.is_active)
        (ensure_retrieval_profiles fl d).retrieval_profiles

  abbrev pub of_project : ℕ → MemoryRows F → List (ProjectMemory F)
  of_project project d = select (λ (m : ProjectMemory F). m.project_id == project) d.memories

  -- How a retrieval ends.
  pub data RetrieveEnd (ordered : IsOrdered fl) (now : ℕ) (u : User) (access : Access) (project : ℕ)
      (name : String) (high_risk : Bool) (limit : ℕ) (before : MemoryRows F)
      : Result (List (ProjectMemory F)) × MemoryRows F → Type 0 where
    denied :
        (e : HttpException)
        → require_project_access u access ≡ err e
        → RetrieveEnd ordered now u access project name high_risk limit before (err e, before)
    no_profile :
        profile_named before name ≡ none
        → RetrieveEnd ordered now u access project name high_risk limit before
            (err (http unprocessable (some memory_retrieval_profile_missing)), before)
    answered :
        (p : RetrievalProfile F)
        → profile_named before name ≡ some p
        → (chosen : List (ProjectMemory F)) (after : MemoryRows F)
        → IsBest fl ordered score now
            (ensure_source_profiles fl before).source_profiles
            p
            high_risk
            limit
            (of_project project before)
            chosen
        → length after.usages ≡ length chosen + length before.usages
        → RetrieveEnd ordered now u access project name high_risk limit before (ok chosen, after)

  -- A retrieval is refused without access to the project or if the profile is missing, and then
  -- changes nothing. Otherwise it returns at most as many memories as were asked for, all of the
  -- project. Each may be retrieved, has not expired and meets the profile's bounds; for a task of
  -- high risk the profile and the memory's source allow that, and it is not an agent's. A memory of
  -- the project that passes the same gate and is not returned scores no more than any that is. One
  -- usage event is added for each.
  pub retrieve-RetrieveEnd :
      (ordered : IsOrdered fl) (now : ℕ) (u : User) (access : Access) (project : ℕ) (name : String)
      (high_risk : Bool) (role : String) (fresh : ℕ → ℕ) (limit : ℕ) (d : MemoryRows F)
      → RetrieveEnd ordered now u access project name high_risk limit d
          (request (retrieve fl score now u access project name high_risk role fresh limit) d)
  unfolding retrieve get_retrieval_profile ensure_retrieval_profiles ensure_source_profiles
  retrieve-RetrieveEnd ordered now u access project name high_risk role fresh limit d =
      elim (Result-split (require_project_access u access)) [
        | inr (e, refused) ↦ rw refused (denied e refused)
        | inl (a, may) ↦ elim (Option-cases (profile_named d name)) [
          | inl absent ↦ rw (may, absent) (no_profile absent)
          | inr (p, there) ↦
              let profiles = (ensure_source_profiles fl d).source_profiles in
              let chosen =
                selected fl score now profiles p high_risk limit (of_project project d) in
              rw (may, there)
                (answered p there chosen _
                  (selected-IsBest fl ordered score now profiles p high_risk limit
                    (of_project project d))
                  (length-append (map (used fl score role fresh) chosen) d.usages
                    ∙ ap (λ n. n + length d.usages) (length-map (used fl score role fresh) chosen)))
        ]
      ]
