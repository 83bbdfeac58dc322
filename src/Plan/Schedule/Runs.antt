-- ===== src/Plan/Schedule/Runs.antt =====
-- The runs that scheduling adds (`run_due_plans` of app/services/test_plan_service.py).
use test_platform_backend.Prelude.{
  ℕ, ◌≡◌, refl, sym, ap, ◌∙◌, Bool, true, false, none, some, List, [], ◌∷◌, find, is_some, All,
  find_cases, Bool-cases, Option-cases, inl, inr, ◌⊎◌, arith,
}
use test_platform_backend.Session.{ok, Result-split}
use test_platform_backend.Plan.{TestPlan, TestPlanRun, has_key, schedule, pending}
use test_platform_backend.Plan.Create.Once.{UniqueKeys}
use test_platform_backend.Plan.Schedule.{
  is_due, time_or, Surroundings, key_of, scheduled_run, add_scheduled, schedule_environments,
}
use mathlib.Core.Path.{subst}

-- A run that the schedule makes for a plan, an environment and a time.
pub record IsScheduled (plan environment time : ℕ) (r : TestPlanRun) : Type 0 where
  pub of_plan : r.plan_id ≡ some plan
  pub on_environment : r.environment_id ≡ environment
  pub at_time : r.scheduled_at ≡ some time
  pub by_schedule : r.trigger ≡ schedule
  pub waits : r.status ≡ pending

-- Different plans, environments or times have different keys.
abbrev pub IsKeyed : Surroundings → Type 0
IsKeyed w =
    (plan environment time plan' environment' time' : ℕ)
    → w.key plan environment time ≡ w.key plan' environment' time'
    → (plan ≡ plan') × (environment ≡ environment') × (time ≡ time')

-- Runs were added, and only under new keys; one under a key of the schedule is for the plan, the
-- environment and the time of that key.
pub record Grown (w : Surroundings) (before after : List TestPlanRun) : Type 0 where
  pub kept :
      (project key : ℕ) (r : TestPlanRun)
      → find (has_key project key) before ≡ some r
      → find (has_key project key) after ≡ some r
  pub unique : UniqueKeys before → UniqueKeys after
  pub made :
      (project plan environment time : ℕ) (r : TestPlanRun)
      → find (has_key project (w.key plan environment time)) after ≡ some r
      → (find (has_key project (w.key plan environment time)) before ≡ some r)
        ⊎ IsScheduled plan environment time r

module _ {w : Surroundings} where
  pub same : (rs : List TestPlanRun) → Grown w rs rs
  same rs = record {
    kept = λ project key r e. e;
    unique = λ u. u;
    made = λ project plan environment time r e. inl e;
  }

  pub then-Grown : (a b c : List TestPlanRun) → Grown w a b → Grown w b c → Grown w a c
  then-Grown a b c g h = record {
    kept = λ project key r e. h.kept project key r (g.kept project key r e);
    unique = λ u. h.unique (g.unique u);
    made = λ project plan environment time r e. elim (h.made project plan environment time r e) [
      | inl old ↦ g.made project plan environment time r old
      | inr new ↦ inr new
    ];
  }

unfound :
    (p : TestPlanRun → Bool) (rs : List TestPlanRun) → find p rs ≡ none → All (λ r. p r ≡ false) rs
unfound p rs e = elim (find_cases p rs) [
  | inl (r, there, _, _) ↦ absurd (ground arith)
  | inr (_, all) ↦ all
]

module _ (w : Surroundings) (now : ℕ) where
  has_own_key :
      (t : TestPlan) (e project key : ℕ)
      → has_key project key (scheduled_run w now t e) ≡ true
      → (t.project_id ≡ project) × (key_of w now t e ≡ key)
  has_own_key t e project key h = (ground arith, ground arith)

  own_key :
      (t : TestPlan) (e : ℕ)
      → has_key t.project_id (key_of w now t e) (scheduled_run w now t e) ≡ true
  own_key t e = ground arith

  abbrev pub Given : TestPlan → List TestPlanRun → ℕ → Type 0
  Given t runs e = is_some (find (has_key t.project_id (key_of w now t e)) runs) ≡ true

  abbrev pub Attended : List TestPlanRun → TestPlan → Type 0
  Attended runs t =
      is_due now t ≡ true → w.has_user t.created_by_id ≡ true → All (Given t runs) t.environment_ids

  module _ (keyed : IsKeyed w) where
    scheduled_run-made :
        (t : TestPlan) (e project plan environment time : ℕ) (r : TestPlanRun)
        → w.key plan environment time ≡ key_of w now t e
        → r ≡ scheduled_run w now t e
        → IsScheduled plan environment time r
    scheduled_run-made t e project plan environment time r k h =
        let (p, q, u) = keyed plan environment time t.id e (time_or t.next_run_at now) k in
        rw h (record {
          of_plan = ap (λ n. some n) (sym p);
          on_environment = sym q;
          at_time = ap (λ n. some n) (sym u);
          by_schedule = refl;
          waits = refl;
        })

    scheduled_run-Grown :
        (t : TestPlan) (e : ℕ) (runs : List TestPlanRun)
        → find (has_key t.project_id (key_of w now t e)) runs ≡ none
        → Grown w runs (scheduled_run w now t e ∷ runs)
    scheduled_run-Grown t e runs absent = record {
      kept = λ project key r there.
          elim (Bool-cases (has_key project key (scheduled_run w now t e))) [
            | inr other ↦ rw other there
            | inl own ↦
                let k = has_own_key t e project key own in
                let missing =
                  ap (λ n. find (has_key n key) runs) (sym k.0)
                  ∙ ap (λ n. find (has_key t.project_id n) runs) (sym k.1)
                  ∙ absent in
                absurd (clash (sym missing ∙ there))
          ];
      made = λ project plan environment time r there.
          elim (Bool-cases
            (has_key project (w.key plan environment time) (scheduled_run w now t e))) [
              | inr other ↦ inl (let k = rw other at there in k)
              | inl own ↦
                  let found = rw own at there in
                  inr (
                    scheduled_run-made t e project plan environment time r
                      (sym (has_own_key t e project (w.key plan environment time) own).1)
                      (ground arith))
            ];
      unique = λ u. (unfound (has_key t.project_id (key_of w now t e)) runs absent, u);
    }
      where
        clash : {r : TestPlanRun} → none ≡ some r → ⊥
        clash e = cc

    pub Given-Grown :
        (t : TestPlan) (a b : List TestPlanRun) (e : ℕ) → Grown w a b → Given t a e → Given t b e
    Given-Grown t a b e g h =
        elim (Option-cases (find (has_key t.project_id (key_of w now t e)) a)) [
          | inl absent ↦ absurd (let k = rw absent at h in ground arith)
          | inr (r, there) ↦ rw (g.kept t.project_id (key_of w now t e) r there) refl
        ]

    add_scheduled-Grown :
        (t : TestPlan) (e : ℕ) (runs runs' : List TestPlanRun)
        → add_scheduled w now t e (find (has_key t.project_id (key_of w now t e)) runs) runs
          ≡ ok runs'
        → Grown w runs runs' × Given t runs' e
    add_scheduled-Grown t e runs runs' h =
        elim (Option-cases (find (has_key t.project_id (key_of w now t e)) runs)) [
          | inr (r, there) ↦
              let k : runs ≡ runs' = (let k = rw there at h in ground arith) in
              (subst (Grown w runs) k (same runs), rw (sym k) (rw there refl))
          | inl absent ↦ elim (Bool-cases (w.has_environment t.project_id e)) [
            | inr gone ↦ absurd (let k = rw (absent, gone) at h in ground arith)
            | inl known ↦
                let k : scheduled_run w now t e ∷ runs ≡ runs' =
                  (let k = rw (absent, known) at h in ground arith) in
                (
                  subst (Grown w runs) k (scheduled_run-Grown t e runs absent),
                  rw (sym k) (rw (own_key t e) refl),
                )
          ]
        ]

    pub schedule_environments-Grown :
        (t : TestPlan) (es : List ℕ) (runs runs' : List TestPlanRun)
        → schedule_environments w now t es runs ≡ ok runs'
        → Grown w runs runs' × All (Given t runs') es
    unfolding schedule_environments
    schedule_environments-Grown t [] runs runs' h =
        let k : runs ≡ runs' = ground arith in (subst (Grown w runs) k (same runs), tt)
    schedule_environments-Grown t (e ∷ es) runs runs' h =
        elim (Result-split
          (add_scheduled w now t e (find (has_key t.project_id (key_of w now t e)) runs) runs)) [
            | inr (x, bad) ↦ absurd (let k = rw bad at h in ground arith)
            | inl (mid, good) ↦
                let a = add_scheduled-Grown t e runs mid good in
                let b = schedule_environments-Grown t es mid runs' (rw good at h) in
                (then-Grown runs mid runs' a.0 b.0, (Given-Grown t mid runs' e b.0 a.1, b.1))
          ]
