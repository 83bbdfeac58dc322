-- ===== src/Plan/Schedule/Due.antt =====
-- What the scheduling of `run_due_plans` leaves (app/services/test_plan_service.py).
use test_platform_backend.Prelude.{
  ℕ, ◌<◌, ◌≡◌, refl, sym, ap, ◌∙◌, true, false, Option, some, List, [], ◌∷◌, find, All, All-map,
  Bool-cases, Option-cases, inl, inr, ◌⊎◌, Text, arith,
}
use test_platform_backend.Session.{ok, request, Result-split}
use test_platform_backend.Cron.{Zone, next_cron_time}
use test_platform_backend.Cron.Next.{NextTime, malformed, found, exhausted, next_cron_time-NextTime}
use test_platform_backend.Cron.Occurrences.{IsSteady}
use test_platform_backend.Plan.{TestPlan, TestPlanRun, PlanRows, has_key}
use test_platform_backend.Plan.Schedule.{
  is_due, time_or, Surroundings, key_of, schedule_runs, schedule_plan, schedule_plans,
  schedule_due_plans,
}
use mathlib.Core.Path.{subst}
use test_platform_backend.Plan.Schedule.Runs.{
  IsScheduled, IsKeyed, Grown, same, then-Grown, Attended, Given-Grown, schedule_environments-Grown,
}

NextTime-after :
    (z : Zone)
    → IsSteady z
    → (e : Text) (after t : ℕ) (o : Option ℕ) → NextTime z e after o
    → o ≡ some t
    → after < t
NextTime-after z steady e after t _ (malformed _) h = absurd (ground arith)
NextTime-after z steady e after t _ (found s _ w first) h =
    let from = first.from in
    let later = (steady.adjoint after w).0 (omega arith) in
    let same : z.utc w ≡ t = ground arith in omega arith
NextTime-after z steady e after t _ (exhausted s _ _) h = absurd (ground arith)

module _ (w : Surroundings) (now : ℕ) where
  -- A plan that was due has a run for each of its environments: the run under its key is the one
  -- that was there before, or is for the plan, the environment and the time that it was due at.
  abbrev pub Served : List TestPlanRun → List TestPlanRun → TestPlan → Type 0
  Served before after t =
      is_due now t ≡ true
      → w.has_user t.created_by_id ≡ true
      → All
          (λ e.
            let at_key = has_key t.project_id (w.key t.id e (time_or t.next_run_at now)) in
            (r : TestPlanRun) × (find at_key after ≡ some r)
            × ((find at_key before ≡ some r) ⊎ IsScheduled t.id e (time_or t.next_run_at now) r))
          t.environment_ids

module _ (w : Surroundings) (now : ℕ) (keyed : IsKeyed w)
    (steady : (t : TestPlan) → IsSteady (w.zone t)) where
  schedule_runs-Grown :
      (t : TestPlan) (runs runs' : List TestPlanRun)
      → schedule_runs w now t runs ≡ ok runs'
      → Grown w runs runs' × Attended w now runs' t
  unfolding schedule_runs
  schedule_runs-Grown t runs runs' h = elim (Bool-cases (w.has_user t.created_by_id)) [
    | inr gone ↦
        let k : runs ≡ runs' = (let k = rw gone at h in ground arith) in
        (subst (Grown w runs) k (same runs), λ _ there. absurd (ground arith))
    | inl there ↦
        let a =
          schedule_environments-Grown w now keyed t t.environment_ids runs runs' (rw there at h) in
        (a.0, λ _ _. a.1)
  ]

  not_due :
      (t : TestPlan) (time : ℕ)
      → now < time
      → is_due now (record t { next_run_at = some time }) ≡ false
  not_due t time later = ground arith

  schedule_plan-Grown :
      (t t' : TestPlan) (runs runs' : List TestPlanRun)
      → schedule_plan w now t runs ≡ ok (t', runs')
      → Grown w runs runs' × Attended w now runs' t × (is_due now t' ≡ false)
  unfolding schedule_plan
  schedule_plan-Grown t t' runs runs' h = elim (Bool-cases (is_due now t)) [
    | inr idle ↦
        let k = rw idle at h in
        let a : t ≡ t' = ground arith in
        let b : runs ≡ runs' = ground arith in
        (
          subst (Grown w runs) b (same runs),
          (λ due. absurd (ground arith)),
          ap (is_due now) (sym a) ∙ idle,
        )
    | inl due ↦ elim (Result-split (schedule_runs w now t runs)) [
      | inr (e, bad) ↦ absurd (let k = rw (due, bad) at h in ground arith)
      | inl (mid, good) ↦ elim (Option-cases (next_cron_time (w.zone t) t.cron_expression now)) [
        | inl never ↦ absurd (let k = rw (due, good, never) at h in ground arith)
        | inr (time, next) ↦
            let k = rw (due, good, next) at h in
            let planned : TestPlan = record t { next_run_at = some time } in
            let a : planned ≡ t' = ground arith in
            let b : mid ≡ runs' = ground arith in
            let facts = schedule_runs-Grown t runs mid good in
            let later =
              NextTime-after (w.zone t) (steady t) t.cron_expression now time
                (next_cron_time (w.zone t) t.cron_expression now)
                (next_cron_time-NextTime (w.zone t) t.cron_expression now) next in
            (
              subst (Grown w runs) b facts.0,
              subst (λ rs. Attended w now rs t) b facts.1,
              ap (is_due now) (sym a) ∙ not_due t time later,
            )
      ]
    ]
  ]

  Attended-Grown :
      (t : TestPlan) (a b : List TestPlanRun)
      → Grown w a b
      → Attended w now a t
      → Attended w now b t
  Attended-Grown t a b g h due there =
      All-map (λ e. Given-Grown w now keyed t a b e g) t.environment_ids (h due there)

  schedule_plans-Grown :
      (ts ts' : List TestPlan) (runs runs' : List TestPlanRun)
      → schedule_plans w now ts runs ≡ ok (ts', runs')
      → Grown w runs runs' × All (Attended w now runs') ts × All (λ t. is_due now t ≡ false) ts'
  unfolding schedule_plans
  schedule_plans-Grown [] ts' runs runs' h =
      let a : ts' ≡ [] = ground arith in
      let b : runs ≡ runs' = ground arith in (subst (Grown w runs) b (same runs), tt, rw a tt)
  schedule_plans-Grown (t ∷ ts) ts' runs runs' h =
      elim (Result-split (schedule_plan w now t runs)) [
        | inr (e, bad) ↦ absurd (let k = rw bad at h in ground arith)
        | inl ((t', mid), good) ↦ elim (Result-split (schedule_plans w now ts mid)) [
          | inr (e, bad) ↦ absurd (let k = rw (good, bad) at h in ground arith)
          | inl ((rest, last), fine) ↦
              let k = rw (good, fine) at h in
              let a : t' ∷ rest ≡ ts' = ground arith in
              let b : last ≡ runs' = ground arith in
              let one = schedule_plan-Grown t t' runs mid good in
              let more = schedule_plans-Grown ts rest mid last fine in
              let all : All (λ t. is_due now t ≡ false) (t' ∷ rest) = (one.2, more.2) in
              let given : All (Attended w now last) (t ∷ ts) =
                (Attended-Grown t mid last more.0 one.1, more.1) in
              (
                subst (Grown w runs) b (then-Grown runs mid last one.0 more.0),
                subst (λ rs. All (Attended w now rs) (t ∷ ts)) b given,
                subst (All (λ t. is_due now t ≡ false)) a all,
              )
        ]
      ]

  idle :
      (ts : List TestPlan) (rs : List TestPlanRun)
      → All (λ t. is_due now t ≡ false) ts
      → schedule_plans w now ts rs ≡ ok (ts, rs)
  unfolding schedule_plans
  idle [] rs h = refl
  idle (t ∷ ts) rs h = rw (h.0, idle ts rs h.1) refl

  Attended-Served :
      (before after : List TestPlanRun) (t : TestPlan)
      → Grown w before after
      → Attended w now after t
      → Served w now before after t
  Attended-Served before after t g h due there =
      All-map
        (λ e given. elim (Option-cases (find (has_key t.project_id (key_of w now t e)) after)) [
          | inl absent ↦ absurd (let k = rw absent at given in ground arith)
          | inr (r, there) ↦
              (r, there, g.made t.project_id t.id e (time_or t.next_run_at now) r there)
        ])
        t.environment_ids (h due there)

  -- In zones whose clock is never set, and where different plans, environments or times have
  -- different keys: if the scheduling goes through, then every plan that was due, and whose
  -- creator still exists, has a run under its key for each of its environments and its time. It
  -- is the run that was there before under that key, or one that waits for that plan, that
  -- environment and that time. No plan is due any more; every key that stood for a run stands
  -- for the same run, and the keys stay unique. A second scheduling at the same moment changes
  -- nothing.
  pub schedule_due_plans_once :
      (d after : PlanRows)
      → request (schedule_due_plans w now) d ≡ (ok tt, after)
      → Grown w d.runs after.runs
        × All (Served w now d.runs after.runs) d.plans
        × All (λ t. is_due now t ≡ false) after.plans
        × (request (schedule_due_plans w now) after ≡ (ok tt, after))
  unfolding schedule_due_plans
  schedule_due_plans_once d after h = elim (Result-split (schedule_plans w now d.plans d.runs)) [
    | inr (e, bad) ↦ absurd (let k = rw bad at h in ground arith)
    | inl ((ts, rs), good) ↦
        let k = rw good at h in
        let rows : PlanRows = record { plans = ts; runs = rs } in
        let a : rows ≡ after = ground arith in
        let facts = schedule_plans-Grown d.plans ts d.runs rs good in
        subst
          (λ (x : PlanRows).
            Grown w d.runs x.runs
            × All (Served w now d.runs x.runs) d.plans
            × All (λ t. is_due now t ≡ false) x.plans
            × (request (schedule_due_plans w now) x ≡ (ok tt, x)))
          a
          (
            facts.0,
            All-map (λ t. Attended-Served d.runs rs t facts.0) d.plans facts.1,
            facts.2,
            rw (idle ts rs facts.2) refl,
          )
  ]
