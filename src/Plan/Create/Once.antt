-- ===== src/Plan/Create/Once.antt =====
-- A key of `create_plan_run` (app/services/test_plan_service.py) stands for one run.
use test_platform_backend.Prelude.{
  ℕ, ◌≡◌, refl, sym, ap, ◌∙◌, Bool, true, false, Option, none, some, List, [], ◌∷◌, ◌++◌, find,
  elem, same_opt, All, find_cases, Bool-cases, Option-cases, inl, inr, arith,
}
use test_platform_backend.Session.{ok, request, Result-split}
use test_platform_backend.Permission.{User, Access, require_project_permission}
use test_platform_backend.Plan.{TestPlan, TestPlanRun, PlanRows, has_key}
use test_platform_backend.Plan.Create.{
  RunRequest, plan_of, new_run, by_key, hash_agrees, answer, store_run, create_or_answer,
  create_plan_run,
}

-- The constraint on the project and the key.
abbrev pub clashes : Option ℕ → ℕ → TestPlanRun → Bool
clashes none project s = false
clashes (some key) project s = has_key project key s

abbrev pub UniqueKeys : List TestPlanRun → Type 0
UniqueKeys [] = Unit
UniqueKeys (r ∷ rs) = All (λ s. clashes r.idempotency_key r.project_id s ≡ false) rs × UniqueKeys rs

-- What a request with a key gets: a run with that key, made for the same request, which the table
-- keeps as the first of that key.
pub record IsAnswered (project key fingerprint : ℕ) (run : TestPlanRun) (after : PlanRows)
    : Type 0 where
  pub found : find (has_key project key) after.runs ≡ some run
  pub same_request : hash_agrees run.request_hash fingerprint ≡ true
  pub unique : UniqueKeys after.runs

find-All :
    (p : TestPlanRun → Bool) (rs : List TestPlanRun) → find p rs ≡ none → All (λ r. p r ≡ false) rs
find-All p rs e = elim (find_cases p rs) [
  | inl (r, there, _, _) ↦ absurd (ground arith)
  | inr (_, all) ↦ all
]

answer-ok :
    (r run : TestPlanRun) (fingerprint : ℕ)
    → answer r fingerprint ≡ ok run
    → (r ≡ run) × (hash_agrees r.request_hash fingerprint ≡ true)
answer-ok r run fingerprint e = elim (Bool-cases (hash_agrees r.request_hash fingerprint)) [
  | inl same ↦ (let k = rw same at e in ground arith, same)
  | inr other ↦ absurd (let k = rw other at e in ground arith)
]

same_self : (key : ℕ) → same_opt (some key) (some key) ≡ true
same_self key = ground arith

-- Where the key is one that the request has.
module _ (u : User) (access : Access) (has_environment : ℕ → Bool)
    (fingerprint : RunRequest → TestPlan → ℕ) (others : List TestPlanRun) (p : RunRequest)
    (now fresh : ℕ) (d : PlanRows) (before : UniqueKeys d.runs)
    (between : UniqueKeys (others ++ d.runs)) where
  -- The table that the others have left.
  abbrev met : PlanRows
  met = record d { runs = others ++ d.runs }

  store_run-IsAnswered :
      (key : ℕ) (r run : TestPlanRun) (print : ℕ) (found : Option TestPlanRun)
      → r.project_id ≡ p.project_id
      → r.idempotency_key ≡ some key
      → r.request_hash ≡ some print
      → found ≡ find (has_key p.project_id key) (others ++ d.runs)
      → (store_run r print found (record { saved = met; work = met })).0 ≡ ok run
      → IsAnswered p.project_id key print run
          (store_run r print found (record { saved = met; work = met })).1.saved
  store_run-IsAnswered key r run print none project keyed hashed e h =
      let same : r ≡ run = ground arith in
      let first : has_key p.project_id key r ≡ true = rw (project, keyed) (ground arith) in
      record {
        found = rw first (ap some same);
        same_request =
            ap (λ (x : TestPlanRun). hash_agrees x.request_hash print) (sym same)
            ∙ ap (λ h. hash_agrees h print) hashed
            ∙ ground arith;
        unique = (
          rw (keyed, project) (find-All (has_key p.project_id key) (others ++ d.runs) (sym e)),
          between,
        );
      }
  store_run-IsAnswered key r run print (some other) project keyed hashed e h =
      let a = answer-ok other run print h in
      record {
        found = sym e ∙ ap some a.0;
        same_request = ap (λ (x : TestPlanRun). hash_agrees x.request_hash print) (sym a.0) ∙ a.1;
        unique = between;
      }

  create_or_answer-IsAnswered :
      (plan : TestPlan) (key print : ℕ) (run : TestPlanRun) (found : Option TestPlanRun)
      → p.idempotency_key ≡ some key
      → found ≡ find (has_key p.project_id key) d.runs
      → (let s =
            create_or_answer p plan u print others now fresh found
              (record { saved = d; work = d }) in
          s.0 ≡ ok run → IsAnswered p.project_id key print run s.1.saved)
  create_or_answer-IsAnswered plan key print run none keyed e h =
      store_run-IsAnswered key (new_run p plan u print now fresh) run print
        (by_key p.project_id p.idempotency_key (others ++ d.runs)) refl keyed refl
        (ap (λ k. by_key p.project_id k (others ++ d.runs)) keyed) h
  create_or_answer-IsAnswered plan key print run (some r) keyed e h =
      let a = answer-ok r run print h in
      record {
        found = sym e ∙ ap some a.0;
        same_request = ap (λ (x : TestPlanRun). hash_agrees x.request_hash print) (sym a.0) ∙ a.1;
        unique = before;
      }

  -- If the keys of the runs are unique, as are those of the runs that other transactions leave, and
  -- a request with a key is answered by a run, then the table has exactly that run under the key,
  -- made for the same request or without a record of it, whatever runs other transactions
  -- committed in between; the keys of the table stay unique. The plan is the one that the request
  -- names.
  pub create_plan_run-IsAnswered :
      (key : ℕ) (run : TestPlanRun)
      → p.idempotency_key ≡ some key
      → (request (create_plan_run u access has_environment fingerprint others p now fresh) d).0
        ≡ ok run
      → (plan : TestPlan) × (plan_of p d ≡ some plan)
        × IsAnswered p.project_id key
            (fingerprint p plan)
            run
            (request (create_plan_run u access has_environment fingerprint others p now fresh) d).1
  unfolding create_plan_run
  create_plan_run-IsAnswered key run keyed h =
      elim (Result-split (require_project_permission u access "plan:run")) [
        | inr (e, denied) ↦ absurd (let k = rw denied at h in ground arith)
        | inl (a, may) ↦ elim (Option-cases (plan_of p d)) [
          | inl absent ↦ absurd (let k = rw (may, absent) at h in ground arith)
          | inr (plan, there) ↦ elim (Bool-cases (elem p.environment_id plan.environment_ids)) [
            | inr unbound ↦ absurd (let k = rw (may, there, unbound) at h in ground arith)
            | inl bound ↦ elim (Bool-cases (has_environment p.environment_id)) [
              | inr no_more ↦ absurd (let k = rw (may, there, bound, no_more) at h in ground arith)
              | inl known ↦
                  let k = rw (may, there, bound, known) at h in
                  (
                    plan,
                    there,
                    rw (may, there, bound, known)
                        (create_or_answer-IsAnswered plan key (fingerprint p plan) run
                          (by_key p.project_id p.idempotency_key d.runs) keyed
                          (ap (λ k. by_key p.project_id k d.runs) keyed) k),
                  )
            ]
          ]
        ]
      ]
