-- ===== src/Agent/Loop/Budget.antt =====
-- `_apply_budget` and `_decision_quality_risk` of app/services/agent_loop_service.py.
use test_platform_backend.Prelude.{
  ℕ, ◌+◌, ◌-◌, ◌*◌, ◌/◌, ◌≤◌, ◌<◌, max, ◌≡◌, refl, Bool, true, false, not, ◌||◌, List, [], ◌∷◌,
  ◌++◌, ltb, leb, length, take, drop, take-append-drop, length-take, length-drop, if◌then◌else◌,
  Bool-cases, inl, inr, ◌↔◌, arith,
}
use test_platform_backend.Agent.Model.{
  Degradation, undegraded, light, medium, heavy, QualityRisk, low_risk, medium_risk, high_risk,
}

-- The level for an estimate above the budget: the ratio is compared with 1.5 and 2.5.
abbrev pub level_of : ℕ → ℕ → Degradation
level_of estimated budget =
    if ltb (2 * estimated) (3 * max budget 1)
    then light
    else if ltb (2 * estimated) (5 * max budget 1)
    then medium
    else heavy

-- `omit_count`
abbrev pub omit_count : ℕ → Degradation → ℕ
omit_count n undegraded = 0
omit_count n light = max 1 (n / 4)
omit_count n medium = max 1 (n / 2)
omit_count n heavy = max 1 (n - 1)

pub record Budgeted (A : Type 0) : Type 0 where
  pub kept : List A
  pub omitted : List A
  pub degradation : Degradation

module _ {A : Type 0} where
  -- `refs[:-count]` and `refs[-count:]`
  abbrev pub cut : ℕ → List A → Degradation → Budgeted A
  cut count refs level = record {
    kept = take (length refs - count) refs;
    omitted = drop (length refs - count) refs;
    degradation = level;
  }

  -- `_apply_budget`
  unfoldable pub apply_budget : List A → ℕ → ℕ → Budgeted A
  apply_budget refs estimated budget =
      if leb estimated budget
      then record { kept = refs; omitted = []; degradation = undegraded }
      else cut (omit_count (length refs) (level_of estimated budget)) refs
          (level_of estimated budget)

abbrev pub is_heavy : Degradation → Bool
is_heavy heavy = true
is_heavy _ = false

abbrev pub is_medium : Degradation → Bool
is_medium medium = true
is_medium _ = false

-- `_decision_quality_risk`
unfoldable pub decision_quality_risk : Degradation → Bool → QualityRisk
decision_quality_risk level complete =
    if not complete || is_heavy level
    then high_risk
    else if is_medium level
    then medium_risk
    else low_risk

-- What the budget does to the references: their order is kept, the last ones are left out, and
-- how many depends on the level.
pub record IsBudgeted {A : Type 0} (refs : List A) (estimated budget : ℕ) (b : Budgeted A)
    : Type 0 where
  pub whole : b.kept ++ b.omitted ≡ refs
  pub fits : (b.degradation ≡ undegraded) ↔ (estimated ≤ budget)
  pub nothing_omitted : estimated ≤ budget → b.omitted ≡ []
  pub some_omitted : budget < estimated → 1 ≤ length refs → 1 ≤ length b.omitted
  pub light_keeps : b.degradation ≡ light → 3 * length refs ≤ 4 * length b.kept + 4
  pub heavy_keeps : b.degradation ≡ heavy → length b.kept ≤ 1

append-nil : {A : Type 0} (xs : List A) → xs ++ [] ≡ xs
append-nil [] = refl
append-nil (x ∷ xs) = rw (append-nil xs) refl

cut-IsBudgeted :
    {A : Type 0} (refs : List A) (estimated budget : ℕ) (level : Degradation)
    → level_of estimated budget ≡ level
    → budget < estimated
    → IsBudgeted refs estimated budget (cut (omit_count (length refs) level) refs level)
cut-IsBudgeted refs estimated budget undegraded e over = absurd (ground arith)
cut-IsBudgeted refs estimated budget light e over =
    let n = length refs in
    let keep = n - omit_count n light in
    let k = length-take keep refs in
    let o = length-drop keep refs in
    record {
      whole = take-append-drop keep refs;
      fits = (λ h. cc, λ h. absurd (omega arith));
      nothing_omitted = λ h. absurd (omega arith);
      some_omitted = λ h one. ground arith;
      light_keeps = λ h. ground arith;
      heavy_keeps = λ h. cc;
    }
cut-IsBudgeted refs estimated budget medium e over =
    let n = length refs in
    let keep = n - omit_count n medium in
    let k = length-take keep refs in
    let o = length-drop keep refs in
    record {
      whole = take-append-drop keep refs;
      fits = (λ h. cc, λ h. absurd (omega arith));
      nothing_omitted = λ h. absurd (omega arith);
      some_omitted = λ h one. ground arith;
      light_keeps = λ h. cc;
      heavy_keeps = λ h. cc;
    }
cut-IsBudgeted refs estimated budget heavy e over =
    let n = length refs in
    let keep = n - omit_count n heavy in
    let k = length-take keep refs in
    let o = length-drop keep refs in
    record {
      whole = take-append-drop keep refs;
      fits = (λ h. cc, λ h. absurd (omega arith));
      nothing_omitted = λ h. absurd (omega arith);
      some_omitted = λ h one. ground arith;
      light_keeps = λ h. cc;
      heavy_keeps = λ h. ground arith;
    }

-- The references are kept in their order and the last ones left out: none if the estimate fits,
-- and at least one if it does not. A light degradation keeps about three of four, and a heavy one
-- at most one.
pub apply_budget-IsBudgeted :
    {A : Type 0} (refs : List A) (estimated budget : ℕ)
    → IsBudgeted refs estimated budget (apply_budget refs estimated budget)
unfolding apply_budget
apply_budget-IsBudgeted refs estimated budget = elim (Bool-cases (leb estimated budget)) [
  | inl fits ↦ rw fits (record {
    whole = append-nil refs;
    fits = (λ h. ground arith, λ h. refl);
    nothing_omitted = λ h. refl;
    some_omitted = λ h. absurd (ground arith);
    light_keeps = λ h. cc;
    heavy_keeps = λ h. cc;
  })
  | inr over ↦
      rw over (cut-IsBudgeted refs estimated budget (level_of estimated budget) refl (ground arith))
]
