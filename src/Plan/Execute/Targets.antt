-- ===== src/Plan/Execute/Targets.antt =====
-- The targets of a run in turn (app/services/test_plan_service.py).
use test_platform_backend.Prelude.{
  ℕ, suc, ◌+◌, ◌<◌, ◌≡◌, refl, ap, Bool, true, false, not, List, [], ◌∷◌, leb, select, length, ◌↔◌,
  Bool-cases, inl, inr, arith,
}
use test_platform_backend.Plan.{Target, TargetResult}
use test_platform_backend.Plan.Execute.{is_passed, execute_targets, insert_target, in_order}

pub length-insert_target :
    (t : Target) (ts : List Target) → length (insert_target t ts) ≡ suc (length ts)
unfolding insert_target
length-insert_target t [] = refl
length-insert_target t (u ∷ us) = ground (arith, length-insert_target t us)

pub length-in_order : (ts : List Target) → length (in_order ts) ≡ length ts
unfolding in_order
length-in_order [] = refl
length-in_order (t ∷ ts) = omega (arith, length-insert_target t (in_order ts), length-in_order ts)

abbrev pub failures : List TargetResult → ℕ
failures rs = length (select (λ (r : TargetResult). not (is_passed r.status)) rs)

module _ (deadline : ℕ) (clock : ℕ → ℕ) (run : Target → TargetResult) (stop : Bool) where
  -- Each target, the first of which is the one numbered `n`, began in time and passed.
  abbrev pub AllPassed : ℕ → List Target → Type 0
  AllPassed n [] = Unit
  AllPassed n (t ∷ ts) =
      (clock n < deadline) × (is_passed (run t).status ≡ true) × AllPassed (n + 1) ts

  execute_targets-AllPassed :
      (n : ℕ) (ts : List Target)
      → let rs = execute_targets deadline clock run stop n ts in
        failures rs ≡ 0 → length rs ≡ length ts → AllPassed n ts
  unfolding execute_targets
  execute_targets-AllPassed n [] none_failed all_there = tt
  execute_targets-AllPassed n (t ∷ ts) none_failed all_there =
      elim (Bool-cases (leb deadline (clock n))) [
        | inl late ↦ (let k = rw late at all_there in absurd (omega arith))
        | inr in_time ↦ elim (Bool-cases (is_passed (run t).status)) [
          | inl pass ↦
              let f = rw (in_time, pass, pass) at none_failed in
              let l = rw (in_time, pass) at all_there in
              (ground arith, pass, execute_targets-AllPassed (n + 1) ts f (omega arith))
          | inr fail ↦ elim (Bool-cases stop) [
            | inl s ↦ (let f = rw (in_time, fail, s, fail) at none_failed in absurd (omega arith))
            | inr s ↦ (let f = rw (in_time, fail, s, fail) at none_failed in absurd (omega arith))
          ]
        ]
      ]

  AllPassed-results :
      (n : ℕ) (ts : List Target)
      → AllPassed n ts
      → let rs = execute_targets deadline clock run stop n ts in
        (failures rs ≡ 0) × (length rs ≡ length ts)
  unfolding execute_targets
  AllPassed-results n [] h = (refl, refl)
  AllPassed-results n (t ∷ ts) h =
      let rest = AllPassed-results (n + 1) ts h.2 in
      let in_time : leb deadline (clock n) ≡ false = (let k = h.0 in ground arith) in
      rw (in_time, h.1) (rw h.1 rest.0, ap suc rest.1)

  -- No result is a failure and every target has one, exactly if every target began in time and
  -- passed.
  pub execute_targets_iff :
      (n : ℕ) (ts : List Target)
      → let rs = execute_targets deadline clock run stop n ts in
        ((failures rs ≡ 0) × (length rs ≡ length ts)) ↔ AllPassed n ts
  execute_targets_iff n ts = (λ h. execute_targets-AllPassed n ts h.0 h.1, AllPassed-results n ts)
