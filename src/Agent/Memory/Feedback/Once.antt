-- ===== src/Agent/Memory/Feedback/Once.antt =====
-- `process_due` of app/services/agent_memory_service.py deals with each event once.
use test_platform_backend.Prelude.{
  ℕ, zero, suc, ◌+◌, ◌≤◌, ◌≡◌, refl, sym, ap, ◌∙◌, inl, inr, Bool, true, false, not, Option, none,
  some, List, [], ◌∷◌, ◌++◌, map, select, take, elem, length, ◌==◌, update_where, All, All-map, Has,
  All-of_Has, Has-append_left, Has-append_right, Has-select, select_nil_iff, Bool-cases, arith,
}
use test_platform_backend.Permission.{has_code}
use test_platform_backend.Session.{ok, request}
use test_platform_backend.Agent.Memory.{Floats, ProjectMemory}
use test_platform_backend.Agent.Memory.Rows.{processed, UsageEvent, MemoryRows}
use test_platform_backend.Agent.Memory.Manage.{memory_by_id}
use test_platform_backend.Agent.Memory.Workers.{is_rejected}
use test_platform_backend.Agent.Memory.Feedback.{
  counts_as_processed, is_contradiction, is_validation, is_due, oldest_first, outcome_of,
  positive_outcomes, stale_outcomes, contradiction_outcomes, feed, feed_found, process_usage_event,
  process_events, due_events, process_due, Processed,
}
use mathlib.Core.Path.{subst}
use text.Mathlib.Text.{◌==◌ as str_eq}

abbrev event_ids : List UsageEvent → List ℕ
event_ids = map (λ (e : UsageEvent). e.id)

abbrev marked : ℕ → List UsageEvent → List UsageEvent
marked id =
    update_where (λ (e : UsageEvent). e.id == id) (λ e. record e { feedback_state = processed })

-- The events after those with the ids are marked.
abbrev all_marked : List UsageEvent → List UsageEvent → List UsageEvent
all_marked [] us = us
all_marked (e ∷ es) us = all_marked es (marked e.id us)

abbrev Covered : List UsageEvent → List UsageEvent → Type 0
Covered es us = All (λ (x : UsageEvent). is_due x ≡ true → elem x.id (event_ids es) ≡ true) us

marked-Covered :
    (e : UsageEvent) (es us : List UsageEvent) → Covered (e ∷ es) us → Covered es (marked e.id us)
marked-Covered e es [] h = tt
marked-Covered e es (x ∷ us) h = elim (Bool-cases (x.id == e.id)) [
  | inl hit ↦ rw hit ((λ due. absurd (done x due)), marked-Covered e es us h.1)
  | inr miss ↦
      rw miss ((λ due. (let k = h.0 due in let l = rw miss at k in l)), marked-Covered e es us h.1)
]
  where
    done :
        (x : UsageEvent)
        → (let y : UsageEvent = record x { feedback_state = processed } in is_due y) ≡ true
        → ⊥
    done x due = ground arith

all_marked-done :
    (es us : List UsageEvent) → Covered es us → All (λ x. is_due x ≡ false) (all_marked es us)
all_marked-done [] us h = All-map (λ x f. not_due x f) us h
  where
    not_due : (x : UsageEvent) → (is_due x ≡ true → false ≡ true) → is_due x ≡ false
    not_due x f = elim (Bool-cases (is_due x)) [
      | inl due ↦ absurd (let k = f due in cc)
      | inr no_more ↦ no_more
    ]
all_marked-done (e ∷ es) us h = all_marked-done es (marked e.id us) (marked-Covered e es us h)

elem_of_Has : (x : UsageEvent) (es : List UsageEvent) → Has x es → elem x.id (event_ids es) ≡ true
elem_of_Has x [] h = absurd h
elem_of_Has x (e ∷ es) (inl same) = let k = ap (λ (x : UsageEvent). x.id) same in ground arith
elem_of_Has x (e ∷ es) (inr h) = let k = elem_of_Has x es h in ground arith

Has-oldest_first : (x : UsageEvent) (us : List UsageEvent) → Has x us → Has x (oldest_first us)
Has-oldest_first x [] h = h
Has-oldest_first x (u ∷ us) (inl e) = Has-append_right x (oldest_first us) (u ∷ []) (inl e)
Has-oldest_first x (u ∷ us) (inr h) =
    Has-append_left x (oldest_first us) (u ∷ []) (Has-oldest_first x us h)

select-append :
    {A : Type 0} (p : A → Bool) (xs ys : List A)
    → length (select p (xs ++ ys)) ≡ length (select p xs) + length (select p ys)
select-append p [] ys = omega arith
select-append p (x ∷ xs) ys = ground (arith, select-append p xs ys)

length-oldest_first :
    (us : List UsageEvent) → length (select is_due (oldest_first us)) ≡ length (select is_due us)
length-oldest_first [] = refl
length-oldest_first (u ∷ us) =
    let ih = length-oldest_first us in
    let split = select-append is_due (oldest_first us) (u ∷ []) in
    elim (Bool-cases (is_due u)) [
      | inl due ↦ rw due (let s = rw due at split in omega arith)
      | inr no_more ↦ rw no_more (let s = rw no_more at split in omega arith)
    ]

take_all : {A : Type 0} (n : ℕ) (xs : List A) → length xs ≤ n → take n xs ≡ xs
take_all zero [] h = refl
take_all zero (x ∷ xs) h = absurd (omega arith)
take_all (suc n) [] h = refl
take_all (suc n) (x ∷ xs) h = ap (λ ys. x ∷ ys) (take_all n xs (omega arith))

take_none : {A : Type 0} (n : ℕ) (xs : List A) → length xs ≡ 0 → take n xs ≡ []
take_none zero xs h = refl
take_none (suc n) [] h = refl
take_none (suc n) (x ∷ xs) h = absurd (omega arith)

length-partition :
    {A : Type 0} (p : A → Bool) (xs : List A)
    → length (select p xs) + length (select (λ x. not (p x)) xs) ≡ length xs
length-partition p [] = omega arith
length-partition p (x ∷ xs) = ground (arith, length-partition p xs)

module _ {F : Type 0} (fl : Floats F) where
  feed-usages :
      (now : ℕ) (e : UsageEvent) (m : ProjectMemory F) (d : MemoryRows F)
      → (feed fl now e m d).0.usages ≡ d.usages
  feed-usages now e m d = elim (Bool-cases (has_code (outcome_of e) positive_outcomes)) [
    | inl positive ↦ rw positive (elim (Bool-cases (str_eq (outcome_of e) "validated")) [
      | inl same ↦ rw same refl
      | inr other ↦ rw other refl
    ])
    | inr p ↦ elim (Bool-cases (has_code (outcome_of e) stale_outcomes)) [
      | inl s ↦ rw (p, s) refl
      | inr s ↦ elim (Bool-cases (has_code (outcome_of e) contradiction_outcomes)) [
        | inl c ↦ rw (p, s, c) refl
        | inr c ↦ rw (p, s, c) refl
      ]
    ]
  ]

  feed_found-usages :
      (now : ℕ) (e : UsageEvent) (found : Option (ProjectMemory F)) (d : MemoryRows F)
      → (feed_found fl now e found d).0.usages ≡ d.usages
  feed_found-usages now e none d = refl
  feed_found-usages now e (some m) d = elim (Bool-cases (is_rejected m.status)) [
    | inl out ↦ rw out refl
    | inr in_use ↦ rw in_use (feed-usages now e m d)
  ]

  process_events-usages :
      (now : ℕ) (es : List UsageEvent) (d : MemoryRows F)
      → ((process_events fl now es d).0.usages ≡ all_marked es d.usages)
        × (length (process_events fl now es d).1 ≡ length es)
  unfolding process_events process_usage_event
  process_events-usages now [] d = (refl, refl)
  process_events-usages now (e ∷ es) d =
      let rest = process_events-usages now es (process_usage_event fl now e d).0 in
      (
        rest.0
            ∙ ap (λ us. all_marked es (marked e.id us))
                (feed_found-usages now e (memory_by_id e.memory_id d) d),
        ap suc rest.1,
      )

  -- If the limit is not below the number of events that are due, a run of the feedback worker deals
  -- with all of them: it attempts that many, each counts either as processed or as skipped, and
  -- none is due afterwards. Another run then attempts none and leaves the tables as they are.
  pub process_due_once :
      (now later limit more : ℕ) (d : MemoryRows F)
      → length (select is_due d.usages) ≤ limit
      → (out : Processed) × (after : MemoryRows F) × (request (process_due fl now limit) d
          ≡ (ok out, after))
        × (out.attempted ≡ length (select is_due d.usages))
        × (out.processed + out.skipped ≡ out.attempted)
        × All (λ e. is_due e ≡ false) after.usages
        × ((request (process_due fl later more) after).1 ≡ after)
        × (due_events fl more after ≡ [])
  unfolding process_due
  process_due_once now later limit more d enough =
      let due = select is_due (oldest_first d.usages) in
      let all = take_all limit due (let e = length-oldest_first d.usages in omega arith) in
      let run = process_events fl now (due_events fl limit d) d in
      let facts = process_events-usages now (due_events fl limit d) d in
      let done : All (λ e. is_due e ≡ false) run.0.usages =
        subst (λ us. All (λ e. is_due e ≡ false) us) (sym facts.0)
          (all_marked-done (due_events fl limit d) d.usages (
            All-of_Has _ d.usages (λ x h due_now. elem_of_Has x (due_events fl limit d) (
              subst (Has x) (sym all) (
                Has-select x is_due (oldest_first d.usages) (Has-oldest_first x d.usages h)
                  due_now))))) in
      let none_left : due_events fl more run.0 ≡ [] =
        take_none more (select is_due (oldest_first run.0.usages)) (
          length-oldest_first run.0.usages
          ∙ ap length ((select_nil_iff is_due run.0.usages).1 done)) in
      (
        record {
          attempted = length (due_events fl limit d);
          processed = length (select counts_as_processed run.1);
          skipped = length (select (λ x. not (counts_as_processed x)) run.1);
          contradictions_recorded = length (select is_contradiction run.1);
          validations_recorded = length (select is_validation run.1);
        },
        run.0,
        refl,
        ap length all ∙ length-oldest_first d.usages,
        length-partition counts_as_processed run.1 ∙ facts.1,
        done,
        rw none_left refl,
        none_left,
      )
