-- ===== src/Cron/Fields.antt =====
-- The set of a field of a cron expression (app/core/cron.py).
use test_platform_backend.Prelude.{
  ℕ, zero, suc, ◌+◌, ◌-◌, ◌*◌, ◌≤◌, ◌<◌, ◌≡◌, refl, Bool, true, false, ◌&&◌, ◌||◌, Option, none,
  some, List, [], ◌∷◌, ◌++◌, ◌==◌, ltb, leb, elem, elem-append, Text, Bool-cases, inl, inr, ◌⊎◌,
  ◌↔◌, sym, ◌∙◌, arith,
}
use mathlib.Core.Option.{some-injective}
use mathlib.Core.Path.{subst}
use test_platform_backend.Prelude.{is_digits, to_int, split_at}
use test_platform_backend.Cron.{
  Span, parse_step, parse_base, check_span, parse_item, range_from, range_of, add_range,
  parse_items, parse_field, partition,
}

-- One of the numbers `start`, `start + step`, … up to `last`.
pub record InSpan (s : Span) (v : ℕ) : Type 0 where
  pub steps : ℕ
  pub is_step : v ≡ s.start + steps * s.step
  pub within : v ≤ s.last

-- One of the items gives the number.
pub data Covered (minimum maximum v : ℕ) : List Text → Type 0 where
  here :
      {t : Text} {ts : List Text} (s : Span)
      → parse_item minimum maximum t ≡ some s
      → InSpan s v
      → Covered minimum maximum v (t ∷ ts)
  later :
      {t : Text} {ts : List Text}
      → Covered minimum maximum v ts
      → Covered minimum maximum v (t ∷ ts)

range_from-steps :
    (fuel start stop step v : ℕ)
    → elem v (range_from fuel start stop step) ≡ true
    → (k : ℕ) × (v ≡ start + k * step) × (v < stop)
range_from-steps zero start stop step v h = cc
range_from-steps (suc fuel) start stop step v h = elim (Bool-cases (ltb start stop)) [
  | inr out ↦ let e = rw out at h in cc
  | inl inside ↦ elim (Bool-cases (v == start)) [
    | inl same ↦ (0, ground arith, ground arith)
    | inr other ↦
        let (k, e, small) =
          range_from-steps fuel (start + step) stop step v
            (let e = rw inside at h in ground arith) in
        (suc k, ground arith, small)
  ]
]

steps-range_from :
    (fuel start stop step k : ℕ)
    → 1 ≤ step
    → stop ≤ start + fuel
    → start + k * step < stop
    → elem (start + k * step) (range_from fuel start stop step) ≡ true
steps-range_from zero start stop step k big room inside = absurd (ground arith)
steps-range_from (suc fuel) start stop step zero big room inside =
    let here : ltb start stop ≡ true = ground arith in rw here (ground arith)
steps-range_from (suc fuel) start stop step (suc k) big room inside =
    let here : ltb start stop ≡ true = ground arith in
    let e : start + suc k * step ≡ start + step + k * step = ground arith in
    let rest = steps-range_from fuel (start + step) stop step k big (ground arith) (ground arith) in
    rw (e, here) (ground arith)

-- What an item that is accepted says.
record IsSpan (minimum maximum : ℕ) (s : Span) : Type 0 where
  above : minimum ≤ s.start
  ordered : s.start ≤ s.last
  below : s.last ≤ maximum
  moves : 1 ≤ s.step

step-positive : (t : Option Text) (k : ℕ) → parse_step t ≡ some k → 1 ≤ k
unfolding parse_step
step-positive none k h = ground arith
step-positive (some t) k h = elim (Bool-cases (is_digits t && leb 1 (to_int 0 t))) [
  | inl good ↦ let e = rw good at h in ground arith
  | inr bad ↦ let e = rw bad at h in cc
]

checked-IsSpan :
    (minimum maximum : ℕ) (k : Option ℕ) (bounds : Option (ℕ × ℕ)) (s : Span)
    → ((n : ℕ) → k ≡ some n → 1 ≤ n)
    → check_span minimum maximum k bounds ≡ some s
    → IsSpan minimum maximum s
checked-IsSpan minimum maximum none bounds s big h = cc
checked-IsSpan minimum maximum (some k) none s big h = cc
checked-IsSpan minimum maximum (some k) (some (a, b)) s big h =
    let first = big k refl in
    elim (Bool-cases (ltb a minimum || ltb maximum b || ltb b a)) [
      | inl bad ↦ let e = rw bad at h in cc
      | inr good ↦
          let span : Span = record { start = a; last = b; step = k } in
          let e : some span ≡ some s = rw good at h in
          let whole : IsSpan minimum maximum span = record {
            above = ground arith;
            ordered = ground arith;
            below = ground arith;
            moves = first;
          } in
          subst (IsSpan minimum maximum) (some-injective span s e) whole
    ]

parse_item-IsSpan :
    (minimum maximum : ℕ) (t : Text) (s : Span)
    → parse_item minimum maximum t ≡ some s
    → IsSpan minimum maximum s
unfolding parse_item
parse_item-IsSpan minimum maximum t s h =
    let (base, rest) = partition t in
    checked-IsSpan minimum maximum (parse_step rest) (parse_base minimum maximum base) s
      (λ n e. step-positive rest n e) h

range_of-InSpan :
    (minimum maximum : ℕ) (s : Span) (v : ℕ)
    → IsSpan minimum maximum s
    → (elem v (range_of s) ≡ true) ↔ InSpan s v
range_of-InSpan minimum maximum s v h = (forth, back)
  where
    forth : elem v (range_of s) ≡ true → InSpan s v
    forth m =
        let (k, e, small) =
          range_from-steps (s.last + 1 - s.start) s.start (s.last + 1) s.step v m in
        record { steps = k; is_step = e; within = ground arith }

    back : InSpan s v → elem v (range_of s) ≡ true
    back m =
        let inside : s.start + m.steps * s.step < s.last + 1 =
          (let e = m.is_step in let w = m.within in ground arith) in
        let room : s.last + 1 ≤ s.start + (s.last + 1 - s.start) = ground arith in
        rw m.is_step (
          steps-range_from (s.last + 1 - s.start) s.start (s.last + 1) s.step m.steps h.moves room
            inside)

-- The two lists that a field with another item is made of.
add_range-some :
    (s : Option Span) (rest : Option (List ℕ)) (xs : List ℕ)
    → add_range s rest ≡ some xs
    → (a : Span) × (ys : List ℕ) × (s ≡ some a) × (rest ≡ some ys) × (xs ≡ range_of a ++ ys)
add_range-some none rest xs h = cc
add_range-some (some s) none xs h = cc
add_range-some (some s) (some ys) xs h =
    (s, ys, refl, refl, sym (some-injective (range_of s ++ ys) xs h))

InSpan-bounds :
    (minimum maximum : ℕ) (s : Span) (v : ℕ)
    → IsSpan minimum maximum s
    → InSpan s v
    → (minimum ≤ v) × (v ≤ maximum)
InSpan-bounds minimum maximum s v h m =
    let e = m.is_step in
    let w = m.within in
    let a = h.above in
    let b = h.below in
    let low : s.start ≤ s.start + m.steps * s.step = ground arith in (ground arith, ground arith)

uncover :
    (minimum maximum v : ℕ) (t : Text) (ts : List Text) (s : Span)
    → parse_item minimum maximum t ≡ some s
    → Covered minimum maximum v (t ∷ ts)
    → InSpan s v ⊎ Covered minimum maximum v ts
uncover minimum maximum v t ts s e (here r f m) =
    inl (subst (λ s. InSpan s v) (some-injective r s (sym f ∙ e)) m)
uncover minimum maximum v t ts s e (later m) = inr m

not-Covered : (minimum maximum v : ℕ) → Covered minimum maximum v [] → ⊥
not-Covered minimum maximum v m = elim m [ ]

parse_items-Covered :
    (minimum maximum : ℕ) (ts : List Text) (xs : List ℕ) (v : ℕ)
    → parse_items minimum maximum ts ≡ some xs
    → ((elem v xs ≡ true) ↔ Covered minimum maximum v ts)
      × (elem v xs ≡ true → (minimum ≤ v) × (v ≤ maximum))
unfolding parse_items
parse_items-Covered minimum maximum [] xs v h =
    let e : xs ≡ [] = sym (some-injective [] xs h) in
    (
      (λ m. (let f = rw e at m in cc), λ m. absurd (not-Covered minimum maximum v m)),
      λ m. (let f = rw e at m in cc),
    )
parse_items-Covered minimum maximum (t ∷ ts) xs v h =
    let (s, ys, at_t, at_ts, whole) =
      add_range-some (parse_item minimum maximum t) (parse_items minimum maximum ts) xs h in
    let span = parse_item-IsSpan minimum maximum t s at_t in
    let (forth, back) = range_of-InSpan minimum maximum s v span in
    let ((forth', back'), bounds') = parse_items-Covered minimum maximum ts ys v at_ts in
    let both : elem v xs ≡ (elem v (range_of s) || elem v ys) =
      rw whole (elem-append v (range_of s) ys) in
    (
      (
        λ m. elim (either (elem v (range_of s)) (elem v ys) (sym both ∙ m)) [
          | inl k ↦ here s at_t (forth k)
          | inr k ↦ later (forth' k)
        ],
        λ m. elim (uncover minimum maximum v t ts s at_t m) [
          | inl k ↦ let e = back k in ground arith
          | inr k ↦ let e = back' k in ground arith
        ],
      ),
      λ m. elim (either (elem v (range_of s)) (elem v ys) (sym both ∙ m)) [
        | inl k ↦ InSpan-bounds minimum maximum s v span (forth k)
        | inr k ↦ bounds' k
      ],
    )
  where
    either : (a b : Bool) → (a || b) ≡ true → (a ≡ true) ⊎ (b ≡ true)
    either true b e = inl refl
    either false b e = inr e

-- A field that is accepted has a number exactly if one of its items, cut at the commas, gives it,
-- and has only numbers within the bounds of the field.
pub parse_field-Covered :
    (minimum maximum : ℕ) (t : Text) (xs : List ℕ) (v : ℕ)
    → parse_field minimum maximum t ≡ some xs
    → ((elem v xs ≡ true) ↔ Covered minimum maximum v (split_at b',' t))
      × (elem v xs ≡ true → (minimum ≤ v) × (v ≤ maximum))
unfolding parse_field
parse_field-Covered minimum maximum t = parse_items-Covered minimum maximum (split_at b',' t)
