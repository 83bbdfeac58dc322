-- ===== src/Cron/Next.antt =====
-- The next time of a schedule (app/core/cron.py).
use test_platform_backend.Prelude.{
  ℕ, zero, suc, ◌+◌, ◌≤◌, ◌<◌, ◌≡◌, refl, Bool, true, false, Option, none, some, ltb, Text,
  Bool-cases, inl, inr, ◌⊎◌, arith,
}
use test_platform_backend.Cron.{
  Schedule, Zone, first_match, matches_at, horizon, next_time, next_of, parse_cron, next_cron_time,
}

-- The first of the numbers from `start` that passes the test.
pub record IsFirst (matches : ℕ → Bool) (start stop w : ℕ) : Type 0 where
  pub from : start ≤ w
  pub before : w < stop
  pub matching : matches w ≡ true
  pub least : (u : ℕ) → start ≤ u → u < w → matches u ≡ false

pub first_match-IsFirst :
    (matches : ℕ → Bool) (rounds start : ℕ)
    → ((w : ℕ) × (first_match matches rounds start ≡ some w)
        × IsFirst matches start (start + rounds) w)
      ⊎ (first_match matches rounds start ≡ none)
        × ((u : ℕ) → start ≤ u → u < start + rounds → matches u ≡ false)
unfolding first_match
first_match-IsFirst matches zero start = inr (refl, λ u a b. absurd (omega arith))
first_match-IsFirst matches (suc rounds) start = elim (Bool-cases (matches start)) [
  | inl hit ↦ inl (
    start,
    rw hit refl,
    record {
      from = omega arith;
      before = omega arith;
      matching = hit;
      least = λ u a b. absurd (omega arith);
    },
  )
  | inr miss ↦ elim (first_match-IsFirst matches rounds (start + 1)) [
    | inl (w, e, f) ↦ inl (
      w,
      rw miss e,
      record {
        from = (let a = f.from in omega arith);
        before = (let b = f.before in omega arith);
        matching = f.matching;
        least = λ u a b. extend miss u a (λ k. f.least u k b);
      },
    )
    | inr (e, f) ↦ inr (rw miss e, λ u a b. extend miss u a (λ k. f u k (omega arith)))
  ]
]
  where
    extend :
        matches start ≡ false
        → (u : ℕ) → start ≤ u
        → (start + 1 ≤ u → matches u ≡ false)
        → matches u ≡ false
    extend miss u a f = elim (Bool-cases (ltb start u)) [
      | inl far ↦ f (ground arith)
      | inr near ↦ let same : u ≡ start = ground arith in rw same miss
    ]

-- How the search for the next time ends.
pub data NextTime (z : Zone) (expression : Text) (after : ℕ) : Option ℕ → Type 0 where
  malformed : parse_cron expression ≡ none → NextTime z expression after none
  found :
      (s : Schedule)
      → parse_cron expression ≡ some s
      → (w : ℕ)
      → IsFirst (matches_at z s) (z.local_minute after + 1) (z.local_minute after + 1 + horizon) w
      → NextTime z expression after (some (z.utc w))
  exhausted :
      (s : Schedule)
      → parse_cron expression ≡ some s
      → ((u : ℕ)
          → z.local_minute after + 1 ≤ u
          → u < z.local_minute after + 1 + horizon
          → matches_at z s u ≡ false)
      → NextTime z expression after none

next_of-NextTime :
    (z : Zone) (expression : Text) (after : ℕ) (s : Option Schedule)
    → parse_cron expression ≡ s
    → NextTime z expression after (next_of z s after)
unfolding next_time
next_of-NextTime z expression after none e = malformed e
next_of-NextTime z expression after (some s) e =
    elim (first_match-IsFirst (matches_at z s) horizon (z.local_minute after + 1)) [
      | inl (w, at_w, f) ↦ rw at_w (found s e w f)
      | inr (at_end, f) ↦ rw at_end (exhausted s e f)
    ]

-- The next time of an expression is the first minute of the wall clock after the minute given that
-- matches it, if one of the next `60 * 24 * 366 * 5` minutes does; the code raises if none does,
-- and if the expression is malformed.
pub next_cron_time-NextTime :
    (z : Zone) (expression : Text) (after : ℕ)
    → NextTime z expression after (next_cron_time z expression after)
unfolding next_cron_time
next_cron_time-NextTime z expression after =
    next_of-NextTime z expression after (parse_cron expression) refl

-- For an expression that is known to be valid.
pub next_known :
    (z : Zone) (expression : Text) (after : ℕ) (s : Schedule)
    → parse_cron expression ≡ some s
    → let from = z.local_minute after + 1 in
      ((w : ℕ) × (next_cron_time z expression after ≡ some (z.utc w))
        × IsFirst (matches_at z s) from (from + horizon) w)
      ⊎ (next_cron_time z expression after ≡ none)
        × ((u : ℕ) → from ≤ u → u < from + horizon → matches_at z s u ≡ false)
unfolding next_cron_time next_time
next_known z expression after s parsed =
    elim (first_match-IsFirst (matches_at z s) horizon (z.local_minute after + 1)) [
      | inl (w, e, f) ↦ inl (w, rw parsed (rw e refl), f)
      | inr (e, f) ↦ inr (rw parsed (rw e refl), f)
    ]
