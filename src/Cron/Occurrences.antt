-- ===== src/Cron/Occurrences.antt =====
-- The times of a schedule between two times (app/core/cron.py).
use test_platform_backend.Prelude.{
  ℕ, zero, suc, ◌+◌, ◌≤◌, ◌<◌, ◌≡◌, refl, Bool, true, false, none, some, List, [], ◌∷◌, ◌==◌, ltb,
  elem, length, Text, Bool-cases, inl, inr, ◌⊎◌, ◌↔◌, arith,
}
use test_platform_backend.Cron.{Schedule, Zone, matches_at, horizon, parse_cron, cron_occurrences}
use test_platform_backend.Cron.Next.{IsFirst, next_known}

-- A zone whose clock is never set: a minute comes after a time exactly if its first second does.
pub record IsSteady (z : Zone) : Type 0 where
  pub adjoint : (t w : ℕ) → (z.local_minute t < w) ↔ (t < z.utc w)
  pub rising : (w : ℕ) → z.utc w < z.utc (w + 1)

-- The times rise, from a time after `from`.
abbrev pub Rising : ℕ → List ℕ → Type 0
Rising from [] = Unit
Rising from (t ∷ ts) = (from < t) × Rising t ts

-- All the times of a schedule after `cursor` and up to `end_at`, or the first `wanted` of them.
pub record IsTimetable (z : Zone) (s : Schedule) (end_at wanted cursor : ℕ) (ts : List ℕ)
    : Type 0 where
  pub few : length ts ≤ wanted
  pub rising : Rising cursor ts
  pub sound :
      (t : ℕ)
      → elem t ts ≡ true
      → (w : ℕ) × (t ≡ z.utc w) × (matches_at z s w ≡ true) × (t ≤ end_at)
  pub complete :
      (w : ℕ)
      → matches_at z s w ≡ true
      → cursor < z.utc w
      → z.utc w ≤ end_at
      → length ts < wanted
      → elem (z.utc w) ts ≡ true

-- The search ran out of minutes after some time from `cursor` on.
pub record IsExhausted (z : Zone) (s : Schedule) (cursor : ℕ) : Type 0 where
  pub after : ℕ
  pub reached : cursor ≤ after
  pub unmatched :
      (u : ℕ)
      → z.local_minute after + 1 ≤ u
      → u < z.local_minute after + 1 + horizon
      → matches_at z s u ≡ false

clash : {b : Bool} → b ≡ true → b ≡ false → ⊥
clash m n = ground arith

less_of_ltb : (a b : ℕ) → ltb a b ≡ true → a < b
less_of_ltb a b h = ground arith

not_less_le : (a b : ℕ) → ltb a b ≡ false → b ≤ a
not_less_le a b h = ground arith

module _ (z : Zone) (steady : IsSteady z) (s : Schedule) where
  utc-rises : (w k : ℕ) → w < k → z.utc w < z.utc k
  utc-rises w zero h = absurd (omega arith)
  utc-rises w (suc k) h = elim (Bool-cases (ltb w k)) [
    | inl less ↦
        let one = utc-rises w k (ground arith) in
        let two : z.utc k < z.utc (suc k) = (let r = steady.rising k in ground arith) in omega arith
    | inr not_less ↦
        let same : w ≡ k = ground arith in
        let two : z.utc k < z.utc (suc k) = (let r = steady.rising k in ground arith) in rw same two
  ]

  utc-le : (w k : ℕ) → w ≤ k → z.utc w ≤ z.utc k
  utc-le w k h = elim (Bool-cases (ltb w k)) [
    | inl less ↦ let one = utc-rises w k (ground arith) in omega arith
    | inr not_less ↦ let same : w ≡ k = ground arith in rw same (omega arith)
  ]

  -- No minute that matches comes between a time and the next one.
  none_between :
      (cursor w v : ℕ)
      → IsFirst (matches_at z s) (z.local_minute cursor + 1) (z.local_minute cursor + 1 + horizon) w
      → matches_at z s v ≡ true
      → cursor < z.utc v
      → w ≤ v
  none_between cursor w v first m after = elim (Bool-cases (ltb v w)) [
    | inl early ↦
        let a = (steady.adjoint cursor v).1 after in
        let no = first.least v (omega arith) (ground arith) in absurd (clash m no)
    | inr late ↦ ground arith
  ]

  cut_short :
      (wanted cursor w end_at : ℕ)
      → IsFirst (matches_at z s) (z.local_minute cursor + 1) (z.local_minute cursor + 1 + horizon) w
      → end_at < z.utc w
      → IsTimetable z s end_at wanted cursor []
  cut_short wanted cursor w end_at first past = record {
    few = omega arith;
    rising = tt;
    sound = λ t m. absurd (ground arith);
    complete = λ v m after inside room.
        let one = utc-le w v (none_between cursor w v first m after) in absurd (omega arith);
  }

  one_more :
      (wanted cursor w end_at : ℕ) (ts : List ℕ)
      → IsFirst (matches_at z s) (z.local_minute cursor + 1) (z.local_minute cursor + 1 + horizon) w
      → z.utc w ≤ end_at
      → IsTimetable z s end_at wanted (z.utc w) ts
      → IsTimetable z s end_at (suc wanted) cursor (z.utc w ∷ ts)
  one_more wanted cursor w end_at ts first inside h = record {
    few = (let f = h.few in ground arith);
    rising = ((steady.adjoint cursor w).0 (let a = first.from in omega arith), h.rising);
    sound = λ t m. elim (Bool-cases (t == z.utc w)) [
      | inl same ↦ let e : t ≡ z.utc w = ground arith in (w, e, first.matching, rw e inside)
      | inr other ↦ h.sound t (ground arith)
    ];
    complete = λ v m after early room. elim (Bool-cases (ltb w v)) [
      | inl beyond ↦
          let rest = h.complete v m (utc-rises w v (ground arith)) early (omega arith) in
          ground arith
      | inr not_beyond ↦
          let one = none_between cursor w v first m after in
          let same : v ≡ w = ground arith in rw same (ground arith)
    ];
  }

  -- The loop, from any cursor on.
  listing :
      (expression : Text) (end_at wanted cursor : ℕ)
      → parse_cron expression ≡ some s
      → ((ts : List ℕ) × (cron_occurrences z expression end_at wanted cursor ≡ some ts)
          × IsTimetable z s end_at wanted cursor ts)
        ⊎ (cron_occurrences z expression end_at wanted cursor ≡ none) × IsExhausted z s cursor
  unfolding cron_occurrences
  listing expression end_at zero cursor parsed = inl (
    [],
    refl,
    record {
      few = omega arith;
      rising = tt;
      sound = λ t m. absurd (ground arith);
      complete = λ v m after inside room. absurd (omega arith);
    },
  )
  listing expression end_at (suc wanted) cursor parsed =
      elim (next_known z expression cursor s parsed) [
        | inr (e, unmatched) ↦
            inr (rw e refl, record { after = cursor; reached = omega arith; unmatched = unmatched })
        | inl (w, e, first) ↦ elim (Bool-cases (ltb end_at (z.utc w))) [
          | inl past ↦ inl (
            [],
            rw e (rw past refl),
            cut_short (suc wanted) cursor w end_at first (less_of_ltb end_at (z.utc w) past),
          )
          | inr not_past ↦ elim (listing expression end_at wanted (z.utc w) parsed) [
            | inl (ts, e', table) ↦ inl (
              z.utc w ∷ ts,
              rw e (rw (not_past, e') refl),
              one_more wanted cursor w end_at ts first (not_less_le end_at (z.utc w) not_past)
                  table,
            )
            | inr (e', out) ↦
                let sooner = (steady.adjoint cursor w).0 (let a = first.from in omega arith) in
                let reached = out.reached in
                inr (
                  rw e (rw (not_past, e') refl),
                  record { after = out.after; reached = omega arith; unmatched = out.unmatched },
                )
          ]
        ]
      ]

-- In a zone whose clock is never set, the listing for a valid expression has the times of the
-- schedule after the cursor and up to the end, in their order and each once, all of them or as many
-- as are wanted. It raises only where, after some time from the cursor on, none of the next
-- `60 * 24 * 366 * 5` minutes matches.
pub cron_occurrences-IsTimetable :
    (z : Zone) (expression : Text) (s : Schedule) (end_at wanted cursor : ℕ)
    → IsSteady z
    → parse_cron expression ≡ some s
    → ((ts : List ℕ) × (cron_occurrences z expression end_at wanted cursor ≡ some ts)
        × IsTimetable z s end_at wanted cursor ts)
      ⊎ (cron_occurrences z expression end_at wanted cursor ≡ none) × IsExhausted z s cursor
cron_occurrences-IsTimetable z expression s end_at wanted cursor steady parsed =
    listing z steady s expression end_at wanted cursor parsed
