-- ===== src/Tests/Schedules.antt =====
-- A clock that shows UTC, with months of 31 days, and a schedule on it.
use test_platform_backend.Prelude.{
  ℕ, ◌+◌, ◌*◌, ◌/◌, ◌%◌, ◌≤◌, ◌≡◌, refl, true, none, some, List, [], ◌∷◌, elem, codes, ◌↔◌, ◌⊎◌,
  arith,
}
use test_platform_backend.Prelude.{split_at}
use test_platform_backend.Cron.{
  Schedule, Zone, parse_field, parse_cron, next_cron_time, cron_occurrences, cron_matches,
}
use test_platform_backend.Cron.Fields.{Covered, parse_field-Covered}
use test_platform_backend.Cron.Next.{NextTime, next_cron_time-NextTime}
use test_platform_backend.Cron.Occurrences.{
  IsSteady, IsTimetable, IsExhausted, cron_occurrences-IsTimetable,
}

abbrev pub clock : Zone
clock = record {
  calendar = λ w. record {
    minute = w % 60;
    hour = w / 60 % 24;
    day = w / 1440 % 31 + 1;
    month = w / 44640 % 12 + 1;
    weekday = w / 1440 % 7;
  };
  local_minute = λ t. t / 60;
  utc = λ w. w * 60;
}

abbrev pub clock_steady : IsSteady clock
clock_steady = record {
  adjoint = λ t w. (λ h. omega arith, λ h. omega arith);
  rising = λ w. omega arith;
}

abbrev schedule : Schedule
schedule = record {
  minute = 5 ∷ 50 ∷ 54 ∷ 58 ∷ [];
  hour = 9 ∷ [];
  day = 1 ∷ 16 ∷ 31 ∷ [];
  month = 3 ∷ [];
  weekday = 0 ∷ 1 ∷ 2 ∷ 3 ∷ 4 ∷ 5 ∷ 6 ∷ 7 ∷ [];
}

minutes : parse_field 0 59 (codes "5,50-59/4") ≡ some (5 ∷ 50 ∷ 54 ∷ 58 ∷ [])
unfolding parse_field
minutes = refl

parsed : parse_cron (codes "5,50-59/4 9  */15 3 *") ≡ some schedule
unfolding parse_cron
parsed = refl

backwards_refused : parse_cron (codes "5 17-9 * * *") ≡ none
unfolding parse_cron
backwards_refused = refl

-- 9:05 on 1 March of the clock, in seconds.
next_found : next_cron_time clock (codes "5,50-59/4 9 */15 3 *") 5389200 ≡ some 5389500
unfolding next_cron_time cron_matches
next_found = refl

parse_field-Covered_example :
    ((elem 54 (5 ∷ 50 ∷ 54 ∷ 58 ∷ []) ≡ true) ↔ Covered 0 59 54 (split_at b',' (codes "5,50-59/4")))
    × (elem 54 (5 ∷ 50 ∷ 54 ∷ 58 ∷ []) ≡ true → (0 ≤ 54) × (54 ≤ 59))
parse_field-Covered_example =
    parse_field-Covered 0 59 (codes "5,50-59/4") (5 ∷ 50 ∷ 54 ∷ 58 ∷ []) 54 minutes

next_cron_time-NextTime_example :
    NextTime clock (codes "5 9 * * *") 100 (next_cron_time clock (codes "5 9 * * *") 100)
next_cron_time-NextTime_example = next_cron_time-NextTime clock (codes "5 9 * * *") 100

cron_occurrences-IsTimetable_example :
    ((ts : List ℕ) × (cron_occurrences clock (codes "5,50-59/4 9  */15 3 *") 9000000 3 100
        ≡ some ts)
      × IsTimetable clock schedule 9000000 3 100 ts)
    ⊎ (cron_occurrences clock (codes "5,50-59/4 9  */15 3 *") 9000000 3 100 ≡ none)
      × IsExhausted clock schedule 100
cron_occurrences-IsTimetable_example =
    cron_occurrences-IsTimetable clock (codes "5,50-59/4 9  */15 3 *") schedule 9000000 3 100
      clock_steady parsed
