-- ===== src/Cron.antt =====
-- app/core/cron.py. Expressions are ASCII texts; a set of numbers is the list of what was added to
-- it. A local time is the number of its minute on the wall clock; the calendar and the time zone
-- are arguments.
pub mod Fields
pub mod Next
pub mod Occurrences
use test_platform_backend.Prelude.{
  ℕ, zero, suc, ◌+◌, ◌-◌, ◌*◌, ◌/◌, ◌%◌, Bool, true, false, not, ◌&&◌, ◌||◌, Option, none, some,
  List, [], ◌∷◌, ◌++◌, ◌==◌, ltb, leb, elem, if◌then◌else◌, Text, codes, same_text, is_digits,
  to_int, split_at,
}
use mathlib.Core.Option

abbrev pub is_space : ℕ → Bool
is_space c = c == 32 || (leb 9 c && leb c 13) || (leb 28 c && leb c 31)

abbrev pub add_word : Text → List Text → List Text
add_word [] ws = ws
add_word (c ∷ t) ws = (c ∷ t) ∷ ws

-- `t.split()`: the word in front, and those after it.
abbrev pub split_words : Text → Text × List Text
split_words [] = ([], [])
split_words (x ∷ t) =
    let (word, words) = split_words t in
    if is_space x then ([], add_word word words) else (x ∷ word, words)

abbrev pub words : Text → List Text
words t = let (word, rest) = split_words t in add_word word rest

-- `t.partition("/")`, with none for an empty separator.
abbrev pub partition : Text → Text × Option Text
partition [] = ([], none)
partition (x ∷ t) =
    let (base, rest) = partition t in if x == b'/' then ([], some t) else (x ∷ base, rest)

-- `start`, `end` and `step` of one item.
pub record Span : Type 0 where
  pub start : ℕ
  pub last : ℕ
  pub step : ℕ

-- A step, none where the code raises.
unfoldable pub parse_step : Option Text → Option ℕ
parse_step none = some 1
parse_step (some t) = if is_digits t && leb 1 (to_int 0 t) then some (to_int 0 t) else none

-- `start` and `end` of what is not `*`.
abbrev pub parse_bounds : List Text → Option (ℕ × ℕ)
parse_bounds (a ∷ []) = if is_digits a then some (to_int 0 a, to_int 0 a) else none
parse_bounds (a ∷ b ∷ []) =
    if is_digits a && is_digits b then some (to_int 0 a, to_int 0 b) else none
parse_bounds _ = none

unfoldable pub parse_base : ℕ → ℕ → Text → Option (ℕ × ℕ)
parse_base minimum maximum base =
    if same_text base (codes "*")
    then some (minimum, maximum)
    else parse_bounds (split_at b'-' base)

abbrev pub check_span : ℕ → ℕ → Option ℕ → Option (ℕ × ℕ) → Option Span
check_span minimum maximum none bounds = none
check_span minimum maximum (some k) none = none
check_span minimum maximum (some k) (some (a, b)) =
    if ltb a minimum || ltb maximum b || ltb b a
    then none
    else some (record { start = a; last = b; step = k })

-- One item of a field.
unfoldable pub parse_item : ℕ → ℕ → Text → Option Span
unfolding parse_step parse_base
parse_item minimum maximum t =
    let (base, step) = partition t in
    check_span minimum maximum (parse_step step) (parse_base minimum maximum base)

-- `range(start, stop, step)` for a step that is not 0; the fuel is `stop - start`.
abbrev pub range_from : ℕ → ℕ → ℕ → ℕ → List ℕ
range_from zero start stop step = []
range_from (suc fuel) start stop step =
    let rest = range_from fuel (start + step) stop step in
    if ltb start stop then start ∷ rest else []

abbrev pub range_of : Span → List ℕ
range_of s = range_from (s.last + 1 - s.start) s.start (s.last + 1) s.step

abbrev pub add_range : Option Span → Option (List ℕ) → Option (List ℕ)
add_range none rest = none
add_range (some s) rest = Option.map (λ xs. range_of s ++ xs) rest

unfoldable pub parse_items : ℕ → ℕ → List Text → Option (List ℕ)
unfolding parse_item
parse_items minimum maximum [] = some []
parse_items minimum maximum (t ∷ ts) =
    add_range (parse_item minimum maximum t) (parse_items minimum maximum ts)

-- `_parse_field`
unfoldable pub parse_field : ℕ → ℕ → Text → Option (List ℕ)
unfolding parse_items
parse_field minimum maximum t = parse_items minimum maximum (split_at b',' t)

-- The sets of the five fields.
pub record Schedule : Type 0 where
  pub minute : List ℕ
  pub hour : List ℕ
  pub day : List ℕ
  pub month : List ℕ
  pub weekday : List ℕ

abbrev pub schedule_of :
    Option (List ℕ)
    → Option (List ℕ)
    → Option (List ℕ)
    → Option (List ℕ)
    → Option (List ℕ)
    → Option Schedule
schedule_of (some a) (some b) (some c) (some d) (some e) =
    some (record { minute = a; hour = b; day = c; month = d; weekday = e })
schedule_of _ _ _ _ _ = none

abbrev pub parse_fields : List Text → Option Schedule
parse_fields (a ∷ b ∷ c ∷ d ∷ e ∷ []) =
    schedule_of (parse_field 0 59 a) (parse_field 0 23 b) (parse_field 1 31 c) (parse_field 1 12 d)
      (parse_field 0 7 e)
parse_fields _ = none

-- `parse_cron`, none where it raises.
unfoldable pub parse_cron : Text → Option Schedule
unfolding parse_field
parse_cron expression = parse_fields (words expression)

-- The parts of a time on the wall clock; `weekday()` counts from Monday.
pub record DateTime : Type 0 where
  pub minute : ℕ
  pub hour : ℕ
  pub day : ℕ
  pub month : ℕ
  pub weekday : ℕ

-- `cron_matches`
unfoldable pub cron_matches : DateTime → Schedule → Bool
cron_matches t s =
    let day = (t.weekday + 1) % 7 in
    elem t.minute s.minute
    && elem t.hour s.hour
    && elem t.day s.day
    && elem t.month s.month
    && (elem day s.weekday || (day == 0 && elem 7 s.weekday))

-- `calendar` is what the wall clock shows at a minute of it, `local_minute` the minute at a second
-- of UTC, and `utc` the second of UTC at a minute, the first one where the clock is set back.
pub record Zone : Type 0 where
  pub calendar : ℕ → DateTime
  pub local_minute : ℕ → ℕ
  pub utc : ℕ → ℕ

-- The loop over the candidates, none if they run out.
unfoldable pub first_match : (ℕ → Bool) → ℕ → ℕ → Option ℕ
first_match matches zero candidate = none
first_match matches (suc rounds) candidate =
    let later = first_match matches rounds (candidate + 1) in
    if matches candidate then some candidate else later

-- `60 * 24 * 366 * 5`
abbrev pub horizon : ℕ
horizon = 2635200

-- The minutes of a schedule.
abbrev pub matches_at : Zone → Schedule → ℕ → Bool
matches_at z s w = cron_matches (z.calendar w) s

-- `next_cron_time` of a schedule that is parsed, none where it raises.
unfoldable pub next_time : Zone → Schedule → ℕ → Option ℕ
unfolding first_match
next_time z s after =
    Option.map z.utc (first_match (matches_at z s) horizon (z.local_minute after + 1))

abbrev pub next_of : Zone → Option Schedule → ℕ → Option ℕ
next_of z none after = none
next_of z (some s) after = next_time z s after

unfoldable pub next_cron_time : Zone → Text → ℕ → Option ℕ
unfolding parse_cron next_time
next_cron_time z expression after = next_of z (parse_cron expression) after

-- `cron_occurrences` with the number of times that are still wanted, none where it raises.
abbrev pub add_occurrence : ℕ → Option ℕ → (ℕ → Option (List ℕ)) → Option (List ℕ)
add_occurrence end_at none rest = none
add_occurrence end_at (some t) rest =
    if ltb end_at t then some [] else Option.map (λ ts. t ∷ ts) (rest t)

unfoldable pub cron_occurrences : Zone → Text → ℕ → ℕ → ℕ → Option (List ℕ)
unfolding next_cron_time
cron_occurrences z expression end_at zero cursor = some []
cron_occurrences z expression end_at (suc wanted) cursor =
    add_occurrence end_at (next_cron_time z expression cursor)
      (λ t. cron_occurrences z expression end_at wanted t)
