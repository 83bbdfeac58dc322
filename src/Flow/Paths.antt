-- ===== src/Flow/Paths.antt =====
-- `_read_path` and `_write_path` of app/services/visual_flow_service.py, with a path as the list of
-- its parts. A part is ASCII text: the digits and spaces of other scripts, which `isdigit` and `int`
-- take too, are left out.
pub mod RoundTrip
use test_platform_backend.Prelude.{
  ℕ, zero, suc, ◌+◌, ◌-◌, ◌*◌, ◌==◌, leb, ◌&&◌, ◌||◌, is_digit, Bool, true, false, Option, none,
  some, List, [], ◌∷◌, if◌then◌else◌, Text, same_text, is_digits, to_int,
}
use mathlib.Core.Option
use test_platform_backend.Json.{
  Json, Items, Fields, null, boolean, number, text, array, object, no_items, item, no_fields, field,
}

-- `current[i]`
abbrev pub item_at : ℕ → Items → Option Json
item_at i no_items = none
item_at zero (item v xs) = some v
item_at (suc i) (item v xs) = item_at i xs

-- `current.get(k)`
abbrev pub field_at : Text → Fields → Option Json
field_at k no_fields = none
field_at k (field l v fs) = let rest = field_at k fs in if same_text l k then some v else rest

-- `while len(current) <= i: current.append(fill)` and then `current[i] = value`.
abbrev pub put_item : ℕ → Json → Json → Items → Items
put_item zero fill value no_items = item value no_items
put_item zero fill value (item v xs) = item value xs
put_item (suc i) fill value no_items = item fill (put_item i fill value no_items)
put_item (suc i) fill value (item v xs) = item v (put_item i fill value xs)

-- `current[k] = value`
abbrev pub put_field : Text → Json → Fields → Fields
put_field k value no_fields = field k value no_fields
put_field k value (field l v fs) =
    let rest = put_field k value fs in if same_text l k then field l value fs else field l v rest

-- `xs[i]` where `_read_path` takes a part as an index: `part.isdigit()`, and then `int(part)`.
abbrev pub index_of : Text → Option ℕ
index_of part = if is_digits part then some (to_int 0 part) else none

-- The spaces that `int` takes off.
abbrev pub is_space : ℕ → Bool
is_space c = leb 9 c && leb c 13 || c == 32

abbrev pub all_spaces : Text → Bool
all_spaces [] = true
all_spaces (c ∷ t) = is_space c && all_spaces t

-- The digits of `int(part)`, of which a single underscore may stand between two, and the spaces at
-- the end; `n` is the value up to here, and the test says whether a digit stands just before.
unfoldable pub magnitude : ℕ → Bool → Text → Option ℕ
magnitude n after_digit [] = if after_digit then some n else none
magnitude n after_digit (c ∷ t) =
    let more = magnitude (10 * n + (c - b'0')) true t in
    let between = magnitude n false t in
    if is_digit c
    then more
    else if after_digit && c == b'_'
    then between
    else if after_digit && all_spaces (c ∷ t)
    then some n
    else none

-- An integer by its sign, true for negative, and its magnitude.
abbrev pub Signed : Type 0
Signed = Bool × ℕ

abbrev pub with_sign : Text → Option Signed
with_sign [] = none
with_sign (c ∷ t) =
    if c == b'-'
    then Option.map (λ n. (true, n)) (magnitude 0 false t)
    else if c == b'+'
    then Option.map (λ n. (false, n)) (magnitude 0 false t)
    else Option.map (λ n. (false, n)) (magnitude 0 false (c ∷ t))

abbrev pub strip_left : Text → Text
strip_left [] = []
strip_left (c ∷ t) = let rest = strip_left t in if is_space c then rest else c ∷ t

-- `int(part)`, none where it raises.
unfoldable pub int_of : Text → Option Signed
int_of part = with_sign (strip_left part)

abbrev pub count_items : Items → ℕ
count_items no_items = 0
count_items (item v xs) = count_items xs + 1

-- The place of `current[index]`: a negative index counts from the end, and raises before the start.
abbrev pub place : Signed → Items → Option ℕ
place (false, i) xs = some i
place (true, zero) xs = some 0
place (true, suc i) xs =
    if leb (suc i) (count_items xs) then some (count_items xs - suc i) else none

-- The place that `_write_path` writes for a part, none where it raises.
abbrev pub place_at : Option Signed → Items → Option ℕ
place_at none xs = none
place_at (some i) xs = place i xs

abbrev pub place_of : Text → Items → Option ℕ
place_of part xs = place_at (int_of part) xs

abbrev pub and_then : Option Json → (Json → Option Json) → Option Json
and_then none f = none
and_then (some v) f = f v

abbrev pub item_of : Option ℕ → Items → Option Json
item_of none xs = none
item_of (some i) xs = item_at i xs

-- `_read_path`, none for `_MISSING`.
unfoldable pub read_path : Json → List Text → Option Json
read_path v [] = some v
read_path (object fs) (p ∷ parts) = and_then (field_at p fs) (λ v. read_path v parts)
read_path (array xs) (p ∷ parts) = and_then (item_of (index_of p) xs) (λ v. read_path v parts)
read_path _ (p ∷ parts) = none

abbrev pub empty_object : Json
empty_object = object no_fields

-- The value of a key to go on with: what is no dictionary or list is replaced.
abbrev pub child_of : Option Json → Json
child_of (some (object fs)) = object fs
child_of (some (array xs)) = array xs
child_of _ = empty_object

abbrev pub element_of : Option Json → Json
element_of none = empty_object
element_of (some v) = v

abbrev pub at_index : Option ℕ → (ℕ → Option Json) → Option Json
at_index none f = none
at_index (some i) f = f i

abbrev pub with_field : Text → Fields → Option Json → Option Json
with_field p fs = Option.map (λ c. object (put_field p c fs))

abbrev pub with_item : ℕ → Items → Option Json → Option Json
with_item i xs = Option.map (λ c. array (put_item i empty_object c xs))

-- `_write_path`: what `data` is afterwards, none where it raises.
unfoldable pub write_path : Json → List Text → Json → Option Json
write_path current [] value = none
write_path (object fs) (p ∷ []) value = some (object (put_field p value fs))
write_path (array xs) (p ∷ []) value =
    at_index (place_of p xs) (λ i. some (array (put_item i null value xs)))
write_path (object fs) (p ∷ q ∷ parts) value =
    with_field p fs (write_path (child_of (field_at p fs)) (q ∷ parts) value)
write_path (array xs) (p ∷ q ∷ parts) value =
    at_index (place_of p xs)
      (λ i. with_item i xs (write_path (element_of (item_at i xs)) (q ∷ parts) value))
write_path _ (p ∷ parts) value = none
