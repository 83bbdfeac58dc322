-- ===== src/Flow/Paths/RoundTrip.antt =====
-- Reading at the path that was written (app/services/visual_flow_service.py).
use test_platform_backend.Prelude.{
  ℕ, ◌<◌, ◌≡◌, Bool, true, false, none, some, List, [], ◌∷◌, Text, is_digits, ◌⊎◌,
}
use test_platform_backend.Json.{Json, Items, Fields, array, object}
use test_platform_backend.Flow.Paths.{
  item_at, field_at, index_of, int_of, count_items, place_of, read_path, child_of, element_of,
  write_path,
}

abbrev is_container : Json → Bool
is_container (object fs) = true
is_container (array xs) = true
is_container _ = false

-- Where a path cannot be written: it has no parts, it goes through a value that is neither a
-- dictionary nor a list, or a part of it is no integer, or one from before the start, for the list
-- that it meets.
pub data IsBlocked : Json → List Text → Type 0 where
  no_parts : {v : Json} → IsBlocked v []
  scalar :
      {v : Json} {p : Text} {parts : List Text} → is_container v ≡ false → IsBlocked v (p ∷ parts)
  no_integer :
      {xs : Items} {p : Text} {parts : List Text}
      → int_of p ≡ none
      → IsBlocked (array xs) (p ∷ parts)
  before_start :
      {xs : Items} {p : Text} {parts : List Text} (i : ℕ)
      → int_of p ≡ some (true, i)
      → count_items xs < i
      → IsBlocked (array xs) (p ∷ parts)
  in_field :
      {fs : Fields} {p q : Text} {parts : List Text}
      → IsBlocked (child_of (field_at p fs)) (q ∷ parts)
      → IsBlocked (object fs) (p ∷ q ∷ parts)
  in_item :
      {xs : Items} {p q : Text} {parts : List Text} (i : ℕ)
      → place_of p xs ≡ some i
      → IsBlocked (element_of (item_at i xs)) (q ∷ parts)
      → IsBlocked (array xs) (p ∷ q ∷ parts)

-- Where a part that meets a list is an integer, but not made of digits alone: it has a sign, spaces
-- or underscores.
pub data IsUnreadable : Json → List Text → Type 0 where
  at_item :
      {xs : Items} {p : Text} {parts : List Text}
      → is_digits p ≡ false
      → IsUnreadable (array xs) (p ∷ parts)
  under_field :
      {fs : Fields} {p q : Text} {parts : List Text}
      → IsUnreadable (child_of (field_at p fs)) (q ∷ parts)
      → IsUnreadable (object fs) (p ∷ q ∷ parts)
  under_item :
      {xs : Items} {p q : Text} {parts : List Text} (i : ℕ)
      → place_of p xs ≡ some i
      → IsUnreadable (element_of (item_at i xs)) (q ∷ parts)
      → IsUnreadable (array xs) (p ∷ q ∷ parts)

-- What is read at the path afterwards.
abbrev pub IsReadBack : Json → List Text → Json → Json → Type 0
IsReadBack current parts value after =
    (read_path after parts ≡ some value)
    ⊎ (read_path after parts ≡ none) × IsUnreadable current parts

-- How a write ends.
abbrev pub Written : Json → List Text → Json → Type 0
Written current parts value =
    ((after : Json) × (write_path current parts value ≡ some after)
      × IsReadBack current parts value after)
    ⊎ (write_path current parts value ≡ none) × IsBlocked current parts

-- What a part is to a list: a place that is read at its own index, a place that is not read, or
-- no place.
abbrev Index : Text → Items → Type 0
Index p xs =
    ((i : ℕ) × (place_of p xs ≡ some i)
      × ((index_of p ≡ some i) ⊎ (index_of p ≡ none) × (is_digits p ≡ false)))
    ⊎ (place_of p xs ≡ none)
      × ((int_of p ≡ none) ⊎ ((i : ℕ) × (int_of p ≡ some (true, i)) × (count_items xs < i)))
