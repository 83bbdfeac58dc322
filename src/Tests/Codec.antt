-- ===== src/Tests/Codec.antt =====
-- A reversible encoding of JSON trees, which stands for the cipher where the theorems are applied:
-- instructions for a stack, each an operation and its argument.
use test_platform_backend.Prelude.{
  ℕ, ◌≡◌, refl, true, false, Option, none, some, List, [], ◌∷◌, ◌==◌, if◌then◌else◌, Text, ◌∙◌,
}
use test_platform_backend.Json.{
  Json, Items, Fields, null, boolean, number, text, array, object, no_items, item, no_fields, field,
}
use test_platform_backend.Sensitive.{Cipher}

data Cell : Type 0 where
  value : Json → Cell
  elements : Items → Cell
  members : Fields → Cell
  word : Text → Cell

abbrev cons_word : ℕ → List Cell → List Cell
cons_word n (word s ∷ st) = word (n ∷ s) ∷ st
cons_word n st = st

abbrev close_word : List Cell → List Cell
close_word (word s ∷ st) = value (text s) ∷ st
close_word st = st

abbrev cons_element : List Cell → List Cell
cons_element (elements xs ∷ value v ∷ st) = elements (item v xs) ∷ st
cons_element st = st

abbrev close_elements : List Cell → List Cell
close_elements (elements xs ∷ st) = value (array xs) ∷ st
close_elements st = st

abbrev cons_member : List Cell → List Cell
cons_member (members fs ∷ value v ∷ word k ∷ st) = members (field k v fs) ∷ st
cons_member st = st

abbrev close_members : List Cell → List Cell
close_members (members fs ∷ st) = value (object fs) ∷ st
close_members st = st

abbrev act : ℕ → ℕ → List Cell → List Cell
act op n st =
    if op == 0
    then value null ∷ st
    else if op == 1
    then value (boolean (n == 1)) ∷ st
    else if op == 2
    then value (number n) ∷ st
    else if op == 3
    then word [] ∷ st
    else if op == 4
    then cons_word n st
    else if op == 5
    then close_word st
    else if op == 6
    then elements no_items ∷ st
    else if op == 7
    then cons_element st
    else if op == 8
    then close_elements st
    else if op == 9
    then members no_fields ∷ st
    else if op == 10
    then cons_member st
    else close_members st

abbrev result : List Cell → Option Json
result (value v ∷ []) = some v
result _ = none

abbrev run : List ℕ → List Cell → Option Json
run [] st = result st
run (op ∷ []) st = none
run (op ∷ n ∷ t) st = run t (act op n st)

abbrev write_text : Text → List ℕ → List ℕ
write_text [] t = 3 ∷ 0 ∷ t
write_text (c ∷ s) t = write_text s (4 ∷ c ∷ t)

mutual
  write : Json → List ℕ → List ℕ
  write null t = 0 ∷ 0 ∷ t
  write (boolean true) t = 1 ∷ 1 ∷ t
  write (boolean false) t = 1 ∷ 0 ∷ t
  write (number n) t = 2 ∷ n ∷ t
  write (text s) t = write_text s (5 ∷ 0 ∷ t)
  write (array xs) t = write_items xs (8 ∷ 0 ∷ t)
  write (object fs) t = write_fields fs (11 ∷ 0 ∷ t)

  write_items : Items → List ℕ → List ℕ
  write_items no_items t = 6 ∷ 0 ∷ t
  write_items (item v xs) t = write v (write_items xs (7 ∷ 0 ∷ t))

  write_fields : Fields → List ℕ → List ℕ
  write_fields no_fields t = 9 ∷ 0 ∷ t
  write_fields (field k v fs) t = write_text k (write v (write_fields fs (10 ∷ 0 ∷ t)))

run-write_text :
    (s : Text) (t : List ℕ) (st : List Cell) → run (write_text s t) st ≡ run t (word s ∷ st)
run-write_text [] t st = refl
run-write_text (c ∷ s) t st = run-write_text s (4 ∷ c ∷ t) st

mutual
  unfolding write

  run-write : (v : Json) (t : List ℕ) (st : List Cell) → run (write v t) st ≡ run t (value v ∷ st)
  run-write null t st = refl
  run-write (boolean true) t st = refl
  run-write (boolean false) t st = refl
  run-write (number n) t st = refl
  run-write (text s) t st = run-write_text s (5 ∷ 0 ∷ t) st
  run-write (array xs) t st = run-write_items xs (8 ∷ 0 ∷ t) st
  run-write (object fs) t st = run-write_fields fs (11 ∷ 0 ∷ t) st

  run-write_items :
      (xs : Items) (t : List ℕ) (st : List Cell)
      → run (write_items xs t) st ≡ run t (elements xs ∷ st)
  run-write_items no_items t st = refl
  run-write_items (item v xs) t st =
      run-write v (write_items xs (7 ∷ 0 ∷ t)) st ∙ run-write_items xs (7 ∷ 0 ∷ t) (value v ∷ st)

  run-write_fields :
      (fs : Fields) (t : List ℕ) (st : List Cell)
      → run (write_fields fs t) st ≡ run t (members fs ∷ st)
  run-write_fields no_fields t st = refl
  run-write_fields (field k v fs) t st =
      run-write_text k (write v (write_fields fs (10 ∷ 0 ∷ t))) st
      ∙ run-write v (write_fields fs (10 ∷ 0 ∷ t)) (word k ∷ st)
      ∙ run-write_fields fs (10 ∷ 0 ∷ t) (value v ∷ word k ∷ st)

pub codec : Cipher
unfolding write
codec = record { encrypt = λ v. write v []; decrypt = λ t. run t [] }

pub codec_inverse : (v : Json) → codec.decrypt (codec.encrypt v) ≡ some v
unfolding codec
codec_inverse v = run-write v [] []
