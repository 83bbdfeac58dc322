-- ===== src/Prelude/Texts.antt =====
-- Texts as lists of code points, where the code searches or cuts them.
use Prim.Native.Nat.{ℕ, ◌+◌, ◌-◌, ◌*◌}
use Prim.Native.Char.{code}
use Prim.Native.String.{String}
use mathlib.Core.Path.{◌≡◌, refl}
use mathlib.Core.Bool.{Bool, true, false, ◌&&◌, ◌||◌}
use mathlib.Core.List.{List, [], ◌∷◌, ◌++◌}
use native.Mathlib.Omega.{arith}
use test_platform_backend.Prelude.Tests.{if◌then◌else◌, ◌==◌, leb}

abbrev pub Text : Type 0
Text = List ℕ

abbrev pub codes : String → Text
codes String.[] = []
codes (String.◌∷◌ c s) = code c ∷ codes s

abbrev pub same_text : Text → Text → Bool
same_text [] [] = true
same_text [] (y ∷ t) = false
same_text (x ∷ s) [] = false
same_text (x ∷ s) (y ∷ t) = x == y && same_text s t

-- `t.startswith(s)`
abbrev pub starts_with : Text → Text → Bool
starts_with [] t = true
starts_with (x ∷ s) [] = false
starts_with (x ∷ s) (y ∷ t) = x == y && starts_with s t

-- `s in t`
abbrev pub occurs_in : Text → Text → Bool
occurs_in s [] = starts_with s []
occurs_in s (y ∷ t) = starts_with s (y ∷ t) || occurs_in s t

abbrev pub drop_prefix : Text → Text → Text
drop_prefix [] t = t
drop_prefix (x ∷ s) [] = []
drop_prefix (x ∷ s) (y ∷ t) = drop_prefix s t

-- `t.removeprefix(s)`
abbrev pub remove_prefix : Text → Text → Text
remove_prefix s t = if starts_with s t then drop_prefix s t else t

abbrev pub is_digit : ℕ → Bool
is_digit c = leb b'0' c && leb c b'9'

abbrev pub all_digits : Text → Bool
all_digits [] = true
all_digits (c ∷ t) = is_digit c && all_digits t

-- `t.isdigit()`
abbrev pub is_digits : Text → Bool
is_digits [] = false
is_digits (c ∷ t) = all_digits (c ∷ t)

-- `int(t)` of digits, with the value of those before.
abbrev pub to_int : ℕ → Text → ℕ
to_int n [] = n
to_int n (c ∷ t) = to_int (10 * n + (c - b'0')) t

abbrev pub extend_first : ℕ → List Text → List Text
extend_first c [] = (c ∷ []) ∷ []
extend_first c (t ∷ ts) = (c ∷ t) ∷ ts

-- `t.split(c)`
abbrev pub split_at : ℕ → Text → List Text
split_at c [] = [] ∷ []
split_at c (x ∷ t) = if x == c then [] ∷ split_at c t else extend_first x (split_at c t)

pub same_text_refl : (s : Text) → same_text s s ≡ true
same_text_refl [] = refl
same_text_refl (x ∷ s) = ground (arith, same_text_refl s)

pub same_text_eq : (s t : Text) → same_text s t ≡ true → s ≡ t
same_text_eq [] [] h = refl
same_text_eq [] (y ∷ t) h = cc
same_text_eq (x ∷ s) [] h = cc
same_text_eq (x ∷ s) (y ∷ t) h =
    let rest = same_text_eq s t (ground arith) in let first : x ≡ y = ground arith in cc

pub starts_with-append : (s t : Text) → starts_with s (s ++ t) ≡ true
starts_with-append [] t = refl
starts_with-append (x ∷ s) t = ground (arith, starts_with-append s t)

pub drop_prefix-append : (s t : Text) → drop_prefix s (s ++ t) ≡ t
drop_prefix-append [] t = refl
drop_prefix-append (x ∷ s) t = drop_prefix-append s t

pub append-drop_prefix : (s t : Text) → starts_with s t ≡ true → s ++ drop_prefix s t ≡ t
append-drop_prefix [] t h = refl
append-drop_prefix (x ∷ s) [] h = cc
append-drop_prefix (x ∷ s) (y ∷ t) h =
    let rest = append-drop_prefix s t (ground arith) in let first : x ≡ y = ground arith in cc

pub remove_prefix-append : (s t : Text) → remove_prefix s (s ++ t) ≡ t
remove_prefix-append s t = rw (starts_with-append s t, drop_prefix-append s t) refl
