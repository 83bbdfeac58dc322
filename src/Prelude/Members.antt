-- ===== src/Prelude/Members.antt =====
-- Membership in lists of identifiers, and how long a list without repetitions can be.
use Prim.Native.Nat.{ℕ, suc, ◌+◌, ◌≤◌}
use mathlib.Core.Path.{◌≡◌, refl, sym, ap, subst, ◌∙◌}
use mathlib.Core.Option.{none, some}
use mathlib.Core.Bool.{Bool, true, false, ◌||◌}
use mathlib.Core.List.{List, [], ◌∷◌, ◌++◌}
use mathlib.Core.Logic.{inl, inr, ◌⊎◌, ◌↔◌}
use native.Mathlib.Omega.{arith}
use test_platform_backend.Prelude.Tests.{if◌then◌else◌, ◌==◌, Bool-cases}
use test_platform_backend.Prelude.Lists.{length, elem, All, find, select}

-- No element stands twice in the list.
abbrev pub Distinct : List ℕ → Type 0
Distinct [] = Unit
Distinct (x ∷ xs) = (elem x xs ≡ false) × Distinct xs

abbrev pub Subset : List ℕ → List ℕ → Type 0
Subset xs ys = (a : ℕ) → elem a xs ≡ true → elem a ys ≡ true

-- How often an element stands in the list.
abbrev pub count : ℕ → List ℕ → ℕ
count a [] = 0
count a (x ∷ xs) = (if a == x then 1 else 0) + count a xs

abbrev remove : ℕ → List ℕ → List ℕ
remove a [] = []
remove a (x ∷ xs) = let rest = remove a xs in if a == x then xs else x ∷ rest

length-remove : (a : ℕ) (xs : List ℕ) → elem a xs ≡ true → suc (length (remove a xs)) ≡ length xs
length-remove a [] h = cc
length-remove a (x ∷ xs) h = ground (arith, length-remove a xs)

elem-remove :
    (a b : ℕ) (xs : List ℕ) → elem b xs ≡ true → (b == a) ≡ false → elem b (remove a xs) ≡ true
elem-remove a b [] h n = cc
elem-remove a b (x ∷ xs) h n = ground (arith, elem-remove a b xs)

pub not_elem_other :
    (a b : ℕ) (xs : List ℕ) → elem a xs ≡ false → elem b xs ≡ true → (b == a) ≡ false
not_elem_other a b [] h m = cc
not_elem_other a b (x ∷ xs) h m = ground (arith, not_elem_other a b xs)

pub elem-append : (a : ℕ) (xs ys : List ℕ) → elem a (xs ++ ys) ≡ (elem a xs || elem a ys)
elem-append a [] ys = refl
elem-append a (x ∷ xs) ys = ground (arith, elem-append a xs ys)

-- A list without repetitions is no longer than one that has all its elements.
pub length-le-Subset : (xs ys : List ℕ) → Distinct xs → Subset xs ys → length xs ≤ length ys
length-le-Subset [] ys d s = omega arith
length-le-Subset (x ∷ xs) ys d s =
    let there : elem x ys ≡ true = s x (ground arith) in
    let smaller = length-remove x ys there in
    let rest =
      length-le-Subset xs (remove x ys) d.1
        (λ a m. elem-remove x a ys (s a (ground arith)) (not_elem_other x a xs d.0 m)) in
    omega arith

-- If it is as long as the other, it has all the elements of the other.
pub Subset_of_length :
    (xs ys : List ℕ) → Distinct xs → Subset xs ys → length ys ≤ length xs → Subset ys xs
Subset_of_length xs ys d s h a m = elim (Bool-cases (elem a xs)) [
  | inl there ↦ there
  | inr out ↦
      let more : suc (length xs) ≤ length ys =
        length-le-Subset (a ∷ xs) ys (out, d)
          (λ b k. elim (Bool-cases (b == a)) [
            | inl same ↦ ground arith
            | inr other ↦ s b (ground arith)
          ]) in
      absurd (omega arith)
]

-- A single element added at the end.
pub Distinct-concat :
    (a : ℕ) (xs : List ℕ) → Distinct xs → elem a xs ≡ false → Distinct (xs ++ a ∷ [])
Distinct-concat a [] d n = (refl, tt)
Distinct-concat a (x ∷ xs) d n =
    let k = elem-append x xs (a ∷ []) in (ground arith, Distinct-concat a xs d.1 (ground arith))

-- The list has an element, or does not.
pub elem_of_count : (a : ℕ) (xs : List ℕ) → elem a xs ≡ false → count a xs ≡ 0
elem_of_count a [] h = refl
elem_of_count a (x ∷ xs) h = ground (arith, elem_of_count a xs)

module _ {ℓ κ μ} {A : Type ℓ} {P : A → Type κ} {Q : A → Type μ} where
  pub All-map : (f : (a : A) → P a → Q a) (xs : List A) → All P xs → All Q xs
  All-map f [] p = tt
  All-map f (x ∷ xs) p = (f x p.0, All-map f xs p.1)

module _ {ℓ κ μ ν} {A : Type ℓ} {P : A → Type κ} {Q : A → Type μ} {R : A → Type ν} where
  pub All-map2 : (f : (a : A) → P a → Q a → R a) (xs : List A) → All P xs → All Q xs → All R xs
  All-map2 f [] p q = tt
  All-map2 f (x ∷ xs) p q = (f x p.0 q.0, All-map2 f xs p.1 q.1)

module _ {A : Type 0} where
  -- The value stands in the list.
  abbrev pub Has : A → List A → Type 0
  Has a [] = ⊥
  Has a (x ∷ xs) = (a ≡ x) ⊎ Has a xs

  pub Has-append_left : (a : A) (xs ys : List A) → Has a xs → Has a (xs ++ ys)
  Has-append_left a [] ys h = absurd h
  Has-append_left a (x ∷ xs) ys (inl e) = inl e
  Has-append_left a (x ∷ xs) ys (inr h) = inr (Has-append_left a xs ys h)

  pub Has-append_right : (a : A) (xs ys : List A) → Has a ys → Has a (xs ++ ys)
  Has-append_right a [] ys h = h
  Has-append_right a (x ∷ xs) ys h = inr (Has-append_right a xs ys h)

  pub Has-split : (a : A) (xs ys : List A) → Has a (xs ++ ys) → Has a xs ⊎ Has a ys
  Has-split a [] ys h = inr h
  Has-split a (x ∷ xs) ys (inl e) = inl (inl e)
  Has-split a (x ∷ xs) ys (inr h) = elim (Has-split a xs ys h) [
    | inl l ↦ inl (inr l)
    | inr r ↦ inr r
  ]

  -- The first value that passes a test, or none does.
  pub find_cases :
      (p : A → Bool) (xs : List A)
      → ((a : A) × (find p xs ≡ some a) × (p a ≡ true) × Has a xs)
        ⊎ (find p xs ≡ none) × All (λ x. p x ≡ false) xs
  find_cases p [] = inr (refl, tt)
  find_cases p (x ∷ xs) = elim (Bool-cases (p x)) [
    | inl pass ↦ inl (x, rw pass refl, pass, inl refl)
    | inr fail ↦ elim (find_cases p xs) [
      | inl (a, e, q, h) ↦ inl (a, rw fail e, q, inr h)
      | inr (e, q) ↦ inr (rw fail e, (fail, q))
    ]
  ]

  pub Has-select :
      (a : A) (p : A → Bool) (xs : List A) → Has a xs → p a ≡ true → Has a (select p xs)
  Has-select a p [] h q = absurd h
  Has-select a p (x ∷ xs) (inl e) q = rw (ap p (sym e) ∙ q) (inl e)
  Has-select a p (x ∷ xs) (inr h) q = elim (Bool-cases (p x)) [
    | inl pass ↦ rw pass (inr (Has-select a p xs h q))
    | inr fail ↦ rw fail (Has-select a p xs h q)
  ]

  pub Has-of_select :
      (a : A) (p : A → Bool) (xs : List A) → Has a (select p xs) → Has a xs × (p a ≡ true)
  Has-of_select a p [] h = absurd h
  Has-of_select a p (x ∷ xs) h = elim (Bool-cases (p x)) [
    | inl pass ↦
        (let k = rw pass at h in
          elim k [
            | inl e ↦ (inl e, ap p e ∙ pass)
            | inr k ↦ (let r = Has-of_select a p xs k in (inr r.0, r.1))
          ])
    | inr fail ↦ (let k = rw fail at h in let r = Has-of_select a p xs k in (inr r.0, r.1))
  ]

pub All-Has {κ} : {A : Type 0} (P : A → Type κ) (a : A) (xs : List A) → All P xs → Has a xs → P a
All-Has P a [] p h = absurd h
All-Has P a (x ∷ xs) p (inl e) = subst P (sym e) p.0
All-Has P a (x ∷ xs) p (inr h) = All-Has P a xs p.1 h

pub All-of_Has {κ} :
    {A : Type 0} (P : A → Type κ) (xs : List A) → ((x : A) → Has x xs → P x) → All P xs
All-of_Has P [] f = tt
All-of_Has P (x ∷ xs) f = (f x (inl refl), All-of_Has P xs (λ y h. f y (inr h)))

-- A selection is empty exactly if nothing passes the test.
pub select_nil_iff :
    {A : Type 0} (p : A → Bool) (xs : List A) → (select p xs ≡ []) ↔ All (λ x. p x ≡ false) xs
select_nil_iff p [] = (λ h. tt, λ h. refl)
select_nil_iff p (x ∷ xs) = elim (Bool-cases (p x)) [
  | inl pass ↦ (λ h. absurd (let k = rw pass at h in cc), λ h. absurd (let k = h.0 in ground arith))
  | inr fail ↦
      let rest = select_nil_iff p xs in
      (λ h. (fail, rest.0 (rw fail at h)), λ h. rw fail (rest.1 h.1))
]
