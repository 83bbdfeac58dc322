-- ===== src/Sensitive/Alike.antt =====
-- Values that differ at most below sensitive keys (app/core/sensitive_data.py).
use test_platform_backend.Prelude.{
  ℕ, ◌≡◌, refl, Bool, true, none, some, Text, same_text, Bool-cases, inl, inr, ◌⊎◌,
}
use test_platform_backend.Json.{
  Json, Items, Fields, null, boolean, number, text, array, object, no_items, item, no_fields, field,
}
use test_platform_backend.Sensitive.{
  Cipher, encrypted, encrypted_marker, encrypt_sensitive, encrypt_items, encrypt_fields, marked,
}

-- The same tree with the same keys, but for the values of sensitive keys.
mutual
  pub data Alike (sensitive : Text → Bool) : Json → Json → Type 0 where
    same_null : Alike sensitive null null
    same_boolean : (b : Bool) → Alike sensitive (boolean b) (boolean b)
    same_number : (n : ℕ) → Alike sensitive (number n) (number n)
    same_words : (s : Text) → Alike sensitive (text s) (text s)
    alike_array :
        {xs ys : Items} → AlikeItems sensitive xs ys → Alike sensitive (array xs) (array ys)
    alike_object :
        {fs gs : Fields} → AlikeFields sensitive fs gs → Alike sensitive (object fs) (object gs)

  pub data AlikeItems (sensitive : Text → Bool) : Items → Items → Type 0 where
    no_more_items : AlikeItems sensitive no_items no_items
    alike_item :
        {v w : Json} {xs ys : Items}
        → Alike sensitive v w
        → AlikeItems sensitive xs ys
        → AlikeItems sensitive (item v xs) (item w ys)

  pub data AlikeFields (sensitive : Text → Bool) : Fields → Fields → Type 0 where
    no_more_fields : AlikeFields sensitive no_fields no_fields
    secret_field :
        (k : Text) (v w : Json) {fs gs : Fields}
        → sensitive k ≡ true
        → AlikeFields sensitive fs gs
        → AlikeFields sensitive (field k v fs) (field k w gs)
    alike_field :
        (k : Text) (v w : Json) {fs gs : Fields}
        → Alike sensitive v w
        → AlikeFields sensitive fs gs
        → AlikeFields sensitive (field k v fs) (field k w gs)

one_key :
    (k : Text) (v w : Json)
    → let fs = field k v no_fields in
      let gs = field k w no_fields in
      (marked fs ≡ none) × (marked gs ≡ none)
      ⊎ (x : Json) × (y : Json) × (marked fs ≡ some x) × (marked gs ≡ some y)
one_key k v w = elim (Bool-cases (same_text k encrypted_marker)) [
  | inl same ↦ rw same (inr (v, w, refl, refl))
  | inr other ↦ rw other (inl (refl, refl))
]

-- A dictionary has the marker as its only key, or it does not.
pub marked-AlikeFields :
    (sensitive : Text → Bool) (fs gs : Fields)
    → AlikeFields sensitive fs gs
    → (marked fs ≡ none) × (marked gs ≡ none)
      ⊎ (v : Json) × (w : Json) × (marked fs ≡ some v) × (marked gs ≡ some w)
marked-AlikeFields sensitive _ _ no_more_fields = inl (refl, refl)
marked-AlikeFields sensitive _ _ (secret_field k v w s no_more_fields) = one_key k v w
marked-AlikeFields sensitive _ _ (alike_field k v w a no_more_fields) = one_key k v w
marked-AlikeFields sensitive _ _ (secret_field _ _ _ s (secret_field _ _ _ t m)) = inl (refl, refl)
marked-AlikeFields sensitive _ _ (secret_field _ _ _ s (alike_field _ _ _ t m)) = inl (refl, refl)
marked-AlikeFields sensitive _ _ (alike_field _ _ _ s (secret_field _ _ _ t m)) = inl (refl, refl)
marked-AlikeFields sensitive _ _ (alike_field _ _ _ s (alike_field _ _ _ t m)) = inl (refl, refl)

-- A value and what is stored of it.
mutual
  unfolding encrypt_sensitive

  pub encrypt_sensitive-Alike :
      (c : Cipher) (sensitive : Text → Bool) (v : Json)
      → Alike sensitive v (encrypt_sensitive c sensitive v)
  encrypt_sensitive-Alike c sensitive null = same_null
  encrypt_sensitive-Alike c sensitive (boolean b) = same_boolean b
  encrypt_sensitive-Alike c sensitive (number n) = same_number n
  encrypt_sensitive-Alike c sensitive (text s) = same_words s
  encrypt_sensitive-Alike c sensitive (array xs) = alike_array (encrypt_items-Alike c sensitive xs)
  encrypt_sensitive-Alike c sensitive (object fs) =
      alike_object (encrypt_fields-Alike c sensitive fs)

  encrypt_items-Alike :
      (c : Cipher) (sensitive : Text → Bool) (xs : Items)
      → AlikeItems sensitive xs (encrypt_items c sensitive xs)
  encrypt_items-Alike c sensitive no_items = no_more_items
  encrypt_items-Alike c sensitive (item v xs) =
      alike_item (encrypt_sensitive-Alike c sensitive v) (encrypt_items-Alike c sensitive xs)

  encrypt_fields-Alike :
      (c : Cipher) (sensitive : Text → Bool) (fs : Fields)
      → AlikeFields sensitive fs (encrypt_fields c sensitive fs)
  encrypt_fields-Alike c sensitive no_fields = no_more_fields
  encrypt_fields-Alike c sensitive (field k v fs) =
      let inner = encrypt_sensitive-Alike c sensitive v in
      let rest = encrypt_fields-Alike c sensitive fs in
      elim (Bool-cases (sensitive k)) [
        | inl secret ↦ rw secret (secret_field k v (encrypted c v) secret rest)
        | inr shown ↦ rw shown (alike_field k v (encrypt_sensitive c sensitive v) inner rest)
      ]
