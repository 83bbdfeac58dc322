-- ===== src/Sensitive/Snapshot.antt =====
-- Reading back what was stored of a value (app/core/sensitive_data.py).
use test_platform_backend.Prelude.{
  ◌≡◌, refl, Bool, true, false, not, ◌&&◌, ◌||◌, none, some, is_some, Text, same_text, Bool-cases,
  inl, inr, arith,
}
use test_platform_backend.Json.{
  Json, Items, Fields, null, boolean, number, text, array, object, no_items, item, no_fields, field,
}
use test_platform_backend.Sensitive.{
  Cipher, encrypt_sensitive, encrypt_items, encrypt_fields, decrypt_sensitive, decrypt_items,
  decrypt_fields, marked, encrypted, encrypted_marker,
}

-- Outside of sensitive values, no dictionary has the marker as its only key.
unfoldable mutual
  pub is_unmarked : (Text → Bool) → Json → Bool
  is_unmarked sensitive (object fs) = not (is_some (marked fs)) && unmarked_fields sensitive fs
  is_unmarked sensitive (array xs) = unmarked_items sensitive xs
  is_unmarked sensitive null = true
  is_unmarked sensitive (boolean b) = true
  is_unmarked sensitive (number n) = true
  is_unmarked sensitive (text s) = true

  pub unmarked_items : (Text → Bool) → Items → Bool
  unmarked_items sensitive no_items = true
  unmarked_items sensitive (item v xs) = is_unmarked sensitive v && unmarked_items sensitive xs

  pub unmarked_fields : (Text → Bool) → Fields → Bool
  unmarked_fields sensitive no_fields = true
  unmarked_fields sensitive (field k v fs) =
      (sensitive k || is_unmarked sensitive v) && unmarked_fields sensitive fs

marked-encrypt_fields :
    (c : Cipher) (sensitive : Text → Bool) (fs : Fields)
    → is_some (marked fs) ≡ false
    → marked (encrypt_fields c sensitive fs) ≡ none
unfolding encrypt_sensitive
marked-encrypt_fields c sensitive no_fields h = refl
marked-encrypt_fields c sensitive (field k v no_fields) h =
    elim (Bool-cases (same_text k encrypted_marker)) [
      | inl same ↦ absurd (ground arith)
      | inr other ↦ rw other refl
    ]
marked-encrypt_fields c sensitive (field k v (field l w fs)) h = refl

module _ (c : Cipher) (inverse : (v : Json) → c.decrypt (c.encrypt v) ≡ some v)
    (sensitive : Text → Bool) where
  decrypt_encrypted : (v : Json) → decrypt_sensitive c (encrypted c v) ≡ some v
  unfolding decrypt_sensitive
  decrypt_encrypted v = inverse v

  mutual
    unfolding decrypt_sensitive encrypt_sensitive is_unmarked

    decrypt-encrypt :
        (v : Json)
        → is_unmarked sensitive v ≡ true
        → decrypt_sensitive c (encrypt_sensitive c sensitive v) ≡ some v
    decrypt-encrypt null h = refl
    decrypt-encrypt (boolean b) h = refl
    decrypt-encrypt (number n) h = refl
    decrypt-encrypt (text s) h = refl
    decrypt-encrypt (array xs) h = rw (decrypt_items-encrypt_items xs h) refl
    decrypt-encrypt (object fs) h =
        let rest = decrypt_fields-encrypt_fields fs (ground arith) in
        rw (marked-encrypt_fields c sensitive fs (ground arith), rest) refl

    decrypt_items-encrypt_items :
        (xs : Items)
        → unmarked_items sensitive xs ≡ true
        → decrypt_items c (encrypt_items c sensitive xs) ≡ some xs
    decrypt_items-encrypt_items no_items h = refl
    decrypt_items-encrypt_items (item v xs) h =
        rw (decrypt-encrypt v (ground arith), decrypt_items-encrypt_items xs (ground arith)) refl

    decrypt_fields-encrypt_fields :
        (fs : Fields)
        → unmarked_fields sensitive fs ≡ true
        → decrypt_fields c (encrypt_fields c sensitive fs) ≡ some fs
    decrypt_fields-encrypt_fields no_fields h = refl
    decrypt_fields-encrypt_fields (field k v fs) h =
        let rest = decrypt_fields-encrypt_fields fs (ground arith) in
        elim (Bool-cases (sensitive k)) [
          | inl secret ↦ rw secret (rw (decrypt_encrypted v, rest) refl)
          | inr shown ↦ rw shown (rw (decrypt-encrypt v (ground arith), rest) refl)
        ]

  -- A value that is encrypted and then decrypted comes back, with a cipher that gives back what it
  -- took, if no dictionary outside of the sensitive values has the marker as its only key.
  pub decrypt_sensitive-encrypt_sensitive :
      (v : Json)
      → is_unmarked sensitive v ≡ true
      → decrypt_sensitive c (encrypt_sensitive c sensitive v) ≡ some v
  decrypt_sensitive-encrypt_sensitive = decrypt-encrypt
