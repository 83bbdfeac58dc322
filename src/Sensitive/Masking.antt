-- ===== src/Sensitive/Masking.antt =====
-- What masking shows of a value (app/core/sensitive_data.py).
use test_platform_backend.Prelude.{
  ◌≡◌, refl, Bool, none, Text, same_text, Bool-cases, Option-cases, inl, inr, ap, sym, arith,
}
use test_platform_backend.Json.{
  Json, Items, Fields, null, boolean, number, text, array, object, no_items, item, no_fields, field,
}
use test_platform_backend.Sensitive.{
  Cipher, encrypt_sensitive, mask_sensitive, mask_items, mask_fields, marked, encrypted_marker,
}
use test_platform_backend.Sensitive.Alike.{
  Alike, AlikeItems, AlikeFields, same_null, same_boolean, same_number, same_words, alike_array,
  alike_object, no_more_items, alike_item, no_more_fields, secret_field, alike_field,
  marked-AlikeFields, encrypt_sensitive-Alike,
}

mutual
  unfolding mask_sensitive

  mask-Alike :
      (sensitive : Text → Bool) (v w : Json)
      → Alike sensitive v w
      → mask_sensitive sensitive v ≡ mask_sensitive sensitive w
  mask-Alike sensitive _ _ same_null = refl
  mask-Alike sensitive _ _ (same_boolean b) = refl
  mask-Alike sensitive _ _ (same_number n) = refl
  mask-Alike sensitive _ _ (same_words s) = refl
  mask-Alike sensitive _ _ (alike_array m) = ap (λ xs. array xs) (mask_items-Alike sensitive _ _ m)
  mask-Alike sensitive _ _ (alike_object m) =
      let rest = mask_fields-Alike sensitive _ _ m in
      elim (marked-AlikeFields sensitive _ _ m) [
        | inl (e, f) ↦ rw (e, f, rest) refl
        | inr (x, y, e, f) ↦ rw (e, f) refl
      ]

  mask_items-Alike :
      (sensitive : Text → Bool) (xs ys : Items)
      → AlikeItems sensitive xs ys
      → mask_items sensitive xs ≡ mask_items sensitive ys
  mask_items-Alike sensitive _ _ no_more_items = refl
  mask_items-Alike sensitive _ _ (alike_item a m) =
      cc (mask-Alike sensitive _ _ a, mask_items-Alike sensitive _ _ m)

  mask_fields-Alike :
      (sensitive : Text → Bool) (fs gs : Fields)
      → AlikeFields sensitive fs gs
      → mask_fields sensitive fs ≡ mask_fields sensitive gs
  mask_fields-Alike sensitive _ _ no_more_fields = refl
  mask_fields-Alike sensitive _ _ (secret_field _ _ _ s m) =
      rw (s, mask_fields-Alike sensitive _ _ m) refl
  mask_fields-Alike sensitive _ _ (alike_field _ _ _ a m) =
      rw (mask-Alike sensitive _ _ a, mask_fields-Alike sensitive _ _ m) refl

-- Values that differ at most below sensitive keys look the same when they are masked.
pub mask_sensitive-Alike :
    (sensitive : Text → Bool) (v w : Json)
    → Alike sensitive v w
    → mask_sensitive sensitive v ≡ mask_sensitive sensitive w
mask_sensitive-Alike = mask-Alike

-- What is stored of a value, masked, is the value masked.
pub mask_sensitive-encrypt_sensitive :
    (c : Cipher) (sensitive : Text → Bool) (v : Json)
    → mask_sensitive sensitive (encrypt_sensitive c sensitive v) ≡ mask_sensitive sensitive v
mask_sensitive-encrypt_sensitive c sensitive v = sym (
    mask-Alike sensitive v (encrypt_sensitive c sensitive v)
      (encrypt_sensitive-Alike c sensitive v))

marked-mask_fields :
    (sensitive : Text → Bool) (fs : Fields)
    → marked fs ≡ none
    → marked (mask_fields sensitive fs) ≡ none
unfolding mask_sensitive
marked-mask_fields sensitive no_fields h = refl
marked-mask_fields sensitive (field k v no_fields) h =
    elim (Bool-cases (same_text k encrypted_marker)) [
      | inl same ↦ absurd (ground arith)
      | inr other ↦ rw other refl
    ]
marked-mask_fields sensitive (field k v (field l w fs)) h = refl

mutual
  unfolding mask_sensitive

  -- Masking what is masked changes nothing.
  pub mask_sensitive_idem :
      (sensitive : Text → Bool) (v : Json)
      → mask_sensitive sensitive (mask_sensitive sensitive v) ≡ mask_sensitive sensitive v
  mask_sensitive_idem sensitive null = refl
  mask_sensitive_idem sensitive (boolean b) = refl
  mask_sensitive_idem sensitive (number n) = refl
  mask_sensitive_idem sensitive (text s) = refl
  mask_sensitive_idem sensitive (array xs) = ap (λ xs. array xs) (mask_items_idem sensitive xs)
  mask_sensitive_idem sensitive (object fs) =
      let rest = mask_fields_idem sensitive fs in
      elim (Option-cases (marked fs)) [
        | inl e ↦ rw e (rw (marked-mask_fields sensitive fs e, rest) refl)
        | inr (v, e) ↦ rw e refl
      ]

  mask_items_idem :
      (sensitive : Text → Bool) (xs : Items)
      → mask_items sensitive (mask_items sensitive xs) ≡ mask_items sensitive xs
  mask_items_idem sensitive no_items = refl
  mask_items_idem sensitive (item v xs) =
      cc (mask_sensitive_idem sensitive v, mask_items_idem sensitive xs)

  mask_fields_idem :
      (sensitive : Text → Bool) (fs : Fields)
      → mask_fields sensitive (mask_fields sensitive fs) ≡ mask_fields sensitive fs
  mask_fields_idem sensitive no_fields = refl
  mask_fields_idem sensitive (field k v fs) =
      let inner = mask_sensitive_idem sensitive v in
      let rest = mask_fields_idem sensitive fs in
      elim (Bool-cases (sensitive k)) [
        | inl secret ↦ rw (secret, rest) refl
        | inr shown ↦ rw shown (rw (inner, rest) refl)
      ]
