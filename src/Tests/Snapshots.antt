-- ===== src/Tests/Snapshots.antt =====
-- A stored request with a header and a body, of which two keys are sensitive.
use test_platform_backend.Prelude.{
  ℕ, ◌≡◌, refl, Bool, true, false, some, [], if◌then◌else◌, Text, codes, starts_with, drop_prefix,
}
use mathlib.Core.Option
use test_platform_backend.Json.{Json, null, number, array, object, no_items, item, no_fields, field}
use test_platform_backend.Sensitive.{
  is_sensitive_key, encrypt_sensitive, decrypt_sensitive, mask_sensitive, secret_text_prefix,
  protect_secret_text, reveal_secret_text, str,
}
use test_platform_backend.Sensitive.Alike.{
  Alike, alike_object, alike_field, secret_field, no_more_fields, same_number,
}
use test_platform_backend.Sensitive.Masking.{mask_sensitive-Alike}
use test_platform_backend.Sensitive.Snapshot.{is_unmarked, decrypt_sensitive-encrypt_sensitive}
use test_platform_backend.Sensitive.Secrets.{reveal_secret_text-protect_secret_text}
use test_platform_backend.Tests.Codec.{codec, codec_inverse}

-- Keys that are in lower case already.
abbrev sensitive : Text → Bool
sensitive = is_sensitive_key (λ key. key)

abbrev snapshot : ℕ → Json
snapshot pin = object (
    field (codes "user-password") (number pin)
      (field (codes "items") (array (item (number 5) (item null no_items))) no_fields))

snapshot_unmarked : is_unmarked sensitive (snapshot 7) ≡ true
unfolding is_unmarked is_sensitive_key
snapshot_unmarked = refl

password_sensitive : sensitive (codes "user-password") ≡ true
unfolding is_sensitive_key
password_sensitive = refl

items_shown : sensitive (codes "items") ≡ false
unfolding is_sensitive_key
items_shown = refl

decrypt_sensitive-encrypt_sensitive_example :
    decrypt_sensitive codec (encrypt_sensitive codec sensitive (snapshot 7)) ≡ some (snapshot 7)
decrypt_sensitive-encrypt_sensitive_example =
    decrypt_sensitive-encrypt_sensitive codec codec_inverse sensitive (snapshot 7) snapshot_unmarked

abbrev login : ℕ → Json
login pin =
    object (field (codes "id") (number 3) (field (codes "user-password") (number pin) no_fields))

abbrev logins_alike : Alike sensitive (login 7) (login 8)
logins_alike = alike_object (
    alike_field (codes "id") (number 3) (number 3) (same_number 3) (
      secret_field (codes "user-password") (number 7) (number 8) password_sensitive no_more_fields))

mask_sensitive-Alike_example :
    mask_sensitive sensitive (login 7) ≡ mask_sensitive sensitive (login 8)
mask_sensitive-Alike_example = mask_sensitive-Alike sensitive (login 7) (login 8) logins_alike

reveal_secret_text-protect_secret_text_example :
    reveal_secret_text codec (λ _. []) (protect_secret_text codec (codes "pin")) ≡ (
      if starts_with secret_text_prefix (codes "pin")
      then Option.map (str (λ _. [])) (codec.decrypt (drop_prefix secret_text_prefix (codes "pin")))
      else some (codes "pin"))
reveal_secret_text-protect_secret_text_example =
    reveal_secret_text-protect_secret_text codec (λ _. []) (codes "pin") codec_inverse
