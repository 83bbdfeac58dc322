-- ===== src/Sensitive.antt =====
-- app/core/sensitive_data.py: what is encrypted in a stored snapshot, and what is masked in one
-- that is shown. A value is a JSON tree whose texts are lists of code points; Fernet with json, the
-- HMAC, and `str.lower` are arguments.
pub mod Alike
pub mod Masking
pub mod Snapshot
pub mod Secrets
use test_platform_backend.Prelude.{
  ℕ, ◌≡◌, refl, Bool, true, false, not, ◌&&◌, ◌||◌, Option, none, some, List, [], ◌∷◌, ◌++◌, ◌==◌,
  ltb, map, any, if◌then◌else◌, Text, codes, same_text, starts_with, occurs_in, remove_prefix,
}
use mathlib.Core.Option
use test_platform_backend.Json.{
  Json, Items, Fields, null, boolean, number, text, array, object, no_items, item, no_fields, field,
}

-- `encrypt` is `_encrypt` without the dictionary around the token; `decrypt` is `_decrypt`, none if
-- it raises.
pub record Cipher : Type 0 where
  pub encrypt : Json → Text
  pub decrypt : Text → Option Json

-- `SENSITIVE_KEYS`
abbrev pub sensitive_keys : List Text
sensitive_keys =
    codes "authorization"
    ∷ codes "cookie"
    ∷ codes "password"
    ∷ codes "passwd"
    ∷ codes "secret"
    ∷ codes "token"
    ∷ codes "api_key"
    ∷ codes "apikey"
    ∷ codes "access_key"
    ∷ codes "client_secret"
    ∷ []

abbrev pub encrypted_marker : Text
encrypted_marker = codes "__encrypted_value__"

abbrev pub secret_text_prefix : Text
secret_text_prefix = codes "enc:v1:"

abbrev pub stars : Json
stars = text (codes "***")

-- `replace("-", "_")`
abbrev pub underscored : ℕ → ℕ
underscored c = if c == b'-' then b'_' else c

-- `_is_sensitive_key`
unfoldable pub is_sensitive_key : (Text → Text) → Text → Bool
is_sensitive_key lower key =
    any (λ part. occurs_in part (map underscored (lower key))) sensitive_keys

-- `_encrypt`
abbrev pub encrypted : Cipher → Json → Json
encrypted c v = object (field encrypted_marker (text (c.encrypt v)) no_fields)

-- `encrypt_sensitive`, `sensitive` being `_is_sensitive_key`.
unfoldable mutual
  pub encrypt_sensitive : Cipher → (Text → Bool) → Json → Json
  encrypt_sensitive c sensitive (object fs) = object (encrypt_fields c sensitive fs)
  encrypt_sensitive c sensitive (array xs) = array (encrypt_items c sensitive xs)
  encrypt_sensitive c sensitive null = null
  encrypt_sensitive c sensitive (boolean b) = boolean b
  encrypt_sensitive c sensitive (number n) = number n
  encrypt_sensitive c sensitive (text s) = text s

  pub encrypt_items : Cipher → (Text → Bool) → Items → Items
  encrypt_items c sensitive no_items = no_items
  encrypt_items c sensitive (item v xs) =
      item (encrypt_sensitive c sensitive v) (encrypt_items c sensitive xs)

  pub encrypt_fields : Cipher → (Text → Bool) → Fields → Fields
  encrypt_fields c sensitive no_fields = no_fields
  encrypt_fields c sensitive (field k v fs) =
      let inner = encrypt_sensitive c sensitive v in
      field k (if sensitive k then encrypted c v else inner) (encrypt_fields c sensitive fs)

-- `set(value) == {ENCRYPTED_MARKER}`, with the value of the marker.
abbrev pub marked : Fields → Option Json
marked no_fields = none
marked (field k v no_fields) = if same_text k encrypted_marker then some v else none
marked (field k v (field l w fs)) = none

-- `_decrypt(value[ENCRYPTED_MARKER])`; what is not a text has no `encode`.
abbrev pub decrypt_token : Cipher → Json → Option Json
decrypt_token c (text token) = c.decrypt token
decrypt_token c _ = none

abbrev pub decrypt_marked : Cipher → Option Json → Option Json → Option Json
decrypt_marked c none rest = rest
decrypt_marked c (some token) rest = decrypt_token c token

abbrev pub both_items : Option Json → Option Items → Option Items
both_items none xs = none
both_items (some v) xs = Option.map (λ ys. item v ys) xs

abbrev pub both_fields : Text → Option Json → Option Fields → Option Fields
both_fields k none fs = none
both_fields k (some v) fs = Option.map (λ gs. field k v gs) fs

-- `decrypt_sensitive`, none if it raises.
unfoldable mutual
  pub decrypt_sensitive : Cipher → Json → Option Json
  decrypt_sensitive c (object fs) =
      decrypt_marked c (marked fs) (Option.map (λ gs. object gs) (decrypt_fields c fs))
  decrypt_sensitive c (array xs) = Option.map (λ ys. array ys) (decrypt_items c xs)
  decrypt_sensitive c null = some null
  decrypt_sensitive c (boolean b) = some (boolean b)
  decrypt_sensitive c (number n) = some (number n)
  decrypt_sensitive c (text s) = some (text s)

  pub decrypt_items : Cipher → Items → Option Items
  decrypt_items c no_items = some no_items
  decrypt_items c (item v xs) = both_items (decrypt_sensitive c v) (decrypt_items c xs)

  pub decrypt_fields : Cipher → Fields → Option Fields
  decrypt_fields c no_fields = some no_fields
  decrypt_fields c (field k v fs) = both_fields k (decrypt_sensitive c v) (decrypt_fields c fs)

abbrev pub mask_marked : Option Json → Json → Json
mask_marked none rest = rest
mask_marked (some token) rest = stars

-- `mask_sensitive`
unfoldable mutual
  pub mask_sensitive : (Text → Bool) → Json → Json
  mask_sensitive sensitive (object fs) = mask_marked (marked fs) (object (mask_fields sensitive fs))
  mask_sensitive sensitive (array xs) = array (mask_items sensitive xs)
  mask_sensitive sensitive null = null
  mask_sensitive sensitive (boolean b) = boolean b
  mask_sensitive sensitive (number n) = number n
  mask_sensitive sensitive (text s) = text s

  pub mask_items : (Text → Bool) → Items → Items
  mask_items sensitive no_items = no_items
  mask_items sensitive (item v xs) = item (mask_sensitive sensitive v) (mask_items sensitive xs)

  pub mask_fields : (Text → Bool) → Fields → Fields
  mask_fields sensitive no_fields = no_fields
  mask_fields sensitive (field k v fs) =
      let inner = mask_sensitive sensitive v in
      field k (if sensitive k then stars else inner) (mask_fields sensitive fs)

-- `str(value)` of what is not a text is an argument.
abbrev pub str : (Json → Text) → Json → Text
str other (text s) = s
str other v = other v

-- `protect_secret_text`
unfoldable pub protect_secret_text : Cipher → Text → Text
protect_secret_text c s =
    if starts_with secret_text_prefix s then s else secret_text_prefix ++ c.encrypt (text s)

-- `reveal_secret_text`, none if it raises.
unfoldable pub reveal_secret_text : Cipher → (Json → Text) → Text → Option Text
reveal_secret_text c other s =
    if starts_with secret_text_prefix s
    then Option.map (str other) (c.decrypt (remove_prefix secret_text_prefix s))
    else some s

abbrev pub is_ascii : Text → Bool
is_ascii [] = true
is_ascii (c ∷ s) = ltb c 128 && is_ascii s

-- `hmac.compare_digest(expected, supplied)` raises (none) for what is not ASCII.
abbrev pub compare_digest : Text → Text → Option Bool
compare_digest expected supplied =
    if is_ascii expected && is_ascii supplied then some (same_text expected supplied) else none

-- `verify_webhook_signature`; `hexdigest` is that of the HMAC with a key and a message.
unfoldable pub verify_webhook_signature :
    (Text → Text → Text) → Text → Text → Text → Text → Option Bool
verify_webhook_signature hexdigest [] timestamp content signature = some false
verify_webhook_signature hexdigest (k ∷ secret) timestamp content signature =
    compare_digest (hexdigest (k ∷ secret) (timestamp ++ codes "." ++ content))
      (remove_prefix (codes "sha256=") signature)
