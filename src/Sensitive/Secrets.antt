-- ===== src/Sensitive/Secrets.antt =====
-- Secrets kept in a text column, and the signature of a webhook (app/core/sensitive_data.py).
use test_platform_backend.Prelude.{
  ℕ, ◌≡◌, refl, true, false, some, ◌∷◌, ◌++◌, if◌then◌else◌, Text, codes, same_text, same_text_refl,
  same_text_eq, starts_with, remove_prefix, drop_prefix, append-drop_prefix, Bool-cases, inl, inr,
  ◌⊎◌, ◌↔◌, ap, sym, ◌∙◌, arith,
}
use mathlib.Core.Option
use test_platform_backend.Json.{Json, text}
use test_platform_backend.Sensitive.{
  Cipher, secret_text_prefix, protect_secret_text, reveal_secret_text, str, is_ascii,
  compare_digest, verify_webhook_signature,
}

-- Protecting what is protected changes nothing.
pub protect_secret_text_idem :
    (c : Cipher) (s : Text)
    → protect_secret_text c (protect_secret_text c s) ≡ protect_secret_text c s
unfolding protect_secret_text
protect_secret_text_idem c s = elim (Bool-cases (starts_with secret_text_prefix s)) [
  | inl there ↦ rw there (rw there refl)
  | inr plain ↦ rw plain refl
]

-- A secret that is protected and then revealed comes back, with a cipher that gives back what it
-- took, unless it starts with the prefix of protected texts: it is then kept as it is, and revealed
-- as what the rest decrypts to.
pub reveal_secret_text-protect_secret_text :
    (c : Cipher) (other : Json → Text) (s : Text)
    → ((v : Json) → c.decrypt (c.encrypt v) ≡ some v)
    → reveal_secret_text c other (protect_secret_text c s) ≡ (
        if starts_with secret_text_prefix s
        then Option.map (str other) (c.decrypt (drop_prefix secret_text_prefix s))
        else some s)
unfolding reveal_secret_text protect_secret_text
reveal_secret_text-protect_secret_text c other s inverse =
    elim (Bool-cases (starts_with secret_text_prefix s)) [
      | inl there ↦ rw there (rw there refl)
      | inr plain ↦ rw plain (rw (inverse (text s)) refl)
    ]

cut_signature :
    (e s : Text)
    → remove_prefix (codes "sha256=") s ≡ e
    → (s ≡ codes "sha256=" ++ e) ⊎ (starts_with (codes "sha256=") s ≡ false) × (s ≡ e)
cut_signature e s h = elim (Bool-cases (starts_with (codes "sha256=") s)) [
  | inl there ↦ inl (
      sym (append-drop_prefix (codes "sha256=") s there)
      ∙ ap (λ t. codes "sha256=" ++ t) (rw there at h))
  | inr bare ↦ inr (bare, rw bare at h)
]

uncut_signature :
    (e s : Text)
    → (s ≡ codes "sha256=" ++ e) ⊎ (starts_with (codes "sha256=") s ≡ false) × (s ≡ e)
    → remove_prefix (codes "sha256=") s ≡ e
uncut_signature e s (inl h) = ap (remove_prefix (codes "sha256=")) h
uncut_signature e s (inr (bare, h)) = rw bare h

compare_digest_iff : (e s : Text) → is_ascii e ≡ true → (compare_digest e s ≡ some true) ↔ (s ≡ e)
compare_digest_iff e s ascii = (forth, back)
  where
    forth : compare_digest e s ≡ some true → s ≡ e
    forth h = elim (Bool-cases (same_text e s)) [
      | inl same ↦ sym (same_text_eq e s same)
      | inr other ↦ absurd (ground arith)
    ]

    back : s ≡ e → compare_digest e s ≡ some true
    back h = rw (h, ascii, same_text_refl e) refl

-- With a secret configured, and a digest that is ASCII, a signature is accepted exactly if it is
-- the digest of the timestamp and the body, alone or after `sha256=`.
pub verify_webhook_signature_iff :
    (hexdigest : Text → Text → Text) (k : ℕ) (secret timestamp content signature : Text)
    → ((key message : Text) → is_ascii (hexdigest key message) ≡ true)
    → let expected = hexdigest (k ∷ secret) (timestamp ++ codes "." ++ content) in
      (verify_webhook_signature hexdigest (k ∷ secret) timestamp content signature ≡ some true)
      ↔ (signature ≡ codes "sha256=" ++ expected)
        ⊎ (starts_with (codes "sha256=") signature ≡ false) × (signature ≡ expected)
unfolding verify_webhook_signature
verify_webhook_signature_iff hexdigest k secret timestamp content signature ascii =
    let expected = hexdigest (k ∷ secret) (timestamp ++ codes "." ++ content) in
    let (forth, back) =
      compare_digest_iff expected (remove_prefix (codes "sha256=") signature)
        (ascii (k ∷ secret) (timestamp ++ codes "." ++ content)) in
    (
      λ h. cut_signature expected signature (forth h),
      λ h. back (uncut_signature expected signature h),
    )
