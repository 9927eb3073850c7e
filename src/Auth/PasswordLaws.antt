-- ===== src/Auth/PasswordLaws.antt =====
-- internal/platform/auth/password.go: a hash is verified by its password.
use running_tools.Prelude.{ℕ, ◌≡◌, refl, true, false, some, [], ◌∷◌, length, ◌∙◌}
use running_tools.Prelude.Text.{
  Text, text, text_eq, text_eq_refl, split, has_byte, split-append, split_single,
}
use running_tools.Auth.Password.{
  Crypto, costs, argon_memory, argon_time, argon_threads, argon_key_len, argon_salt_len,
  hash_password, verify_password,
}

-- What the libraries document: base64 decodes what it encodes and writes no `$`, Sscanf reads
-- what Sprintf printed, and IDKey returns as many bytes as it is asked for.
pub record Documented (k : Crypto) : Type 0 where
  pub decodes : (s : Text) → k.decode (k.encode s) ≡ some s
  pub plain : (s : Text) → has_byte b'$' (k.encode s) ≡ false
  pub scans : k.scan_costs costs ≡ some (argon_memory, argon_time, argon_threads)
  pub sized : (p s : Text) (t m c n : ℕ) → length (k.argon2 p s t m c n) ≡ n

no_dollar :
    (has_byte b'$' (text "argon2id") ≡ false)
    × (has_byte b'$' (text "v=19") ≡ false)
    × (has_byte b'$' costs ≡ false)
unfolding text
no_dollar = (refl, refl, refl)

module _ (k : Crypto) (doc : Documented k) where
  abbrev derived : Text → Text → Text
  derived salt p = k.argon2 p salt argon_time argon_memory argon_threads argon_key_len

  split-hash_password :
      (salt p : Text)
      → split b'$' (hash_password k salt p)
        ≡ []
          ∷ text "argon2id"
          ∷ text "v=19"
          ∷ costs
          ∷ k.encode salt
          ∷ k.encode (derived salt p)
          ∷ []
  unfolding hash_password
  split-hash_password salt p = rw (
    split-append b'$' [] _ refl,
    split-append b'$' (text "argon2id") _ no_dollar.0,
    split-append b'$' (text "v=19") _ no_dollar.1,
    split-append b'$' costs _ no_dollar.2,
    split-append b'$' (k.encode salt) _ (doc.plain salt),
    split_single b'$' (k.encode (derived salt p)) (doc.plain _),
  )

  verify_password_keys :
      (salt p q : Text)
      → length salt ≡ argon_salt_len
      → verify_password k (hash_password k salt p) q ≡ text_eq (derived salt q) (derived salt p)
  unfolding verify_password
  verify_password_keys salt p q h = rw (split-hash_password salt p) (
      rw
        (
          text_eq_refl (text "argon2id"),
          text_eq_refl (text "v=19"),
          doc.scans,
          doc.decodes salt,
          doc.decodes (derived salt p),
          h,
          doc.sized p salt argon_time argon_memory argon_threads argon_key_len,
        )
        refl)

  -- A password verifies against the hash made of a password, with a salt of 16 bytes, exactly when
  -- Argon2 derives the same key from both; so the password itself does.
  pub verify_password-hash_password :
      (salt p q : Text)
      → length salt ≡ argon_salt_len
      → (verify_password k (hash_password k salt p) q ≡ text_eq (derived salt q) (derived salt p))
        × (verify_password k (hash_password k salt p) p ≡ true)
  verify_password-hash_password salt p q h = (
    verify_password_keys salt p q h,
    verify_password_keys salt p p h ∙ text_eq_refl (derived salt p),
  )
