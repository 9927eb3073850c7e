-- ===== src/Auth/Password.antt =====
-- internal/platform/auth/password.go: password hashes and the rules for a new password.
use running_tools.Prelude.{
  ℕ, ◌+◌, ◌*◌, Bool, false, ◌&&◌, ◌||◌, Option, none, some, List, [], ◌∷◌, ◌++◌, ltb, if◌then◌else◌,
  length, some_of,
}
use running_tools.Prelude.Text.{Text, text, text_eq, split, has_byte}
use running_tools.Auth.Types.{AuthError, short_password, long_password, plain_password}

-- What the program takes from its libraries: `digest` is SHA-256 in hexadecimal; `argon2` is
-- argon2.IDKey with its password, salt, time, memory, threads and length; `encode` and `decode`
-- are base64.RawStdEncoding; `scan_costs` is fmt.Sscanf with "m=%d,t=%d,p=%d" into a uint32, a
-- uint32 and a uint8.
pub record Crypto : Type 0 where
  pub digest : Text → Text
  pub argon2 : Text → Text → ℕ → ℕ → ℕ → ℕ → Text
  pub encode : Text → Text
  pub decode : Text → Option Text
  pub scan_costs : Text → Option (ℕ × ℕ × ℕ)

abbrev pub argon_memory : ℕ
argon_memory = 64 * 1024

abbrev pub argon_time : ℕ
argon_time = 3

abbrev pub argon_threads : ℕ
argon_threads = 2

abbrev pub argon_key_len : ℕ
argon_key_len = 32

abbrev pub argon_salt_len : ℕ
argon_salt_len = 16

abbrev pub costs : Text
costs = text "m=65536,t=3,p=2"

-- Whether a number lies outside its limits, which are part of them.
abbrev outside : ℕ → ℕ → ℕ → Bool
outside lo hi n = ltb n lo || ltb hi n

module _ (k : Crypto) where
  -- hashPassword with the salt that it draws.
  unfoldable pub hash_password : Text → Text → Text
  hash_password salt password =
      b'$'
      ∷ (text "argon2id"
          ++ (b'$'
              ∷ (text "v=19"
                  ++ (b'$'
                      ∷ (costs
                          ++ (b'$'
                              ∷ (k.encode salt
                                  ++ (b'$'
                                      ∷ k.encode (
                                          k.argon2 password salt argon_time argon_memory
                                            argon_threads argon_key_len)))))))))

  -- The part of verifyPassword after the costs are read.
  unfoldable pub verify_decoded : Text → ℕ → ℕ → ℕ → Option Text → Option Text → Bool
  verify_decoded password memory iterations threads (some salt) (some expected) =
      if outside (8 * 1024) (256 * 1024) memory
        || outside 1 10 iterations
        || outside 1 16 threads
        || outside 8 64 (length salt)
        || outside 16 64 (length expected)
      then false
      else text_eq (k.argon2 password salt iterations memory threads (length expected)) expected
  verify_decoded password memory iterations threads none expected = false
  verify_decoded password memory iterations threads (some salt) none = false

  unfoldable pub verify_parts : List Text → Text → Bool
  verify_parts (before ∷ name ∷ version ∷ numbers ∷ salt ∷ hash ∷ []) password =
      if text_eq name (text "argon2id") && text_eq version (text "v=19")
      then elim (k.scan_costs numbers) [
        | none ↦ false
        | some (memory, iterations, threads) ↦
            verify_decoded password memory iterations threads (k.decode salt) (k.decode hash)
      ]
      else false
  verify_parts _ password = false

  unfoldable pub verify_password : Text → Text → Bool
  unfolding verify_parts verify_decoded
  verify_password encoded password = verify_parts (split b'$' encoded) password

-- The four kinds of characters. No byte of a character beyond ASCII is in one of them.
unfoldable pub character_classes : List Text
character_classes =
    text "abcdefghijklmnopqrstuvwxyz"
    ∷ text "ABCDEFGHIJKLMNOPQRSTUVWXYZ"
    ∷ text "0123456789"
    ∷ text "!@#$%^&*()-_=+[]{};:,.?/"
    ∷ []

unfoldable pub count_classes : List Text → Text → ℕ
count_classes [] password = 0
count_classes (checks ∷ rest) password =
    (if some_of (λ char. has_byte char checks) password then 1 else 0) + count_classes rest password

-- validateNewPassword; no error is `none`.
unfoldable pub validate_new_password : Text → Option AuthError
validate_new_password password =
    if ltb (length password) 10
    then some short_password
    else if ltb 128 (length password)
    then some long_password
    else if ltb (count_classes character_classes password) 2
    then some plain_password
    else none
