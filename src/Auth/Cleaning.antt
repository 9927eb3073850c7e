-- ===== src/Auth/Cleaning.antt =====
-- internal/platform/auth/store.go: DeleteExpired removes only rows that open nothing.
use running_tools.Prelude.{
  ℕ, ◌≤◌, ◌≡◌, refl, true, arith, find-keep, Option, none, some, inl, inr, Bool-cases,
}
use running_tools.Prelude.Text.{Text, text, trim_space, to_lower, has_prefix}
use running_tools.Auth.Types.{SessionRow, TokenRow, Database, Call}
use running_tools.Auth.Database.{
  opens_session, opens_token, kept_session, kept_token, delete_expired, find_session,
  find_api_token,
}
use running_tools.Auth.Password.{Crypto}
use running_tools.Auth.Service.{
  Request, authenticate, authenticate_token, authenticate_cookie, cleanup,
}

open-kept_session :
    (hash : Text) (now later : ℕ) (r : SessionRow)
    → now ≤ later
    → opens_session hash later r ≡ true
    → kept_session now r ≡ true
open-kept_session hash now later r h o = ground arith

open-kept_token :
    (hash : Text) (now later : ℕ) (t : TokenRow)
    → now ≤ later
    → opens_token hash later t ≡ true
    → kept_token now t ≡ true
open-kept_token hash now later t h o = ground arith

module _ (done : ℕ) (c c' : Call) (d : Database) (h : c.now ≤ c'.now) where
  find_session-cleanup :
      (hash : Text) → find_session c' hash (cleanup done c d) ≡ find_session c' hash d
  unfolding find_session cleanup delete_expired
  find_session-cleanup hash = ground (
    arith,
    find-keep (opens_session hash c'.now) (kept_session c.now) d.sessions
        (λ r o. open-kept_session hash c.now c'.now r h o),
  )

  find_api_token-cleanup :
      (hash : Text) → find_api_token c' hash (cleanup done c d) ≡ find_api_token c' hash d
  unfolding find_api_token cleanup delete_expired
  find_api_token-cleanup hash = ground (
    arith,
    find-keep (opens_token hash c'.now) (kept_token c.now) d.tokens
        (λ r o. open-kept_token hash c.now c'.now r h o),
  )

  token-cleanup :
      (k : Crypto) (token : Text)
      → (authenticate_token k c' token (cleanup done c d)).1 ≡ (authenticate_token k c' token d).1
  unfolding authenticate_token
  token-cleanup k token = ground (arith, find_api_token-cleanup (k.digest token))

  cookie-cleanup :
      (k : Crypto) (cookie : Option Text)
      → (authenticate_cookie k c' cookie (cleanup done c d)).1
        ≡ (authenticate_cookie k c' cookie d).1
  unfolding authenticate_cookie
  cookie-cleanup k none = refl
  cookie-cleanup k (some value) = ground (arith, find_session-cleanup (k.digest value))

  authenticate-same :
      (k : Crypto) (request : Request) (d' : Database)
      → ((token : Text)
          → (authenticate_token k c' token d').1 ≡ (authenticate_token k c' token d).1)
      → ((cookie : Option Text)
          → (authenticate_cookie k c' cookie d').1 ≡ (authenticate_cookie k c' cookie d).1)
      → (authenticate k c' request d').1 ≡ (authenticate k c' request d).1
  unfolding authenticate
  authenticate-same k request d' f g =
      elim (Bool-cases
        (has_prefix (to_lower (trim_space request.authorization)) (text "bearer "))) [
          | inl e ↦ rw e (f _)
          | inr e ↦ rw e (g request.cookie)
        ]

  -- Cleanup, however many of its statements run, changes the answer of Authenticate to no request
  -- at that time or later.
  pub authenticate-cleanup :
      (k : Crypto) (request : Request)
      → (authenticate k c' request (cleanup done c d)).1 ≡ (authenticate k c' request d).1
  authenticate-cleanup k request =
      authenticate-same k request (cleanup done c d) (token-cleanup k) (cookie-cleanup k)
