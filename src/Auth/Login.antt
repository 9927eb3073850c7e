-- ===== src/Auth/Login.antt =====
-- internal/platform/auth/service.go: Login, cut at its two limits.
use running_tools.Prelude.{
  ℕ, ◌+◌, Bool, true, false, not, ◌&&◌, ◌||◌, Option, none, some, [], ◌∷◌, ◌++◌, ltb, leb, ◌==◌,
  if◌then◌else◌, is_empty, length, Result, ok, err,
}
use running_tools.Prelude.Text.{Text, text, trim_space, to_lower, cut}
use running_tools.Auth.Types.{
  UserRecord, blocked, failure, success, no_reason, rate_limit, bad_credentials, Call, not_found,
  unavailable, User, SessionResult, AuthError, invalid_credentials, rate_limited, storage,
  no_entropy, Auth,
}
use running_tools.Auth.Database.{
  find_user_by_username, create_session, set_last_login, record_login,
}
use running_tools.Auth.Limiter.{allow, clear}
use running_tools.Auth.Password.{Crypto, verify_password}

unfoldable pub normalize_username : Text → Text
normalize_username value = to_lower (trim_space value)

unfoldable pub truncate : Text → ℕ → Text
truncate value max = cut max (trim_space value)

abbrev is_lower_digit : ℕ → Bool
is_lower_digit c = leb b'a' c && leb c b'z' || leb b'0' c && leb c b'9'

abbrev is_name_byte : ℕ → Bool
is_name_byte c = is_lower_digit c || c == b'.' || c == b'_' || c == b'@' || c == b'-'

abbrev all_name_bytes : Text → Bool
all_name_bytes [] = true
all_name_bytes (c ∷ s) = is_name_byte c && all_name_bytes s

-- usernamePattern: ^[a-z0-9][a-z0-9._@-]{2,63}$
unfoldable pub matches_username : Text → Bool
matches_username [] = false
matches_username (c ∷ s) =
    is_lower_digit c && all_name_bytes s && leb 2 (length s) && leb (length s) 63

abbrev pub public_user : UserRecord → User
public_user u = record {
  id = u.id;
  username = u.username;
  must_change_password = u.must_change_password;
  created_at = u.created_at;
  last_login_at = u.last_login_at;
}

-- A login: the fields of Login's arguments, `ip` and `user_agent` once they are truncated.
pub record Login : Type 0 where
  pub username : Text
  pub password : Text
  pub ip : Text
  pub user_agent : Text

abbrev pub ip_key : Login → Text
ip_key x = text "ip:" ++ x.ip

abbrev pub user_key : Login → Text
user_key x = text "user:" ++ x.username

-- randomToken, from the base64 text of the bytes drawn.
abbrev pub random_token : Option Text → Text → Option Text
random_token none prefix = none
random_token (some drawn) prefix = some (prefix ++ drawn)

module _ (k : Crypto) where
  -- The end of Login, for a user whose password is right.
  unfoldable pub open_login :
      Call → ℕ → Option Text → Login → UserRecord → Auth → Auth × Result AuthError SessionResult
  open_login c ttl none x u a = (a, err no_entropy)
  open_login c ttl (some token) x u a =
      elim (create_session c (k.digest token) u.id x.ip x.user_agent (c.now + ttl) a.database) [
        | err e ↦ (a, err storage)
        | ok d ↦ (
          record a {
            database =
                record_login c (some u.id) x.username success no_reason x.ip x.user_agent
                  (set_last_login c u.id d);
          },
          ok (record {
            user = public_user (record u { last_login_at = some c.now });
            expires_at = c.now + ttl;
            token = token;
          }),
        )
      ]

  -- Once both limits let the attempt pass: the user and the password.
  unfoldable pub check_login :
      Call → ℕ → Option Text → Login → Auth → Auth × Result AuthError SessionResult
  unfolding open_login
  check_login c ttl drawn x a = elim (find_user_by_username c x.username a.database) [
    | err unavailable ↦ (a, err storage)
    | err not_found ↦ (
      record a {
        database =
            record_login c none x.username failure bad_credentials x.ip x.user_agent a.database;
      },
      err invalid_credentials,
    )
    | ok u ↦
        if verify_password k u.password_hash x.password && not u.disabled
        then open_login c ttl (random_token drawn []) x u
            (record a { limiter = clear k.digest (user_key x ∷ ip_key x ∷ []) a.limiter })
        else (
          record a {
            database =
                record_login c (some u.id) x.username failure bad_credentials x.ip x.user_agent
                  a.database;
          },
          err invalid_credentials,
        )
  ]

  abbrev block : Call → Text → Login → Auth → Auth × Result AuthError SessionResult
  block c username x a = (
    record a {
      database = record_login c none username blocked rate_limit x.ip x.user_agent a.database;
    },
    err rate_limited,
  )

  -- Login of a request that the limit on its user name has still to pass.
  unfoldable pub login_user :
      Call → ℕ → Option Text → Login → Auth → Auth × Result AuthError SessionResult
  unfolding check_login
  login_user c ttl drawn x a =
      let r = allow k.digest c (user_key x) a.limiter in
      let a' = record a { limiter = r.0 } in
      if r.1 then check_login c ttl drawn x a' else block c x.username x a'

  -- Login. `ttl` is SessionTTL and `drawn` what the random source gives. The dummy hash, which an
  -- unknown user's password is held against, has no part in the outcome.
  unfoldable pub login :
      Call → ℕ → Option Text → Login → Auth → Auth × Result AuthError SessionResult
  unfolding login_user
  login c ttl drawn input a =
      let x = record input {
        username = normalize_username input.username;
        ip = truncate input.ip 128;
        user_agent = truncate input.user_agent 500;
      } in
      let r = allow k.digest c (ip_key x) a.limiter in
      let a' = record a { limiter = r.0 } in
      if not r.1
      then block c (truncate x.username 64) x a'
      else if not (matches_username x.username)
          || is_empty x.password
          || ltb 256 (length x.password)
      then (
        record a' {
          database =
              record_login c none (truncate x.username 64) failure bad_credentials x.ip x.user_agent
                a'.database;
        },
        err invalid_credentials,
      )
      else login_user c ttl drawn x a'
