-- ===== src/Auth/Service.antt =====
-- internal/platform/auth/service.go: the operations of Service after a login.
use running_tools.Prelude.{
  ℕ, ◌+◌, ◌*◌, Bool, true, false, not, ◌||◌, Option, none, some, List, map, ltb, leb, if◌then◌else◌,
  is_empty, length, drop, Result, ok, err,
}
use running_tools.Prelude.Int.{ℤ, pos_part, below, above}
use running_tools.Prelude.Clock.{second}
use running_tools.Prelude.Text.{Text, text, trim_space, to_lower, has_prefix, cut}
use running_tools.Auth.Types.{
  TokenRow, Database, Call, not_found, unavailable, Credential, session, api_token, User, Principal,
  PrincipalRecord, ApiToken, AuthError, unauthorized, session_required, storage, token_missing,
  wrong_password, same_password, bad_token_name, bad_token_days, no_entropy,
}
use running_tools.Auth.Database.{
  day, find_user_by_id, find_session, touch_session, revoke_session, update_password,
  create_api_token, find_api_token, touch_api_token, list_api_tokens, revoke_api_token,
  delete_expired,
}
use running_tools.Auth.Password.{Crypto, hash_password, verify_password, validate_new_password}
use running_tools.Auth.Login.{public_user, random_token}

abbrev pub principal_of : PrincipalRecord → Credential → Principal
principal_of r credential = record {
  user = public_user r.user;
  token_hash = r.token_hash;
  credential = credential;
}

-- What the service reads off an http.Request: the header Authorization and the cookie.
pub record Request : Type 0 where
  pub authorization : Text
  pub cookie : Option Text

abbrev pub is_session : Credential → Bool
is_session session = true
is_session api_token = false

-- `now.Sub(lastSeen) >= 5*time.Minute`
abbrev stale : Call → ℕ → Bool
stale c seen = leb (seen + 300 * second) c.now

module _ (k : Crypto) where
  -- Authenticate by an API token, by a cookie, and as a whole.
  unfoldable pub authenticate_token : Call → Text → Database → Database × Result AuthError Principal
  authenticate_token c token d =
      if has_prefix token (text "rtk_")
      then elim (find_api_token c (k.digest token) d) [
        | err e ↦ (d, err unauthorized)
        | ok r ↦ if r.user.disabled || r.user.must_change_password then (d, err unauthorized) else (
          if stale c r.last_seen then touch_api_token c r.token_hash d else d,
          ok (principal_of r api_token),
        )
      ]
      else (d, err unauthorized)

  unfoldable pub authenticate_cookie :
      Call → Option Text → Database → Database × Result AuthError Principal
  authenticate_cookie c none d = (d, err unauthorized)
  authenticate_cookie c (some value) d =
      if is_empty value then (d, err unauthorized) else elim (find_session c (k.digest value) d) [
        | err e ↦ (d, err unauthorized)
        | ok r ↦ if r.user.disabled then (d, err unauthorized) else (
          if stale c r.last_seen then touch_session c r.token_hash d else d,
          ok (principal_of r session),
        )
      ]

  unfoldable pub authenticate : Call → Request → Database → Database × Result AuthError Principal
  unfolding authenticate_token authenticate_cookie
  authenticate c request d =
      let header = trim_space request.authorization in
      if has_prefix (to_lower header) (text "bearer ")
      then authenticate_token c (trim_space (drop 7 header)) d
      else authenticate_cookie c request.cookie d

  -- ChangePassword; `salt` is what hashPassword draws.
  unfoldable pub change_password :
      Call → Option Text → Principal → Text → Text → Database → Database × Result AuthError User
  change_password c salt p current new d =
      if not (is_session p.credential)
      then (d, err session_required)
      else elim (find_user_by_id c p.user.id d) [
        | err e ↦ (d, err unauthorized)
        | ok u ↦
            if not (verify_password k u.password_hash current)
            then (d, err wrong_password)
            else elim (validate_new_password new) [
              | some e ↦ (d, err e)
              | none ↦
                  if verify_password k u.password_hash new
                  then (d, err same_password)
                  else elim salt [
                    | none ↦ (d, err storage)
                    | some s ↦
                        elim (update_password c u.id (hash_password k s new) p.token_hash d) [
                          | err e ↦ (d, err storage)
                          | ok d' ↦
                              (d', ok (public_user (record u { must_change_password = false })))
                        ]
                  ]
            ]
      ]

  unfoldable pub logout : Call → Principal → Database → Database × Result AuthError (Unit {0})
  logout c p d =
      if not (is_session p.credential)
      then (d, err session_required)
      else elim (revoke_session c p.token_hash d) [ err e ↦ (d, err storage) | ok d' ↦ (d', ok tt) ]

  abbrev pub public_token : TokenRow → ApiToken
  public_token t = record {
    id = t.id;
    name = t.name;
    token_prefix = t.token_prefix;
    created_at = t.created_at;
    last_used_at = t.last_used_at;
    expires_at = t.expires_at;
  }

  unfoldable pub list_tokens : Call → Principal → Database → Result AuthError (List ApiToken)
  list_tokens c p d =
      if not (is_session p.credential)
      then err session_required
      else elim (list_api_tokens c p.user.id d) [
        | err e ↦ err storage
        | ok ts ↦ ok (map public_token ts)
      ]

  -- The row that CreateAPIToken inserts.
  unfoldable pub new_token_row : Call → Principal → Text → ℕ → Text → Text → TokenRow
  new_token_row c p name days id token = record {
    id = id;
    user_id = p.user.id;
    name = name;
    token_hash = k.digest token;
    token_prefix = cut 12 token;
    created_at = c.now;
    last_used_at = none;
    expires_at = some (c.now + days * day);
    revoked_at = none;
  }

  -- CreateAPIToken, with the two texts that it draws; CreatedAPIToken is the pair of its result.
  unfoldable pub create_token :
      Call
      → Option Text
      → Option Text
      → Principal
      → Text
      → ℤ
      → Database
      → Database × Result AuthError (ApiToken × Text)
  unfolding new_token_row
  create_token c drawn_id drawn p name days d =
      let name' = trim_space name in
      if not (is_session p.credential)
      then (d, err session_required)
      else if is_empty name' || ltb 100 (length name')
      then (d, err bad_token_name)
      else if below days 1 || above days 365
      then (d, err bad_token_days)
      else elim (random_token drawn_id (text "tok_")) [
        | none ↦ (d, err no_entropy)
        | some id ↦ elim (random_token drawn (text "rtk_")) [
          | none ↦ (d, err no_entropy)
          | some token ↦
              let row = new_token_row c p name' (pos_part days) id token in
              elim (create_api_token c row d) [
                | err e ↦ (d, err storage)
                | ok d' ↦ (d', ok (public_token row, token))
              ]
        ]
      ]

  unfoldable pub revoke_token :
      Call → Principal → Text → Database → Database × Result AuthError (Unit {0})
  revoke_token c p id d =
      if not (is_session p.credential)
      then (d, err session_required)
      else elim (revoke_api_token c p.user.id (trim_space id) d) [
        | err not_found ↦ (d, err token_missing)
        | err unavailable ↦ (d, err storage)
        | ok d' ↦ (d', ok tt)
      ]

-- Cleanup, of which the first `done` statements run.
unfoldable pub cleanup : ℕ → Call → Database → Database
cleanup done c d = delete_expired done c.now d
