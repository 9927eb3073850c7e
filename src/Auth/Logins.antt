-- ===== src/Auth/Logins.antt =====
-- internal/platform/auth/service.go: what a successful Login says, and that its token is a session.
use running_tools.Prelude.{
  ℕ, ◌+◌, ◌<◌, ◌≡◌, refl, true, false, Option, some, arith, ◌==◌, is_empty, ◌∙◌, sym, ok,
  if◌then◌else◌,
}
use running_tools.Prelude.Text.{Text, text, text_eq, trim_space, to_lower, has_prefix}
use running_tools.Auth.Types.{
  UserRecord, Database, Call, session, Principal, SessionResult, Auth, success, no_reason,
}
use running_tools.Auth.Database.{
  find_user_by_username, create_session, find_session, session_row, user_with, set_last_login,
  record_login, join,
}
use running_tools.Auth.Tables.{
  Distinct, user_with-find, user_with-modify, find-create_session, session_row_lem,
}
use running_tools.Auth.Limiter.{allow}
use running_tools.Auth.Password.{Crypto, verify_password}
use running_tools.Auth.Login.{Login, ip_key, user_key, normalize_username, login}
use running_tools.Auth.Service.{Request, authenticate, principal_of}
use running_tools.Auth.LoginSteps.{normalized, login-LoggedIn}

module _ (k : Crypto) (c : Call) (ttl : ℕ) where
  -- The user of a fresh session, as the lookup of the session sees it.
  user_after :
      (x : Login) (u : UserRecord) (d rows d' : Database) (t : Text)
      → Distinct d.users
      → find_user_by_username c x.username d ≡ ok u
      → create_session c (k.digest t) u.id x.ip x.user_agent (c.now + ttl) d ≡ ok rows
      → d'
        ≡ record_login c
            (some u.id)
            x.username
            success
            no_reason
            x.ip
            x.user_agent
            (set_last_login c u.id rows)
      → (v : UserRecord) × (user_with u.id d'.users ≡ some v)
        × (v.id ≡ u.id)
        × (v.disabled ≡ u.disabled)
        × (d'.sessions ≡ rows.sessions)
  unfolding find_user_by_username create_session record_login set_last_login
  user_after x u d rows d' t n f i l =
      let touched = (λ (v : UserRecord). record v { last_login_at = some c.now }) in
      let same = user_with-find (λ v. text_eq v.username x.username) d.users u n (ground arith) in
      let moved = user_with-modify u.id (λ v. v.id == u.id) touched d.users u (λ v. refl) same in
      (if c.touches then touched u else u, ground arith, ground arith, ground arith, ground arith)

  -- A successful Login is for the user with the trimmed and lowercased name, whose password hash
  -- verifies the password given and who is not disabled; both limits, on the address and on the
  -- name, let it pass, and the session ends the configured time after it.
  pub login_sound :
      (drawn : Option Text) (input : Login) (a : Auth) (r : SessionResult)
      → (login k c ttl drawn input a).1 ≡ ok r
      → (u : UserRecord) × (find_user_by_username c (normalize_username input.username) a.database
          ≡ ok u)
        × (verify_password k u.password_hash input.password ≡ true)
        × (u.disabled ≡ false)
        × (r.user.id ≡ u.id)
        × (r.expires_at ≡ c.now + ttl)
        × ((allow k.digest c (ip_key (normalized input)) a.limiter).1 ≡ true)
        × ((allow k.digest c
              (user_key (normalized input))
              (allow k.digest c (ip_key (normalized input)) a.limiter).0).1
            ≡ true)
  login_sound drawn input a r h =
      let v = login-LoggedIn k c ttl drawn input a r h in
      (
        v.user, v.account.found, v.account.verified, v.account.enabled, v.opened.whose,
        v.opened.until, v.ip_allowed, v.user_allowed,
      )

  session_row-login :
      (drawn : Option Text) (input : Login) (a : Auth) (r : SessionResult) (now : ℕ)
      → Distinct a.database.users
      → (login k c ttl drawn input a).1 ≡ ok r
      → now < r.expires_at
      → (v : UserRecord) × (session_row
            (k.digest r.token)
            now
            (login k c ttl drawn input a).0.database
          ≡ join (k.digest r.token) c.database_now (some v))
        × (v.id ≡ r.user.id)
        × (v.disabled ≡ false)
  session_row-login drawn input a r now n h l =
      let d' = (login k c ttl drawn input a).0.database in
      let i = login-LoggedIn k c ttl drawn input a r h in
      let o = i.opened in
      let (v, w, e, b, s) =
        user_after (normalized input) i.user a.database o.rows d' r.token n i.account.found
          o.inserted o.left in
      let (row, f, g, q) =
        find-create_session c (k.digest r.token) i.user.id (normalized input).ip
          (normalized input).user_agent (c.now + ttl) now a.database o.rows o.inserted
          (omega (arith, o.until)) in
      (
        v,
        session_row_lem (k.digest r.token) now i.user.id c.database_now d' o.rows.sessions row v s f
            g q w,
        e ∙ sym o.whose,
        b ∙ i.account.enabled,
      )

  -- The token of a successful Login, sent as the cookie with no bearer header, authenticates the
  -- same user by that session at any time before the session expires, from the tables that the
  -- Login left. The drawn token is not empty, the ids of the users are distinct, and the lookup of
  -- the session succeeds.
  pub authenticate-login :
      (drawn : Option Text) (input : Login) (a : Auth) (r : SessionResult) (c' : Call)
      (authorization : Text)
      → Distinct a.database.users
      → (login k c ttl drawn input a).1 ≡ ok r
      → is_empty r.token ≡ false
      → c'.now < r.expires_at
      → c'.reads ≡ true
      → has_prefix (to_lower (trim_space authorization)) (text "bearer ") ≡ false
      → let d' = (login k c ttl drawn input a).0.database in
        let request : Request = record { authorization = authorization; cookie = some r.token } in
        (p : Principal) × ((authenticate k c' request d').1 ≡ ok p)
        × (p.user.id ≡ r.user.id)
        × (p.credential ≡ session)
        × (p.token_hash ≡ k.digest r.token)
  unfolding authenticate find_session
  authenticate-login drawn input a r c' authorization n h t l s b =
      let (v, w, e, f) = session_row-login drawn input a r c'.now n h l in
      (
        principal_of
            (record { user = v; token_hash = k.digest r.token; last_seen = c.database_now })
            session,
        ground arith,
        e,
        refl,
        refl,
      )
