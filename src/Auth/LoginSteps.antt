-- ===== src/Auth/LoginSteps.antt =====
-- internal/platform/auth/service.go: what each step of a successful Login did.
use running_tools.Prelude.{
  ℕ, ◌+◌, ◌≡◌, true, false, Option, none, some, [], ◌∷◌, arith, ok, Result-cases, inl, inr,
}
use running_tools.Prelude.Text.{Text}
use running_tools.Auth.Types.{UserRecord, Database, Call, SessionResult, Auth, success, no_reason}
use running_tools.Auth.Database.{
  find_user_by_username, create_session, set_last_login, record_login,
}
use running_tools.Auth.Limiter.{allow, clear}
use running_tools.Auth.Password.{Crypto, verify_password}
use running_tools.Auth.Login.{
  Login, ip_key, user_key, normalize_username, truncate, random_token, open_login, check_login,
  login_user, login,
}

-- The arguments of Login once they are normalized.
abbrev pub normalized : Login → Login
normalized input = record input {
  username = normalize_username input.username;
  ip = truncate input.ip 128;
  user_agent = truncate input.user_agent 500;
}

module _ (k : Crypto) (c : Call) (ttl : ℕ) where
  -- What the end of Login does to the tables, when it gives a session.
  pub record Opened (drawn : Option Text) (x : Login) (u : UserRecord) (d d' : Database)
      (r : SessionResult) : Type 0 where
    pub token_drawn : drawn ≡ some r.token
    pub rows : Database
    pub inserted :
        create_session c (k.digest r.token) u.id x.ip x.user_agent (c.now + ttl) d ≡ ok rows
    pub left :
        d'
        ≡ record_login c
            (some u.id)
            x.username
            success
            no_reason
            x.ip
            x.user_agent
            (set_last_login c u.id rows)
    pub whose : r.user.id ≡ u.id
    pub until : r.expires_at ≡ c.now + ttl

  open_login-Opened :
      (drawn : Option Text) (x : Login) (u : UserRecord) (a : Auth) (r : SessionResult)
      → (open_login k c ttl drawn x u a).1 ≡ ok r
      → Opened drawn x u a.database (open_login k c ttl drawn x u a).0.database r
  unfolding open_login
  open_login-Opened none x u a r h = cc
  open_login-Opened (some t) x u a r h =
      elim (Result-cases
        (create_session c (k.digest t) u.id x.ip x.user_agent (c.now + ttl) a.database)) [
          | inl (d, f) ↦ record {
            token_drawn = ground arith;
            rows = d;
            inserted = ground arith;
            left = ground arith;
            whose = ground arith;
            until = ground arith;
          }
          | inr (e, f) ↦ ground arith
        ]

  -- Which account a login is for, and that its password was right.
  pub record Account (x : Login) (d : Database) (u : UserRecord) : Type 0 where
    pub found : find_user_by_username c x.username d ≡ ok u
    pub verified : verify_password k u.password_hash x.password ≡ true
    pub enabled : u.disabled ≡ false

  check_login-Account :
      (drawn : Option Text) (x : Login) (a : Auth) (r : SessionResult)
      → (check_login k c ttl drawn x a).1 ≡ ok r
      → (u : UserRecord) × Account x a.database u
  unfolding check_login
  check_login-Account drawn x a r h =
      elim (Result-cases (find_user_by_username c x.username a.database)) [
        | inl (u, f) ↦ (u, ground arith)
        | inr (e, f) ↦ absurd (ground arith)
      ]

  abbrev cleared : Login → Auth → Auth
  cleared x a = record a { limiter = clear k.digest (user_key x ∷ ip_key x ∷ []) a.limiter }

  check_login-open_login :
      (drawn : Option Text) (x : Login) (a : Auth) (u : UserRecord)
      → Account x a.database u
      → check_login k c ttl drawn x a ≡ open_login k c ttl (random_token drawn []) x u (cleared x a)
  unfolding check_login
  check_login-open_login drawn x a u v = ground arith

  -- A login that succeeds: its account, the two limits that it passed, and its session.
  pub record LoggedIn (drawn : Option Text) (input : Login) (a : Auth) (d' : Database)
      (r : SessionResult) : Type 0 where
    pub user : UserRecord
    pub account : Account (normalized input) a.database user
    pub ip_allowed : (allow k.digest c (ip_key (normalized input)) a.limiter).1 ≡ true
    pub user_allowed :
        (allow k.digest c
          (user_key (normalized input))
          (allow k.digest c (ip_key (normalized input)) a.limiter).0).1
        ≡ true
    pub opened : Opened (random_token drawn []) (normalized input) user a.database d' r

  check_login-LoggedIn :
      (drawn : Option Text) (x : Login) (a : Auth) (r : SessionResult)
      → (check_login k c ttl drawn x a).1 ≡ ok r
      → (u : UserRecord) × Account x a.database u
        × Opened (random_token drawn []) x u a.database (check_login k c ttl drawn x a).0.database r
  check_login-LoggedIn drawn x a r h =
      let (u, v) = check_login-Account drawn x a r h in
      let e = check_login-open_login drawn x a u v in
      (u, v, rw e (open_login-Opened (random_token drawn []) x u (cleared x a) r (rw e at h)))

  abbrev limited : Login → Auth → Auth
  limited x a = record a { limiter = (allow k.digest c (ip_key x) a.limiter).0 }

  abbrev limited_twice : Login → Auth → Auth
  limited_twice x a = record a {
    limiter = (allow k.digest c (user_key x) (allow k.digest c (ip_key x) a.limiter).0).0;
  }

  login-check_login :
      (drawn : Option Text) (input : Login) (a : Auth) (r : SessionResult)
      → (login k c ttl drawn input a).1 ≡ ok r
      → let x = normalized input in
        (login k c ttl drawn input a ≡ check_login k c ttl drawn x (limited_twice x a))
        × ((allow k.digest c (ip_key x) a.limiter).1 ≡ true)
        × ((allow k.digest c (user_key x) (allow k.digest c (ip_key x) a.limiter).0).1 ≡ true)
  unfolding login login_user
  login-check_login drawn input a r h = ground arith

  pub login-LoggedIn :
      (drawn : Option Text) (input : Login) (a : Auth) (r : SessionResult)
      → (login k c ttl drawn input a).1 ≡ ok r
      → LoggedIn drawn input a (login k c ttl drawn input a).0.database r
  login-LoggedIn drawn input a r h =
      let x = normalized input in
      let (e, i, u) = login-check_login drawn input a r h in
      let (who, v, o) = check_login-LoggedIn drawn x (limited_twice x a) r (rw e at h) in
      record { user = who; account = v; ip_allowed = i; user_allowed = u; opened = rw e o }
