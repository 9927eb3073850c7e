-- ===== src/Auth/Presented.antt =====
-- internal/platform/auth/service.go: the credential that a request presents, and the row and the
-- user that it stands for.
use running_tools.Prelude.{
  ℕ, ◌≡◌, refl, true, false, Option, none, some, arith, find, ok, Option-cases, inl, inr, drop,
  Bool-cases, is_empty,
}
use running_tools.Prelude.Text.{Text, text, trim_space, to_lower, has_prefix}
use running_tools.Auth.Types.{
  UserRecord, SessionRow, TokenRow, Database, Call, session, api_token, Principal, PrincipalRecord,
}
use running_tools.Auth.Database.{
  find_session, find_api_token, session_row, token_row, user_with, opens_session, opens_token,
}
use running_tools.Auth.Password.{Crypto}
use running_tools.Auth.Login.{public_user}
use running_tools.Auth.Service.{Request, authenticate, authenticate_cookie, authenticate_token}

-- The header Authorization names a token, and that token.
abbrev pub IsBearer : Request → Type 0
IsBearer request = has_prefix (to_lower (trim_space request.authorization)) (text "bearer ") ≡ true

abbrev pub bearer : Request → Text
bearer request = trim_space (drop 7 (trim_space request.authorization))

-- The principal stands for what the request presents: a cookie, where the header names no token,
-- whose digest a live session has; or the token of the header, whose digest a live API token has.
-- The row belongs to a user who is not disabled, and it is that user whom the principal shows; the
-- user of an API token need not change the password.
pub data Presented (k : Crypto) (now : ℕ) (request : Request) (d : Database) (p : Principal)
    : Type 0 where
  by_cookie :
      (value : Text) (r : SessionRow) (u : UserRecord)
      → has_prefix (to_lower (trim_space request.authorization)) (text "bearer ") ≡ false
      → request.cookie ≡ some value
      → is_empty value ≡ false
      → find (opens_session (k.digest value) now) d.sessions ≡ some r
      → user_with r.user_id d.users ≡ some u
      → u.disabled ≡ false
      → p ≡ record { user = public_user u; token_hash = k.digest value; credential = session }
      → Presented k now request d p
  by_bearer :
      (t : TokenRow) (u : UserRecord)
      → IsBearer request
      → has_prefix (bearer request) (text "rtk_") ≡ true
      → find (opens_token (k.digest (bearer request)) now) d.tokens ≡ some t
      → user_with t.user_id d.users ≡ some u
      → u.disabled ≡ false
      → u.must_change_password ≡ false
      → p ≡ record {
        user = public_user u;
        token_hash = k.digest (bearer request);
        credential = api_token;
      }
      → Presented k now request d p

-- The row of a join, and its user.
session_row-user :
    (hash : Text) (now : ℕ) (d : Database) (q : PrincipalRecord)
    → session_row hash now d ≡ some q
    → (r : SessionRow) × (find (opens_session hash now) d.sessions ≡ some r)
      × (user_with r.user_id d.users ≡ some q.user)
      × (q.token_hash ≡ hash)
unfolding session_row
session_row-user hash now d q h = elim (Option-cases (find (opens_session hash now) d.sessions)) [
  | inl e ↦ absurd (ground arith)
  | inr (r, e) ↦ elim (Option-cases (user_with r.user_id d.users)) [
    | inl f ↦ absurd (ground arith)
    | inr (u, f) ↦ (r, e, ground arith, ground arith)
  ]
]

token_row-user :
    (hash : Text) (now : ℕ) (d : Database) (q : PrincipalRecord)
    → token_row hash now d ≡ some q
    → (t : TokenRow) × (find (opens_token hash now) d.tokens ≡ some t)
      × (user_with t.user_id d.users ≡ some q.user)
      × (q.token_hash ≡ hash)
unfolding token_row
token_row-user hash now d q h = elim (Option-cases (find (opens_token hash now) d.tokens)) [
  | inl e ↦ absurd (ground arith)
  | inr (t, e) ↦ elim (Option-cases (user_with t.user_id d.users)) [
    | inl f ↦ absurd (ground arith)
    | inr (u, f) ↦ (t, e, ground arith, ground arith)
  ]
]

module _ (k : Crypto) (c : Call) (d : Database) (p : Principal) (request : Request) where
  bearer-Presented :
      IsBearer request
      → (authenticate_token k c (bearer request) d).1 ≡ ok p
      → Presented k c.now request d p
  unfolding authenticate_token find_api_token
  bearer-Presented b h =
      let hash = k.digest (bearer request) in
      elim (Option-cases (token_row hash c.now d)) [
        | inl e ↦ absurd (ground arith)
        | inr (q, e) ↦
            let (t, f, u, v) = token_row-user hash c.now d q e in
            by_bearer t q.user b (ground arith) f u (ground arith) (ground arith) (ground arith)
      ]

  cookie-Presented :
      (cookie : Option Text)
      → request.cookie ≡ cookie
      → has_prefix (to_lower (trim_space request.authorization)) (text "bearer ") ≡ false
      → (authenticate_cookie k c cookie d).1 ≡ ok p
      → Presented k c.now request d p
  unfolding authenticate_cookie find_session
  cookie-Presented none o b h = cc
  cookie-Presented (some x) o b h = elim (Option-cases (session_row (k.digest x) c.now d)) [
    | inl e ↦ absurd (ground arith)
    | inr (q, e) ↦
        let (r, f, u, v) = session_row-user (k.digest x) c.now d q e in
        by_cookie x r q.user b o (ground arith) f u (ground arith) (ground arith)
  ]

  -- A principal that Authenticate returns stands for the credential that the request presents.
  pub authenticate-Presented : (authenticate k c request d).1 ≡ ok p → Presented k c.now request d p
  unfolding authenticate
  authenticate-Presented h =
      elim (Bool-cases
        (has_prefix (to_lower (trim_space request.authorization)) (text "bearer "))) [
          | inl e ↦ bearer-Presented e (rw e at h)
          | inr e ↦ cookie-Presented request.cookie refl e (rw e at h)
        ]
