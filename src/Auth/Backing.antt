-- ===== src/Auth/Backing.antt =====
-- internal/platform/auth/service.go: the row that an authenticated principal was read from.
use running_tools.Prelude.{
  ℕ, ◌≡◌, refl, true, false, Option, none, some, List, [], ◌∷◌, arith, ◌==◌, find, ok, find-All,
  All, Option-cases, ◌⊎◌, inl, inr, drop, Bool-cases,
}
use running_tools.Prelude.Text.{Text, text, trim_space, to_lower, has_prefix}
use running_tools.Auth.Types.{
  UserRecord, SessionRow, TokenRow, Database, Call, session, api_token, Principal, PrincipalRecord,
}
use running_tools.Auth.Database.{
  find_session, find_api_token, session_row, token_row, user_with, opens_session, opens_token,
}
use running_tools.Auth.Password.{Crypto}
use running_tools.Auth.Service.{Request, authenticate, authenticate_cookie, authenticate_token}

All-any : {A : Type 0} (xs : List A) → All (λ x. Unit {0}) xs
All-any [] = tt
All-any (x ∷ xs) = (tt, All-any xs)

-- The row that a principal was read from.
pub data Backed (now : ℕ) (d : Database) (p : Principal) : Type 0 where
  by_session :
      (r : SessionRow)
      → find (opens_session p.token_hash now) d.sessions ≡ some r
      → p.user.id ≡ r.user_id
      → p.credential ≡ session
      → Backed now d p
  by_token :
      (t : TokenRow)
      → find (opens_token p.token_hash now) d.tokens ≡ some t
      → p.user.id ≡ t.user_id
      → p.credential ≡ api_token
      → Backed now d p

pub user_with-id :
    (id : ℕ) (us : List UserRecord) (u : UserRecord) → user_with id us ≡ some u → u.id ≡ id
user_with-id id us u h =
    let v = find-All (λ w. w.id == id) (λ w. Unit {0}) u us (All-any us) h in ground arith

session_row-inv :
    (hash : Text) (now : ℕ) (d : Database) (q : PrincipalRecord)
    → session_row hash now d ≡ some q
    → (r : SessionRow) × (find (opens_session hash now) d.sessions ≡ some r)
      × (q.user.id ≡ r.user_id)
      × (q.token_hash ≡ hash)
unfolding session_row
session_row-inv hash now d q h = elim (Option-cases (find (opens_session hash now) d.sessions)) [
  | inl e ↦ absurd (ground arith)
  | inr (r, e) ↦ elim (Option-cases (user_with r.user_id d.users)) [
    | inl f ↦ absurd (ground arith)
    | inr (u, f) ↦ let i = user_with-id r.user_id d.users u f in (r, e, ground arith, ground arith)
  ]
]

token_row-inv :
    (hash : Text) (now : ℕ) (d : Database) (q : PrincipalRecord)
    → token_row hash now d ≡ some q
    → (t : TokenRow) × (find (opens_token hash now) d.tokens ≡ some t)
      × (q.user.id ≡ t.user_id)
      × (q.token_hash ≡ hash)
unfolding token_row
token_row-inv hash now d q h = elim (Option-cases (find (opens_token hash now) d.tokens)) [
  | inl e ↦ absurd (ground arith)
  | inr (t, e) ↦ elim (Option-cases (user_with t.user_id d.users)) [
    | inl f ↦ absurd (ground arith)
    | inr (u, f) ↦ let i = user_with-id t.user_id d.users u f in (t, e, ground arith, ground arith)
  ]
]

module _ (k : Crypto) (c : Call) (d : Database) (p : Principal) where
  authenticate_token-Backed :
      (token : Text) → (authenticate_token k c token d).1 ≡ ok p → Backed c.now d p
  unfolding authenticate_token find_api_token
  authenticate_token-Backed token h = elim (Option-cases (token_row (k.digest token) c.now d)) [
    | inl e ↦ absurd (ground arith)
    | inr (q, e) ↦
        let (t, f, u, v) = token_row-inv (k.digest token) c.now d q e in
        by_token t (ground arith) (ground arith) (ground arith)
  ]

  authenticate_cookie-Backed :
      (cookie : Option Text) → (authenticate_cookie k c cookie d).1 ≡ ok p → Backed c.now d p
  unfolding authenticate_cookie find_session
  authenticate_cookie-Backed none h = cc
  authenticate_cookie-Backed (some x) h = elim (Option-cases (session_row (k.digest x) c.now d)) [
    | inl e ↦ absurd (ground arith)
    | inr (q, e) ↦
        let (r, f, u, v) = session_row-inv (k.digest x) c.now d q e in
        by_session r (ground arith) (ground arith) (ground arith)
  ]

  -- Which of the two credentials a request is held to.
  authenticate-split :
      (request : Request)
      → (authenticate k c request d
          ≡ authenticate_token k c (trim_space (drop 7 (trim_space request.authorization))) d)
        ⊎ (authenticate k c request d ≡ authenticate_cookie k c request.cookie d)
  unfolding authenticate
  authenticate-split request =
      elim (Bool-cases
        (has_prefix (to_lower (trim_space request.authorization)) (text "bearer "))) [
          | inl e ↦ inl (rw e refl)
          | inr e ↦ inr (rw e refl)
        ]

  -- A principal that Authenticate returns was read from a row for its token and its user: a live
  -- session or a live API token, as its credential says.
  pub authenticate-Backed :
      (request : Request) → (authenticate k c request d).1 ≡ ok p → Backed c.now d p
  authenticate-Backed request h = elim (authenticate-split request) [
    | inl e ↦ authenticate_token-Backed _ (rw e at h)
    | inr e ↦ authenticate_cookie-Backed request.cookie (rw e at h)
  ]

  token-settled :
      (token : Text)
      → (authenticate_token k c token d).1 ≡ ok p
      → p.user.must_change_password ≡ false
  unfolding authenticate_token
  token-settled token h = ground arith

  cookie-session :
      (cookie : Option Text) → (authenticate_cookie k c cookie d).1 ≡ ok p → p.credential ≡ session
  unfolding authenticate_cookie
  cookie-session none h = cc
  cookie-session (some x) h = ground arith

  -- Who must still change the password is not let in by an API token.
  pub authenticate-settled :
      (request : Request)
      → (authenticate k c request d).1 ≡ ok p
      → p.user.must_change_password ≡ true
      → p.credential ≡ session
  authenticate-settled request h m = elim (authenticate-split request) [
    | inl e ↦
        let v =
          token-settled (trim_space (drop 7 (trim_space request.authorization))) (rw e at h) in
        cc
    | inr e ↦ cookie-session request.cookie (rw e at h)
  ]
