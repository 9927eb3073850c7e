-- ===== src/Auth/ApiTokens.antt =====
-- internal/platform/auth/service.go: an API token from its creation to its revocation.
use running_tools.Prelude.{
  ℕ, ◌+◌, ◌*◌, ◌<◌, ◌≡◌, ◌≢◌, refl, true, false, not, ◌&&◌, Option, none, some, List, [], ◌∷◌, ◌++◌,
  arith, ◌==◌, is_none, modify, ok, find-All, All, Result-cases, inl, inr, drop,
}
use running_tools.Prelude.Int.{ℤ, pos_part}
use running_tools.Prelude.Text.{Text, text, text_eq, trim_space, to_lower, has_prefix}
use running_tools.Auth.Types.{
  UserRecord, TokenRow, Database, Call, api_token, Principal, PrincipalRecord, ApiToken,
}
use running_tools.Auth.Database.{
  day, opens_token, create_api_token, revoke_api_token, revoke_token_row, user_with, token_row,
  find_api_token, join, last_use,
}
use running_tools.Auth.Tables.{token_row-create_api_token}
use running_tools.Auth.Backing.{by_session, by_token, authenticate-Backed}
use running_tools.Auth.Password.{Crypto}
use running_tools.Auth.Service.{
  Request, authenticate, principal_of, create_token, new_token_row, revoke_token,
}

-- The header that carries a token.
abbrev pub bearer : Text → Text
bearer token = text "Bearer " ++ token

bearer-read :
    (t : Text)
    → (has_prefix (to_lower (bearer t)) (text "bearer ") ≡ true) × (drop 7 (bearer t) ≡ t)
unfolding to_lower has_prefix text
bearer-read t = (refl, refl)

rtk-prefix : (t : Text) → has_prefix (text "rtk_" ++ t) (text "rtk_") ≡ true
unfolding has_prefix text
rtk-prefix t = refl

module _ (k : Crypto) (c : Call) where
  record Made (drawn : Option Text) (p : Principal) (days : ℤ) (d d' : Database) (t : Text)
      : Type 0 where
    row : TokenRow
    raw : Text
    prefixed : t ≡ text "rtk_" ++ raw
    inserted : create_api_token c row d ≡ ok d'
    hashed : row.token_hash ≡ k.digest t
    owner : row.user_id ≡ p.user.id
    fresh : row.revoked_at ≡ none
    until : row.expires_at ≡ some (c.now + pos_part days * day)

  create_token-Made :
      (drawn_id drawn : Option Text) (p : Principal) (name : Text) (days : ℤ) (d : Database)
      (item : ApiToken) (t : Text)
      → (create_token k c drawn_id drawn p name days d).1 ≡ ok (item, t)
      → Made drawn p days d (create_token k c drawn_id drawn p name days d).0 t
  unfolding create_token
  create_token-Made none drawn p name days d item t h = absurd (ground arith)
  create_token-Made (some i) none p name days d item t h = absurd (ground arith)
  create_token-Made (some i) (some r) p name days d item t h =
      let token = text "rtk_" ++ r in
      let row = new_token_row k c p (trim_space name) (pos_part days) (text "tok_" ++ i) token in
      elim (Result-cases (create_api_token c row d)) [
        | inl (d', f) ↦ record {
          row = row;
          raw = r;
          prefixed = ground arith;
          inserted = ground arith;
          hashed = ground arith;
          owner = refl;
          fresh = refl;
          until = refl;
        }
        | inr (e, f) ↦ absurd (ground arith)
      ]

  -- What a lookup of the new token finds.
  token_row-create_token :
      (drawn_id drawn : Option Text) (p : Principal) (name : Text) (days : ℤ) (d : Database)
      (item : ApiToken) (t : Text) (u : UserRecord) (now : ℕ)
      → (create_token k c drawn_id drawn p name days d).1 ≡ ok (item, t)
      → user_with p.user.id d.users ≡ some u
      → now < c.now + pos_part days * day
      → (seen : ℕ) × (token_row (k.digest t) now (create_token k c drawn_id drawn p name days d).0
          ≡ join (k.digest t) seen (some u))
  token_row-create_token drawn_id drawn p name days d item t u now h w l =
      let v = create_token-Made drawn_id drawn p name days d item t h in
      let d' = (create_token k c drawn_id drawn p name days d).0 in
      let f =
        token_row-create_api_token c v.row now d d' v.inserted v.fresh
          (rw v.until (ground arith)) in
      (last_use v.row, ground arith)

  authenticate-bearer :
      (c' : Call) (t raw : Text) (cookie : Option Text) (d : Database) (q : PrincipalRecord)
      → t ≡ text "rtk_" ++ raw
      → trim_space (bearer t) ≡ bearer t
      → trim_space t ≡ t
      → c'.reads ≡ true
      → token_row (k.digest t) c'.now d ≡ some q
      → q.user.disabled ≡ false
      → q.user.must_change_password ≡ false
      → (authenticate k c' (record { authorization = bearer t; cookie = cookie }) d).1
        ≡ ok (principal_of q api_token)
  unfolding authenticate find_api_token
  authenticate-bearer c' t raw cookie d q e b s r f o m =
      let (i, j) = bearer-read t in rw (b, i, j, s) (ground (arith, rtk-prefix raw))

  -- An API token that CreateAPIToken returns, sent as a bearer token, authenticates its owner as an
  -- API token at any time before its days are over, from the tables that the call left. The owner
  -- is in the table, not disabled and past the first password change; the token has no space at its
  -- ends, with or without the word before it; and the lookup succeeds.
  pub authenticate-create_token :
      (drawn_id drawn : Option Text) (p : Principal) (name : Text) (days : ℤ) (d : Database)
      (item : ApiToken) (t : Text) (u : UserRecord) (c' : Call) (cookie : Option Text)
      → (create_token k c drawn_id drawn p name days d).1 ≡ ok (item, t)
      → user_with p.user.id d.users ≡ some u
      → u.disabled ≡ false
      → u.must_change_password ≡ false
      → c'.now < c.now + pos_part days * day
      → c'.reads ≡ true
      → trim_space (bearer t) ≡ bearer t
      → trim_space t ≡ t
      → let d' = (create_token k c drawn_id drawn p name days d).0 in
        let request : Request = record { authorization = bearer t; cookie = cookie } in
        (q : Principal) × ((authenticate k c' request d').1 ≡ ok q)
        × (q.user.id ≡ u.id)
        × (q.credential ≡ api_token)
        × (q.token_hash ≡ k.digest t)
  authenticate-create_token drawn_id drawn p name days d item t u c' cookie h w o m l r b s =
      let v = create_token-Made drawn_id drawn p name days d item t h in
      let d' = (create_token k c drawn_id drawn p name days d).0 in
      let (seen, f) = token_row-create_token drawn_id drawn p name days d item t u c'.now h w l in
      let q : PrincipalRecord = record { user = u; token_hash = k.digest t; last_seen = seen } in
      (
        principal_of q api_token,
        authenticate-bearer c' t v.raw cookie d' q v.prefixed b s r f o m,
        refl,
        refl,
        refl,
      )

-- A row with a digest belongs to that user and id, as UNIQUE (token_hash) has it.
abbrev pub Sole : Text → ℕ → Text → TokenRow → Type 0
Sole hash user id t =
    (text_eq t.token_hash hash && not (t.user_id == user && text_eq t.id id)) ≡ false

-- A row with a digest is revoked.
abbrev Closed : Text → TokenRow → Type 0
Closed hash t = (text_eq t.token_hash hash && is_none t.revoked_at) ≡ false

modify-Closed :
    (hash : Text) (user : ℕ) (id : Text) (now : ℕ) (ts : List TokenRow)
    → All (Sole hash user id) ts
    → All (Closed hash) (
        modify
          (λ t. t.user_id == user && text_eq t.id id && is_none t.revoked_at)
          (revoke_token_row now)
          ts)
unfolding modify
modify-Closed hash user id now [] s = tt
modify-Closed hash user id now (t ∷ ts) (a, b) = ground (arith, modify-Closed hash user id now ts b)

module _ (k : Crypto) (c : Call) where
  revoke_token-rows :
      (p : Principal) (id hash : Text) (d : Database)
      → (revoke_token k c p id d).1 ≡ ok tt
      → All (Sole hash p.user.id (trim_space id)) d.tokens
      → All (Closed hash) (revoke_token k c p id d).0.tokens
  unfolding revoke_token revoke_api_token
  revoke_token-rows p id hash d h s =
      ground (arith, modify-Closed hash p.user.id (trim_space id) c.now d.tokens s)

  -- After a successful RevokeAPIToken no request authenticates by the token any more, at any time:
  -- by no API token with a digest that is that token's alone.
  pub revoke_token-authenticate :
      (p : Principal) (id hash : Text) (d : Database) (c' : Call) (request : Request)
      (q : Principal)
      → (revoke_token k c p id d).1 ≡ ok tt
      → All (Sole hash p.user.id (trim_space id)) d.tokens
      → (authenticate k c' request (revoke_token k c p id d).0).1 ≡ ok q
      → q.credential ≡ api_token
      → q.token_hash ≢ hash
  revoke_token-authenticate p id hash d c' request q h s a i e =
      let d' = (revoke_token k c p id d).0 in
      elim (authenticate-Backed k c' d' q request a) [
        | by_session r f o y ↦ cc
        | by_token t f o y ↦
            let (v, w) =
              find-All (opens_token q.token_hash c'.now) (Closed hash) t d'.tokens
                (revoke_token-rows p id hash d h s) f in
            ground arith
      ]
