-- ===== src/Auth/Revocation.antt =====
-- internal/platform/auth: what a new password, a logout and a revocation take away.
use running_tools.Prelude.{
  refl, ℕ, ◌≡◌, ◌≢◌, false, not, ◌&&◌, Option, none, some, arith, ◌==◌, is_none, ok, find-All, All,
  All-modify, Result-cases, Option-cases, inl, inr, ◌∙◌, sym,
}
use running_tools.Prelude.Text.{Text, text_eq, text_eq→eq}
use running_tools.Auth.Types.{
  UserRecord, SessionRow, TokenRow, Database, Call, session, User, Principal,
}
use running_tools.Auth.Database.{
  opens_session, opens_token, update_password, revoke_session, find_user_by_id, revoke_row,
  revoke_token_row, coalesce, user_with,
}
use running_tools.Auth.Backing.{Backed, by_session, by_token, authenticate-Backed, user_with-id}
use running_tools.Auth.Password.{Crypto, hash_password}
use running_tools.Auth.Service.{Request, authenticate, change_password, logout}

-- Of the rows of a user only those for one token still open.
abbrev OnlySession : ℕ → Text → SessionRow → Type 0
OnlySession id current r =
    (r.user_id == id && not (text_eq r.token_hash current) && is_none r.revoked_at) ≡ false

abbrev NoToken : ℕ → TokenRow → Type 0
NoToken id t = (t.user_id == id && is_none t.revoked_at) ≡ false

update_password-rows :
    (c : Call) (id : ℕ) (hash current : Text) (d d' : Database)
    → update_password c id hash current d ≡ ok d'
    → All (OnlySession id current) d'.sessions × All (NoToken id) d'.tokens
unfolding update_password
update_password-rows c id hash current d d' h =
    let p = (λ (r : SessionRow).
      r.user_id == id && not (text_eq r.token_hash current) && is_none r.revoked_at) in
    let q = (λ (t : TokenRow). t.user_id == id && is_none t.revoked_at) in
    let a =
      All-modify (OnlySession id current) p (revoke_row c.now) d.sessions (λ r e. ground arith)
        (λ r e. e) in
    let b =
      All-modify (NoToken id) q (revoke_token_row c.now) d.tokens (λ r e. ground arith)
        (λ r e. e) in
    (ground arith, ground arith)

-- Who is backed by such rows and is that user has the one session.
Backed-only :
    (now id : ℕ) (current : Text) (d : Database) (p : Principal)
    → All (OnlySession id current) d.sessions
    → All (NoToken id) d.tokens
    → p.user.id ≡ id
    → Backed now d p
    → (p.credential ≡ session) × (p.token_hash ≡ current)
Backed-only now id current d p a b h (by_session r f i e) =
    let (o, w) =
      find-All (opens_session p.token_hash now) (OnlySession id current) r d.sessions a f in
    ground (arith, text_eq→eq r.token_hash current, text_eq→eq r.token_hash p.token_hash)
Backed-only now id current d p a b h (by_token t f i e) =
    let (o, w) = find-All (opens_token p.token_hash now) (NoToken id) t d.tokens b f in
    absurd (ground arith)

module _ (k : Crypto) (c : Call) where
  pub change_password-update :
      (salt : Option Text) (p : Principal) (current new : Text) (d : Database) (u : User)
      → (change_password k c salt p current new d).1 ≡ ok u
      → (s : Text) × (w : UserRecord) × (salt ≡ some s)
        × (find_user_by_id c p.user.id d ≡ ok w)
        × (update_password c w.id (hash_password k s new) p.token_hash d
            ≡ ok (change_password k c salt p current new d).0)
  unfolding change_password
  change_password-update none p current new d u h = absurd (ground arith)
  change_password-update (some s) p current new d u h =
      elim (Result-cases (find_user_by_id c p.user.id d)) [
        | inl (w, f) ↦
            elim (Result-cases (update_password c w.id (hash_password k s new) p.token_hash d)) [
              | inl (d', g) ↦ (s, w, refl, f, ground arith)
              | inr (e, g) ↦ absurd (ground arith)
            ]
        | inr (e, f) ↦ absurd (ground arith)
      ]

  pub found-id :
      (id : ℕ) (d : Database) (w : UserRecord) → find_user_by_id c id d ≡ ok w → w.id ≡ id
  unfolding find_user_by_id
  found-id id d w h = elim (Option-cases (user_with id d.users)) [
    | inl e ↦ absurd (ground arith)
    | inr (v, e) ↦ let i = user_with-id id d.users v e in ground arith
  ]

  -- After a successful ChangePassword whoever authenticates as the user, at any time and by any
  -- request, does so by the very session that changed the password: every other session and every
  -- API token of the user is gone.
  pub change_password-authenticate :
      (salt : Option Text) (p : Principal) (current new : Text) (d : Database) (u : User)
      (c' : Call) (request : Request) (q : Principal)
      → (change_password k c salt p current new d).1 ≡ ok u
      → (authenticate k c' request (change_password k c salt p current new d).0).1 ≡ ok q
      → q.user.id ≡ p.user.id
      → (q.credential ≡ session) × (q.token_hash ≡ p.token_hash)
  change_password-authenticate salt p current new d u c' request q h a i =
      let d' = (change_password k c salt p current new d).0 in
      let (s, w, t, f, g) = change_password-update salt p current new d u h in
      let (rs, ts) = update_password-rows c w.id (hash_password k s new) p.token_hash d d' g in
      Backed-only c'.now w.id p.token_hash d' q rs ts (i ∙ sym (found-id p.user.id d w f))
        (authenticate-Backed k c' d' q request a)

  -- A session row that is revoked.
  abbrev Shut : Text → SessionRow → Type 0
  Shut hash r = (text_eq r.token_hash hash && is_none r.revoked_at) ≡ false

  logout-rows :
      (p : Principal) (d : Database)
      → (logout k c p d).1 ≡ ok tt
      → All (Shut p.token_hash) (logout k c p d).0.sessions
  unfolding logout revoke_session
  logout-rows p d h =
      let hit = (λ (r : SessionRow). text_eq r.token_hash p.token_hash) in
      let f = (λ (r : SessionRow). record r { revoked_at = coalesce r.revoked_at c.now }) in
      let a =
        All-modify (Shut p.token_hash) hit f d.sessions (λ r e. ground arith)
          (λ r e. ground arith) in
      ground arith

  -- After a successful Logout no request authenticates by the session any more, at any time.
  pub logout-authenticate :
      (p : Principal) (d : Database) (c' : Call) (request : Request) (q : Principal)
      → (logout k c p d).1 ≡ ok tt
      → (authenticate k c' request (logout k c p d).0).1 ≡ ok q
      → q.credential ≡ session
      → q.token_hash ≢ p.token_hash
  logout-authenticate p d c' request q h a s e =
      let d' = (logout k c p d).0 in
      elim (authenticate-Backed k c' d' q request a) [
        | by_session r f i t ↦
            let (o, w) =
              find-All (opens_session q.token_hash c'.now) (Shut p.token_hash) r d'.sessions
                (logout-rows p d h) f in
            ground arith
        | by_token t f i y ↦ cc
      ]
