-- ===== src/Auth/Tables.antt =====
-- internal/platform/auth/store.go: what its statements leave in the tables.
use running_tools.Prelude.{
  ℕ, ◌<◌, ◌≡◌, refl, Bool, true, false, ◌||◌, none, some, List, [], ◌∷◌, arith, ◌==◌, some_of, find,
  modify, ok, find-append_last, find-All, All, if◌then◌else◌,
}
use running_tools.Prelude.Text.{Text, text_eq, text_eq_refl}
use running_tools.Auth.Types.{UserRecord, SessionRow, TokenRow, Database, Call}
use running_tools.Auth.Database.{
  create_session, session_row, user_with, opens_session, join, create_api_token, token_row,
  opens_token, unexpired, last_use,
}

-- The primary key of auth_users.
abbrev pub Distinct : List UserRecord → Type 0
Distinct [] = Unit {0}
Distinct (u ∷ us) = All (λ v. (v.id == u.id) ≡ false) us × Distinct us

-- A user that any lookup finds is the one with its id.
pub user_with-find :
    (p : UserRecord → Bool) (us : List UserRecord) (u : UserRecord)
    → Distinct us
    → find p us ≡ some u
    → user_with u.id us ≡ some u
unfolding find
user_with-find p [] u d h = cc
user_with-find p (v ∷ us) u (a, d) h =
    ground (arith, user_with-find p us u d, find-All p (λ w. (w.id == v.id) ≡ false) u us a)

-- An update that keeps the ids finds the same row, changed or not.
pub user_with-modify :
    (id : ℕ) (p : UserRecord → Bool) (f : UserRecord → UserRecord) (us : List UserRecord)
    (u : UserRecord)
    → ((v : UserRecord) → (f v).id ≡ v.id)
    → user_with id us ≡ some u
    → user_with id (modify p f us) ≡ some (if p u then f u else u)
unfolding find modify
user_with-modify id p f [] u k h = cc
user_with-modify id p f (v ∷ us) u k h = ground (arith, user_with-modify id p f us u k, k v)

no_session :
    (hash : Text) (now : ℕ) (rs : List SessionRow)
    → some_of (λ r. text_eq r.token_hash hash) rs ≡ false
    → find (opens_session hash now) rs ≡ none
unfolding find
no_session hash now [] h = refl
no_session hash now (r ∷ rs) h = ground (arith, no_session hash now rs)

-- A session that is inserted is found until it expires.
pub find-create_session :
    (c : Call) (hash : Text) (id : ℕ) (ip agent : Text) (expires now : ℕ) (d d' : Database)
    → create_session c hash id ip agent expires d ≡ ok d'
    → now < expires
    → (r : SessionRow) × (find (opens_session hash now) d'.sessions ≡ some r)
      × (r.user_id ≡ id)
      × (r.last_seen_at ≡ c.database_now)
unfolding create_session
find-create_session c hash id ip agent expires now d d' h l =
    let row : SessionRow = record {
      token_hash = hash;
      user_id = id;
      ip_address = ip;
      user_agent = agent;
      last_seen_at = c.database_now;
      expires_at = expires;
      revoked_at = none;
    } in
    (
      row,
      ground (
        arith,
        no_session hash now d.sessions,
        find-append_last (opens_session hash now) d.sessions row,
        text_eq_refl hash,
      ),
      refl,
      refl,
    )

pub session_row_lem :
    (hash : Text) (now id seen : ℕ) (d : Database) (rs : List SessionRow) (r : SessionRow)
    (v : UserRecord)
    → d.sessions ≡ rs
    → find (opens_session hash now) rs ≡ some r
    → r.user_id ≡ id
    → r.last_seen_at ≡ seen
    → user_with id d.users ≡ some v
    → session_row hash now d ≡ join hash seen (some v)
unfolding session_row
session_row_lem hash now id seen d rs r v s f g q w = ground arith

no_token :
    (hash id : Text) (now : ℕ) (ts : List TokenRow)
    → some_of (λ t. text_eq t.token_hash hash || text_eq t.id id) ts ≡ false
    → find (opens_token hash now) ts ≡ none
unfolding find
no_token hash id now [] h = refl
no_token hash id now (t ∷ ts) h = ground (arith, no_token hash id now ts)

-- So is an API token.
pub token_row-create_api_token :
    (c : Call) (t : TokenRow) (now : ℕ) (d d' : Database)
    → create_api_token c t d ≡ ok d'
    → t.revoked_at ≡ none
    → unexpired now t.expires_at ≡ true
    → token_row t.token_hash now d' ≡ join t.token_hash (last_use t) (user_with t.user_id d.users)
unfolding create_api_token token_row
token_row-create_api_token c t now d d' h r l = ground (
  arith,
  no_token t.token_hash t.id now d.tokens,
  find-append_last (opens_token t.token_hash now) d.tokens t,
  text_eq_refl t.token_hash,
)
