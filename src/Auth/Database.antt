-- ===== src/Auth/Database.antt =====
-- internal/platform/auth/store.go: each statement of sqlStore on the tables. The keys of the tables
-- (token_hash of both, id of the API tokens) refuse a row that would repeat one.
use running_tools.Prelude.{
  ℕ, ◌+◌, ◌*◌, Bool, true, false, not, ◌&&◌, ◌||◌, Option, none, some, List, [], ◌∷◌, ◌++◌, ltb,
  leb, ◌==◌, if◌then◌else◌, is_none, is_empty, keep, some_of, find, modify, Result, ok, err,
}
use running_tools.Prelude.Clock.{second}
use running_tools.Prelude.Text.{Text, text_eq}
use running_tools.Auth.Types.{
  UserRecord, SessionRow, TokenRow, LoginEvent, Outcome, EventReason, Database, Call, StoreError,
  not_found, unavailable, PrincipalRecord,
}

abbrev pub day : ℕ
day = 86400 * second

-- BootstrapUser. `next_id` is what the sequence of the table gives.
unfoldable pub bootstrap_user : Call → ℕ → Text → Text → Database → Result StoreError Database
bootstrap_user c next_id username hash d =
    if not c.writes
    then err unavailable
    else if is_empty d.users
    then ok (record d {
      users =
          record {
            id = next_id;
            username = username;
            password_hash = hash;
            must_change_password = true;
            disabled = false;
            created_at = c.database_now;
            last_login_at = none;
          }
          ∷ [];
    })
    else ok (record d {
      users =
          modify (λ u. text_eq u.username username && u.must_change_password)
            (λ u. record u { password_hash = hash }) d.users;
    })

-- The rows of a query read into one record: sql.ErrNoRows is errNotFound.
abbrev pub scan : {A : Type 0} → Bool → Option A → Result StoreError A
scan reads row =
    if reads then elim row [ none ↦ err not_found | some a ↦ ok a ] else err unavailable

unfoldable pub find_user_by_username : Call → Text → Database → Result StoreError UserRecord
find_user_by_username c username d = scan c.reads (find (λ u. text_eq u.username username) d.users)

abbrev pub user_with : ℕ → List UserRecord → Option UserRecord
user_with id users = find (λ u. u.id == id) users

unfoldable pub find_user_by_id : Call → ℕ → Database → Result StoreError UserRecord
find_user_by_id c id d = scan c.reads (user_with id d.users)

unfoldable pub create_session :
    Call → Text → ℕ → Text → Text → ℕ → Database → Result StoreError Database
create_session c hash user_id ip user_agent expires d =
    if not c.writes || some_of (λ r. text_eq r.token_hash hash) d.sessions
    then err unavailable
    else ok (record d {
      sessions =
          d.sessions
          ++ (record {
            token_hash = hash;
            user_id = user_id;
            ip_address = ip;
            user_agent = user_agent;
            last_seen_at = c.database_now;
            expires_at = expires;
            revoked_at = none;
          }
              ∷ []);
    })

-- `s.token_hash = $1 AND s.revoked_at IS NULL AND s.expires_at > $2`
abbrev pub opens_session : Text → ℕ → SessionRow → Bool
opens_session hash now r = text_eq r.token_hash hash && is_none r.revoked_at && ltb now r.expires_at

-- The join of a row with its user.
abbrev pub join : Text → ℕ → Option UserRecord → Option PrincipalRecord
join hash seen none = none
join hash seen (some u) = some (record { user = u; token_hash = hash; last_seen = seen })

unfoldable pub session_row : Text → ℕ → Database → Option PrincipalRecord
session_row hash now d = elim (find (opens_session hash now) d.sessions) [
  | none ↦ none
  | some r ↦ join hash r.last_seen_at (user_with r.user_id d.users)
]

unfoldable pub find_session : Call → Text → Database → Result StoreError PrincipalRecord
unfolding session_row
find_session c hash d = scan c.reads (session_row hash c.now d)

unfoldable pub touch_session : Call → Text → Database → Database
touch_session c hash d =
    if c.touches
    then record d {
      sessions =
          modify (λ r. text_eq r.token_hash hash && is_none r.revoked_at)
            (λ r. record r { last_seen_at = c.now }) d.sessions;
    }
    else d

-- `COALESCE(revoked_at, $2)`
abbrev pub coalesce : Option ℕ → ℕ → Option ℕ
coalesce none now = some now
coalesce (some at) now = some at

unfoldable pub revoke_session : Call → Text → Database → Result StoreError Database
revoke_session c hash d =
    if c.writes
    then ok (record d {
      sessions =
          modify (λ r. text_eq r.token_hash hash)
            (λ r. record r { revoked_at = coalesce r.revoked_at c.now }) d.sessions;
    })
    else err unavailable

-- The three statements of UpdatePassword, which are committed together.
abbrev pub set_password : Text → UserRecord → UserRecord
set_password hash u = record u { password_hash = hash; must_change_password = false }

abbrev pub revoke_row : ℕ → SessionRow → SessionRow
revoke_row now r = record r { revoked_at = some now }

abbrev pub revoke_token_row : ℕ → TokenRow → TokenRow
revoke_token_row now t = record t { revoked_at = some now }

unfoldable pub update_password : Call → ℕ → Text → Text → Database → Result StoreError Database
update_password c user_id hash current d =
    if not c.writes
    then err unavailable
    else if some_of (λ u. u.id == user_id) d.users
    then ok (record d {
      users = modify (λ u. u.id == user_id) (set_password hash) d.users;
      sessions =
          modify
            (λ r.
              r.user_id == user_id && not (text_eq r.token_hash current) && is_none r.revoked_at)
            (revoke_row c.now) d.sessions;
      tokens =
          modify (λ t. t.user_id == user_id && is_none t.revoked_at) (revoke_token_row c.now)
            d.tokens;
    })
    else err not_found

unfoldable pub set_last_login : Call → ℕ → Database → Database
set_last_login c user_id d =
    if c.touches
    then record d {
      users = modify (λ u. u.id == user_id) (λ u. record u { last_login_at = some c.now }) d.users;
    }
    else d

unfoldable pub record_login :
    Call → Option ℕ → Text → Outcome → EventReason → Text → Text → Database → Database
record_login c user_id username outcome reason ip user_agent d =
    if c.records
    then record d {
      events =
          record {
            user_id = user_id;
            username = username;
            outcome = outcome;
            reason = reason;
            ip_address = ip;
            user_agent = user_agent;
            created_at = c.now;
          }
          ∷ d.events;
    }
    else d

unfoldable pub create_api_token : Call → TokenRow → Database → Result StoreError Database
create_api_token c t d =
    if not c.writes
      || some_of (λ r. text_eq r.token_hash t.token_hash || text_eq r.id t.id) d.tokens
    then err unavailable
    else ok (record d { tokens = d.tokens ++ (t ∷ []) })

-- `expires_at IS NULL OR expires_at > $2`
abbrev pub unexpired : ℕ → Option ℕ → Bool
unexpired now none = true
unexpired now (some at) = ltb now at

abbrev pub opens_token : Text → ℕ → TokenRow → Bool
opens_token hash now t =
    text_eq t.token_hash hash && is_none t.revoked_at && unexpired now t.expires_at

-- `COALESCE(t.last_used_at, t.created_at)`
abbrev pub last_use : TokenRow → ℕ
last_use t = elim t.last_used_at [ none ↦ t.created_at | some at ↦ at ]

unfoldable pub token_row : Text → ℕ → Database → Option PrincipalRecord
token_row hash now d = elim (find (opens_token hash now) d.tokens) [
  | none ↦ none
  | some t ↦ join hash (last_use t) (user_with t.user_id d.users)
]

unfoldable pub find_api_token : Call → Text → Database → Result StoreError PrincipalRecord
unfolding token_row
find_api_token c hash d = scan c.reads (token_row hash c.now d)

unfoldable pub touch_api_token : Call → Text → Database → Database
touch_api_token c hash d =
    if c.touches
    then record d {
      tokens =
          modify (λ t. text_eq t.token_hash hash && is_none t.revoked_at)
            (λ t. record t { last_used_at = some c.now }) d.tokens;
    }
    else d

-- ORDER BY created_at DESC: an insertion sort, newest first.
unfoldable pub insert_newest : TokenRow → List TokenRow → List TokenRow
insert_newest t [] = t ∷ []
insert_newest t (r ∷ rs) =
    let rest = insert_newest t rs in if leb r.created_at t.created_at then t ∷ r ∷ rs else r ∷ rest

unfoldable pub newest_first : List TokenRow → List TokenRow
unfolding insert_newest
newest_first [] = []
newest_first (t ∷ ts) = insert_newest t (newest_first ts)

unfoldable pub list_api_tokens : Call → ℕ → Database → Result StoreError (List TokenRow)
list_api_tokens c user_id d =
    if c.reads
    then ok (
        newest_first (
          keep (λ t. t.user_id == user_id && is_none t.revoked_at && unexpired c.now t.expires_at)
            d.tokens))
    else err unavailable

unfoldable pub revoke_api_token : Call → ℕ → Text → Database → Result StoreError Database
revoke_api_token c user_id id d =
    let hit = (λ (t : TokenRow). t.user_id == user_id && text_eq t.id id && is_none t.revoked_at) in
    if not c.writes
    then err unavailable
    else if some_of hit d.tokens
    then ok (record d { tokens = modify hit (revoke_token_row c.now) d.tokens })
    else err not_found

-- `revoked_at < $1 - INTERVAL`, which no row without a revocation meets.
abbrev pub revoked_before : ℕ → ℕ → Option ℕ → Bool
revoked_before now interval none = false
revoked_before now interval (some at) = ltb (at + interval) now

abbrev pub kept_session : ℕ → SessionRow → Bool
kept_session now r = not (leb r.expires_at now || revoked_before now (7 * day) r.revoked_at)

abbrev pub kept_token : ℕ → TokenRow → Bool
kept_token now t =
    not (not (unexpired now t.expires_at) || revoked_before now (30 * day) t.revoked_at)

abbrev pub kept_event : ℕ → LoginEvent → Bool
kept_event now e = not (ltb (e.created_at + 90 * day) now)

-- DeleteExpired: the first `done` of its three statements run, and with fewer it returns an error.
unfoldable pub delete_expired : ℕ → ℕ → Database → Database
delete_expired done now d = record d {
  sessions = if ltb 0 done then keep (kept_session now) d.sessions else d.sessions;
  tokens = if ltb 1 done then keep (kept_token now) d.tokens else d.tokens;
  events = if ltb 2 done then keep (kept_event now) d.events else d.events;
}
