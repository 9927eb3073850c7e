-- ===== src/Auth/Types.antt =====
-- internal/platform/auth/service.go and store.go: the records of authentication. Times are
-- nanoseconds since 1970.
use running_tools.Prelude.{ℕ, Bool, Option, List}
use running_tools.Prelude.Text.{Text}

-- userRecord, a row of auth_users.
pub record UserRecord : Type 0 where
  pub id : ℕ
  pub username : Text
  pub password_hash : Text
  pub must_change_password : Bool
  pub disabled : Bool
  pub created_at : ℕ
  pub last_login_at : Option ℕ

-- A row of auth_sessions.
pub record SessionRow : Type 0 where
  pub token_hash : Text
  pub user_id : ℕ
  pub ip_address : Text
  pub user_agent : Text
  pub last_seen_at : ℕ
  pub expires_at : ℕ
  pub revoked_at : Option ℕ

-- A row of auth_api_tokens.
pub record TokenRow : Type 0 where
  pub id : Text
  pub user_id : ℕ
  pub name : Text
  pub token_hash : Text
  pub token_prefix : Text
  pub created_at : ℕ
  pub last_used_at : Option ℕ
  pub expires_at : Option ℕ
  pub revoked_at : Option ℕ

pub data Outcome : Type 0 where
  blocked failure success : Outcome

pub data EventReason : Type 0 where
  no_reason rate_limit bad_credentials : EventReason

-- A row of auth_login_events.
pub record LoginEvent : Type 0 where
  pub user_id : Option ℕ
  pub username : Text
  pub outcome : Outcome
  pub reason : EventReason
  pub ip_address : Text
  pub user_agent : Text
  pub created_at : ℕ

-- The tables that store.go reads and writes.
pub record Database : Type 0 where
  pub users : List UserRecord
  pub sessions : List SessionRow
  pub tokens : List TokenRow
  pub events : List LoginEvent

-- What a request meets: the clock of the service and that of the database; whether lookups, the
-- write that matters, the notes of a last use (SetLastLogin, TouchSession, TouchAPIToken) and
-- RecordLogin succeed; and what Redis counts for a key, `none` with no Redis or an error of it.
pub record Call : Type 0 where
  pub now : ℕ
  pub database_now : ℕ
  pub reads : Bool
  pub writes : Bool
  pub touches : Bool
  pub records : Bool
  pub redis : Text → Option ℕ

-- errNotFound, and any other error of the database.
pub data StoreError : Type 0 where
  not_found unavailable : StoreError

pub data Credential : Type 0 where
  session api_token : Credential

-- User, what is shown of a user.
pub record User : Type 0 where
  pub id : ℕ
  pub username : Text
  pub must_change_password : Bool
  pub created_at : ℕ
  pub last_login_at : Option ℕ

pub record Principal : Type 0 where
  pub user : User
  pub token_hash : Text
  pub credential : Credential

-- principalRecord; its field Kind is not read.
pub record PrincipalRecord : Type 0 where
  pub user : UserRecord
  pub token_hash : Text
  pub last_seen : ℕ

pub record SessionResult : Type 0 where
  pub user : User
  pub expires_at : ℕ
  pub token : Text

-- APIToken.
pub record ApiToken : Type 0 where
  pub id : Text
  pub name : Text
  pub token_prefix : Text
  pub created_at : ℕ
  pub last_used_at : Option ℕ
  pub expires_at : Option ℕ

pub data AuthError : Type 0 where
  invalid_credentials rate_limited unauthorized session_required storage token_missing : AuthError
  wrong_password short_password long_password plain_password same_password : AuthError
  bad_token_name bad_token_days no_entropy : AuthError

pub record Attempt : Type 0 where
  pub count : ℕ
  pub expires_at : ℕ

-- loginLimiter: the zero value of the map is an attempt with count 0 that expired long ago.
pub record Limiter : Type 0 where
  pub key_prefix : Text
  pub local : Text → Attempt

-- The state behind Service: its database and its limiter.
pub record Auth : Type 0 where
  pub database : Database
  pub limiter : Limiter
