-- ===== src/AutoRefresh/Types.antt =====
-- modules/mail/backend/autorefresh.go: the stored configuration and the worker's state; and what it
-- reads of a Session (session.go, apple_types.go). Times are nanoseconds since 1970.
use running_tools.Prelude.{ℕ, ◌*◌, Bool, Option, List}
use running_tools.Prelude.Text.{Text}
use running_tools.Prelude.Clock.{second}

abbrev pub minimum_refresh_interval : ℕ
minimum_refresh_interval = 300

abbrev pub auto_refresh_idle_poll : ℕ
auto_refresh_idle_poll = 30 * second

abbrev pub auto_refresh_minimum_wake : ℕ
auto_refresh_minimum_wake = 100000000

abbrev pub apple_keep_alive_interval : ℕ
apple_keep_alive_interval = 180 * second

-- `int64(appleKeepAliveInterval) * appleKeepAliveJitter / 100`
abbrev pub spread : ℕ
spread = 27 * second

-- AutoRefreshConfig. A negative interval in the file reads as 0, which is raised as it is.
pub record Config : Type 0 where
  pub enabled : Bool
  pub interval_seconds : ℕ
  pub last_run_at : Option ℕ
  pub last_success_at : Option ℕ
  pub last_disabled_at : Option ℕ
  pub last_error : Option Text
  pub disabled_reason : Option Text
  pub worker_running : Bool
  pub remaining_seconds : Option ℕ
  pub next_run_at : Option ℕ
  pub server_now : ℕ

pub data Level : Type 0 where
  info warning error : Level

-- What the activity log is told: whether of a keep-alive or of a check, and how it went.
pub record LogEntry : Type 0 where
  pub keep_alive : Bool
  pub level : Level
  pub success : Bool
  pub detail : Text

-- AutoRefresh. `logs` says that there is an activity log, and `log` is newest first; the two states
-- logged last are `none` for the empty string; a target of `none` is the zero time.
pub record AutoRefresh : Type 0 where
  pub file : Option Config
  pub running : Bool
  pub wake : Bool
  pub default_interval : ℕ
  pub logs : Bool
  pub log : List LogEntry
  pub last_logged_state : Option Bool
  pub last_apple_logged_state : Option (Bool × Level)
  pub apple_target_at : Option ℕ
  pub apple_checked_at : Option ℕ

pub data Health : Type 0 where
  unknown healthy degraded reauth_required : Health

-- AppleAccountState, as far as the schedule reads it; the zero time is `none`.
pub record AppleAccount : Type 0 where
  pub has_cookies : Bool
  pub health : Health
  pub manage_expires_at : Option ℕ
  pub last_checked_at : Option ℕ
  pub last_attempt_at : Option ℕ

-- SessionStatus, as far as `run` reads it, with the Apple Account in its AppleLogin.
pub record SessionStatus : Type 0 where
  pub session_valid : Bool
  pub needs_reauth : Bool
  pub last_error : Option Text
  pub configured : Bool
  pub requires_reauth : Bool
  pub is_degraded : Bool
  pub message : Text
