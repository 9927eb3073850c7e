-- ===== src/AutoRefresh/Service.antt =====
-- modules/mail/backend/autorefresh.go: the operations of the worker and what its timer does.
use running_tools.Prelude.{
  ℕ, ◌+◌, ◌-◌, ◌*◌, ◌/◌, Bool, true, false, not, ◌&&◌, ◌||◌, Option, none, some, ◌∷◌, [], ltb, leb,
  if◌then◌else◌, is_empty, Result, ok, err,
}
use running_tools.Prelude.Int.{ℤ, pos_part}
use running_tools.Prelude.Text.{Text, text}
use running_tools.Prelude.Clock.{second, Env}
use running_tools.AutoRefresh.Types.{
  minimum_refresh_interval, auto_refresh_idle_poll, auto_refresh_minimum_wake, Config, Level, info,
  warning, error, LogEntry, AutoRefresh, AppleAccount, SessionStatus,
}
use running_tools.AutoRefresh.Apple.{apple_due}

abbrev default_config : ℕ → Config
default_config interval = record {
  enabled = true;
  interval_seconds = interval;
  last_run_at = none;
  last_success_at = none;
  last_disabled_at = none;
  last_error = none;
  disabled_reason = none;
  worker_running = false;
  remaining_seconds = none;
  next_run_at = none;
  server_now = 0;
}

abbrev pub at_least : ℕ → ℕ → ℕ
at_least minimum n = if ltb n minimum then minimum else n

abbrev raised : Config → Config
raised c = record c { interval_seconds = at_least minimum_refresh_interval c.interval_seconds }

unfoldable pub load : AutoRefresh → Config
load s = elim s.file [ none ↦ raised (default_config s.default_interval) | some c ↦ raised c ]

abbrev persistent_auto_refresh : Config → Config
persistent_auto_refresh c = record c {
  worker_running = false;
  remaining_seconds = none;
  next_run_at = none;
  server_now = 0;
}

abbrev pub save : Env → Config → AutoRefresh → AutoRefresh
save e c s = if e.saved then record s { file = some (persistent_auto_refresh c) } else s

abbrev pub signal_wake : AutoRefresh → AutoRefresh
signal_wake s = record s { wake = true }

-- `base + IntervalSeconds`, where `base` is LastRunAt or the clock.
abbrev next_of : ℕ → Config → ℕ
next_of now c = elim c.last_run_at [ none ↦ now | some at ↦ at ] + c.interval_seconds * second

-- The next check, once the keep-alive that is due is taken into account.
abbrev brought_forward : ℕ → Option ℕ → ℕ → ℕ
brought_forward now none next = next
brought_forward now (some due) next =
    if leb due now then now else if ltb due next then due else next

-- Status.
unfoldable pub status : ℕ → ℕ → Option AppleAccount → AutoRefresh → AutoRefresh × Config
status now drawn account s =
    let c = record (load s) { server_now = now; worker_running = s.running } in
    let r = apple_due now drawn account s in
    let next = brought_forward now r.1 (next_of now c) in
    if c.enabled
    then (
      r.0,
      record c {
        next_run_at = some next;
        remaining_seconds = some ((next + second / 2 - now) / second);
      },
    )
    else (s, c)

abbrev set_enabled : Option Bool → Config → Config
set_enabled none c = c
set_enabled (some true) c = record c {
  enabled = true;
  last_disabled_at = none;
  disabled_reason = none;
  last_error = none;
}
set_enabled (some false) c = record c { enabled = false }

abbrev set_interval : Option ℤ → Config → Config
set_interval none c = c
set_interval (some interval) c = record c {
  interval_seconds = at_least minimum_refresh_interval (pos_part interval);
}

-- Update.
unfoldable pub update :
    Env → Option Bool → Option ℤ → AutoRefresh → AutoRefresh × Result (Unit {0}) Config
update e enabled interval s =
    let c = set_interval interval (set_enabled enabled (load s)) in
    if e.saved then (signal_wake (save e c s), ok c) else (s, err tt)

unfoldable pub should_disable_auto_refresh : SessionStatus → Bool
should_disable_auto_refresh x = x.needs_reauth && (not x.configured || x.requires_reauth)

abbrev pub apple_reauth : SessionStatus → Bool
apple_reauth x = x.configured && x.requires_reauth

abbrev pub apple_degraded : SessionStatus → Bool
apple_degraded x = x.configured && x.is_degraded

unfoldable pub check_healthy : SessionStatus → Bool
check_healthy x =
    x.session_valid && not x.needs_reauth && not (apple_reauth x) && not (apple_degraded x)

abbrev or_else : Option Text → Text → Text
or_else none default = default
or_else (some t) default = t

-- The message of a failure that does not disable the worker.
abbrev failure_message : SessionStatus → Text
failure_message x =
    let message = if apple_reauth x || apple_degraded x then x.message else [] in
    if is_empty message then or_else x.last_error [] else message

-- What `run` makes of the configuration.
unfoldable pub checked : ℕ → SessionStatus → Config → Config
unfolding should_disable_auto_refresh check_healthy
checked now x c =
    let d = record c { last_run_at = some now } in
    let reason = or_else x.last_error (text "session requires re-import") in
    if should_disable_auto_refresh x
    then record d {
      enabled = false;
      last_disabled_at = some now;
      disabled_reason = some reason;
      last_error = some reason;
    }
    else if check_healthy x
    then record d { last_success_at = some now; last_error = none; disabled_reason = none }
    else record d {
      last_error = if is_empty (failure_message x) then d.last_error else some (failure_message x);
    }

-- The entry of the activity log for a check.
abbrev check_entry : SessionStatus → LogEntry
check_entry x =
    if apple_degraded x && x.session_valid && not x.needs_reauth && not (apple_reauth x)
    then record { keep_alive = false; level = warning; success = false; detail = x.message }
    else if not (check_healthy x)
    then record {
      keep_alive = false;
      level = error;
      success = false;
      detail =
          if is_empty (or_else x.last_error []) && (apple_reauth x || apple_degraded x)
          then x.message
          else or_else x.last_error [];
    }
    else record { keep_alive = false; level = info; success = true; detail = [] }

abbrev same_state : Option Bool → Bool → Bool
same_state none b = false
same_state (some true) b = b
same_state (some false) b = not b

-- The record of a check in the activity log, once for each change of its outcome.
abbrev log_check : Bool → SessionStatus → AutoRefresh → AutoRefresh
log_check background x s =
    let entry = check_entry x in
    if s.logs && background && not (same_state s.last_logged_state entry.success)
    then record s { log = entry ∷ s.log; last_logged_state = some entry.success }
    else s

-- run, given what session.Check returns; the result is the stored configuration.
unfoldable pub run :
    Env → Bool → SessionStatus → AutoRefresh → AutoRefresh × Result (Unit {0}) Config
unfolding checked
run e background x s =
    let c = checked e.now x (load s) in
    if e.saved
    then (signal_wake (log_check background x (save e c s)), ok c)
    else (signal_wake s, err tt)

-- Start and Stop, less the goroutine of the timer loop.
unfoldable pub start : AutoRefresh → AutoRefresh
start s = record s { running = true }

unfoldable pub stop : AutoRefresh → AutoRefresh
stop s = record s { running = false }

-- nextWakeDelay.
unfoldable pub next_wake_delay : ℕ → ℕ → Option AppleAccount → AutoRefresh → AutoRefresh × ℕ
next_wake_delay now drawn account s =
    let c = load s in
    let r = apple_due now drawn account s in
    if not c.enabled then (s, auto_refresh_idle_poll) else elim c.last_run_at [
      | none ↦ (s, auto_refresh_minimum_wake)
      | some at ↦
          let own = at + c.interval_seconds * second in
          let next : ℕ = elim r.1 [ none ↦ own | some due ↦ if ltb due own then due else own ] in
          (
            r.0,
            if leb next (now + auto_refresh_minimum_wake)
                then auto_refresh_minimum_wake
                else if leb (now + auto_refresh_idle_poll) next
                then auto_refresh_idle_poll
                else next - now,
          )
    ]

-- What runIfDue goes on to: a check by `run`, or a keep-alive and its record.
pub data Due : Type 0 where
  nothing check keep_alive : Due

abbrev pub has_come : ℕ → Option ℕ → Bool
has_come now none = false
has_come now (some at) = leb at now

-- runIfDue, up to the call that it makes.
unfoldable pub run_if_due : ℕ → ℕ → Option AppleAccount → AutoRefresh → AutoRefresh × Due
run_if_due now drawn account s =
    let c = load s in
    let r = apple_due now drawn account s in
    let web_due : Bool = elim c.last_run_at [
      | none ↦ true
      | some at ↦ leb (at + c.interval_seconds * second) now
    ] in
    (
      r.0,
      if not c.enabled
          then nothing
          else if web_due
          then check
          else if has_come now r.1
          then keep_alive
          else nothing,
    )

abbrev pub same_level : Level → Level → Bool
same_level info info = true
same_level warning warning = true
same_level error error = true
same_level _ _ = false

abbrev same_apple_state : Option (Bool × Level) → Bool → Level → Bool
same_apple_state none success level = false
same_apple_state (some (b, l)) success level = same_state (some b) success && same_level l level

-- The error of a keep-alive: its text once it is made safe, and appleAccountRequiresReauth of it.
pub record KeepAliveError : Type 0 where
  pub detail : Text
  pub needs_login : Bool

-- recordAppleKeepAliveResult.
unfoldable pub record_keep_alive : Env → Option KeepAliveError → AutoRefresh → AutoRefresh
record_keep_alive e x s =
    let entry : LogEntry = elim x [
      | none ↦ record { keep_alive = true; level = info; success = true; detail = [] }
      | some f ↦ record {
        keep_alive = true;
        level = if f.needs_login then error else warning;
        success = false;
        detail = f.detail;
      }
    ] in
    let c : Config = elim x [
      | none ↦ record (load s) {
        last_success_at = some e.now;
        last_error = none;
        disabled_reason = none;
      }
      | some f ↦ record (load s) { last_error = some f.detail }
    ] in
    let s' = save e c s in
    signal_wake (
      if s.logs && not (same_apple_state s.last_apple_logged_state entry.success entry.level)
      then record s' {
        log = entry ∷ s'.log;
        last_apple_logged_state = some (entry.success, entry.level);
      }
      else s')
