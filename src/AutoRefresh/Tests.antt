-- ===== src/AutoRefresh/Tests.antt =====
-- The worker run on small inputs, and the theorems at inputs that meet their hypotheses.
use running_tools.Prelude.{
  arith, is_none, ◌||◌, not, ◌+◌, ◌*◌, ◌≤◌, ◌≡◌, refl, true, false, ◌&&◌, none, some, [], ◌∷◌,
  if◌then◌else◌,
}
use running_tools.Prelude.Clock.{second, Env}
use running_tools.AutoRefresh.Types.{
  auto_refresh_idle_poll, minimum_refresh_interval, AutoRefresh, AppleAccount, SessionStatus,
  degraded,
}
use running_tools.AutoRefresh.Apple.{apple_due, keep_alive_schedule, refresh_due_at, lead_of}
use running_tools.AutoRefresh.Service.{
  next_wake_delay, nothing, load, should_disable_auto_refresh, check_healthy, checked, run,
  keep_alive, run_if_due,
}
use running_tools.AutoRefresh.Retries.{looked, run_if_due-failed}
use running_tools.AutoRefresh.Wakes.{next_wake_delay_lem}
use running_tools.AutoRefresh.Runs.{healthy, run_lem}

abbrev noon : Env
noon = record { now = 1000 * second; saved = true }

-- A worker that checked the Session at second 1000.
abbrev worker : AutoRefresh
worker = record {
  file = some (record {
    enabled = true;
    interval_seconds = 600;
    last_run_at = some (1000 * second);
    last_success_at = none;
    last_disabled_at = none;
    last_error = none;
    disabled_reason = none;
    worker_running = false;
    remaining_seconds = none;
    next_run_at = none;
    server_now = 0;
  });
  running = true;
  wake = false;
  default_interval = 600;
  logs = true;
  log = [];
  last_logged_state = none;
  last_apple_logged_state = none;
  apple_target_at = none;
  apple_checked_at = none;
}

-- An account whose attempt at second 1010 failed.
abbrev failing : AppleAccount
failing = record {
  has_cookies = true;
  health = degraded;
  manage_expires_at = some (1050 * second);
  last_checked_at = some (900 * second);
  last_attempt_at = some (1010 * second);
}

keeps_alive :
    (run_if_due (1200 * second) 0 (some failing) (
      looked
        (record { now = 1020 * second; drawn = 5 * second; account = some failing } ∷ [])
        worker)).1
    ≡ keep_alive
unfolding run_if_due looked apple_due keep_alive_schedule refresh_due_at lead_of load
keeps_alive = refl

run_if_due-failed_example : 1010 * second + 153 * second ≤ 1200 * second
run_if_due-failed_example =
    run_if_due-failed
      (record { now = 1020 * second; drawn = 5 * second; account = some failing } ∷ [])
      (1200 * second) 0 (1010 * second) failing worker refl refl refl keeps_alive

-- An outage of the Apple Account.
abbrev outage : SessionStatus
outage = record {
  session_valid = true;
  needs_reauth = false;
  last_error = none;
  configured = true;
  requires_reauth = false;
  is_degraded = true;
  message = [];
}

run_lem_example :
    let d = load (run noon true outage worker).0 in
    (d.last_run_at ≡ some noon.now)
    × (d.enabled ≡ ((load worker).enabled && true))
    × (d.last_success_at
        ≡ (if healthy outage then some noon.now else (load worker).last_success_at))
    × ((not (healthy outage) || is_none d.last_error) ≡ true)
    × (minimum_refresh_interval ≤ d.interval_seconds)
run_lem_example = run_lem noon true outage worker refl

expired_disables :
    (load
      (run noon true
        (record outage { session_valid = false; needs_reauth = true; configured = false })
        worker).0).enabled
    ≡ false
unfolding run checked should_disable_auto_refresh check_healthy load
expired_disables = refl

-- At second 1160 the keep-alive is 8 seconds ahead.
sleeps : (next_wake_delay (1160 * second) (5 * second) (some failing) worker).1 ≡ 8 * second
unfolding next_wake_delay apple_due keep_alive_schedule refresh_due_at lead_of load
sleeps = refl

next_wake_delay_lem_example :
    let r = next_wake_delay (1160 * second) (5 * second) (some failing) worker in
    (r.1 ≤ auto_refresh_idle_poll) × ((run_if_due (1165 * second) 0 (some failing) r.0).1 ≡ nothing)
next_wake_delay_lem_example =
    next_wake_delay_lem (1160 * second) (1165 * second) (5 * second) 0 (some failing) worker
      (omega arith) (rw sleeps (omega arith)) (rw sleeps (omega arith))
