-- ===== src/AutoRefresh/Runs.antt =====
-- modules/mail/backend/autorefresh.go: what a check of the Session leaves in the configuration.
use running_tools.Prelude.{
  is_none, ◌≤◌, ◌≡◌, Bool, true, not, ◌&&◌, ◌||◌, some, arith, if◌then◌else◌,
}
use running_tools.Prelude.Clock.{Env}
use running_tools.AutoRefresh.Types.{minimum_refresh_interval, Config, AutoRefresh, SessionStatus}
use running_tools.AutoRefresh.Service.{
  load, should_disable_auto_refresh, check_healthy, checked, run,
}

-- The Session is valid, asks for no login, and its Apple Account, where there is one, is well.
abbrev pub healthy : SessionStatus → Bool
healthy x =
    x.session_valid
    && not x.needs_reauth
    && not (x.configured && (x.requires_reauth || x.is_degraded))

checked_lem :
    (e : Env) (x : SessionStatus) (c : Config)
    → let d = checked e.now x c in
      (d.last_run_at ≡ some e.now)
      × (d.enabled ≡ (c.enabled && not (x.needs_reauth && (not x.configured || x.requires_reauth))))
      × (d.last_success_at ≡ (if healthy x then some e.now else c.last_success_at))
      × ((not (healthy x) || is_none d.last_error) ≡ true)
      × (d.interval_seconds ≡ c.interval_seconds)
unfolding checked should_disable_auto_refresh check_healthy
checked_lem e x c = (ground arith, ground arith, ground arith, ground arith, ground arith)

-- A run, by the timer or by the user, whose write succeeds notes its time, and switches the worker
-- off exactly where the Session needs a login and its Apple Account is missing or needs one too. The time of the last success moves exactly on a healthy check,
-- which also clears the error, and the interval stays at least 300 seconds.
pub run_lem :
    (e : Env) (background : Bool) (x : SessionStatus) (s : AutoRefresh)
    → e.saved ≡ true
    → let c = load s in
      let d = load (run e background x s).0 in
      (d.last_run_at ≡ some e.now)
      × (d.enabled ≡ (c.enabled && not (x.needs_reauth && (not x.configured || x.requires_reauth))))
      × (d.last_success_at ≡ (if healthy x then some e.now else c.last_success_at))
      × ((not (healthy x) || is_none d.last_error) ≡ true)
      × (minimum_refresh_interval ≤ d.interval_seconds)
unfolding run load
run_lem e background x s w =
    let (r, o, l, m, i) = checked_lem e x (load s) in
    (ground arith, ground arith, ground arith, ground arith, ground arith)
