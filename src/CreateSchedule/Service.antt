-- ===== src/CreateSchedule/Service.antt =====
-- modules/mail/backend/create_schedule.go: the operations of the scheduler.
use running_tools.Prelude.{
  ℕ, ◌+◌, ◌-◌, ◌*◌, ◌/◌, Bool, true, false, not, ◌&&◌, Option, none, some, ◌∷◌, leb, ◌||◌,
  if◌then◌else◌, is_empty, is_none, Result, ok, err,
}
use running_tools.Prelude.Int.{ℤ}
use running_tools.Prelude.Text.{Text, text, trim_space, cut}
use running_tools.Prelude.Clock.{second, Env}
use running_tools.CreateSchedule.Types.{
  minimum_create_batch_size, maximum_create_batch_size, minimum_create_alias_interval,
  maximum_create_alias_interval, minimum_create_schedule_period, maximum_create_schedule_period,
  create_schedule_idle_poll, create_schedule_minimum_wake, stopped_by_user, Config, default_config,
  clamp, normalized_create_config, persistent_create_config, Scheduler,
}

unfoldable pub load : Scheduler → Config
load s = elim s.file [
  | none ↦ normalized_create_config default_config
  | some c ↦ normalized_create_config c
]

-- `_ = storage.WriteJSON(service.path, persistentCreateConfig(config), 0o600)`
abbrev pub save : Env → Config → Scheduler → Scheduler
save e c s = if e.saved then record s { file = some (persistent_create_config c) } else s

abbrev pub signal_wake : Scheduler → Scheduler
signal_wake s = record s { wake = true }

abbrev pub cancel_run : Option ℕ → Scheduler → Scheduler
cancel_run none s = s
cancel_run (some run) s = record s { cancelled_runs = run ∷ s.cancelled_runs }

-- `base + IntervalSeconds`, where `base` is LastRunAt or the clock.
unfoldable pub next_run : ℕ → Config → ℕ
next_run now c = elim c.last_run_at [ none ↦ now | some at ↦ at ] + c.interval_seconds * second

-- `max(0, int(next-now+0.5))`
unfoldable pub remaining : ℕ → ℕ → ℕ
remaining now next = (next + second / 2 - now) / second

unfoldable pub status : ℕ → Scheduler → Config
status now s =
    let c = record (load s) {
      server_now = now;
      worker_running = s.worker_running;
      running = s.running;
    } in
    if s.running
    then record c { next_run_at = none; remaining_seconds = none }
    else if c.enabled
    then record c {
      next_run_at = some (next_run now c);
      remaining_seconds = some (remaining now (next_run now c));
    }
    else c

-- The switch of Update: on, off, or as it was.
unfoldable pub set_enabled : ℕ → Option Bool → Config → Config
set_enabled now none c = c
set_enabled now (some true) c = record c {
  enabled = true;
  last_run_at = elim c.last_run_at [ none ↦ some now | some at ↦ some at ];
  last_disabled_at = none;
  disabled_reason = none;
  last_error = none;
}
set_enabled now (some false) c = record c {
  enabled = false;
  last_disabled_at = some now;
  disabled_reason = some stopped_by_user;
}

unfoldable pub clamp_option : Option ℤ → ℕ → ℕ → ℕ → ℕ
clamp_option none old minimum maximum = old
clamp_option (some v) old minimum maximum = clamp v minimum maximum

unfoldable pub set_label : Option Text → Text → Text
set_label none old = old
set_label (some label) old =
    cut 100 (if is_empty (trim_space label) then text "shopping" else trim_space label)

unfoldable pub set_note : Option Text → Text → Text
set_note none old = old
set_note (some note) old = cut 500 note

-- The configuration that Update writes.
unfoldable pub updated :
    ℕ → Option Bool → Option ℤ → Option ℤ → Option ℤ → Option Text → Option Text → Config → Config
updated now enabled batch_size alias_interval interval label note c =
    let d = set_enabled now enabled c in
    normalized_create_config (record d {
      batch_size =
          clamp_option batch_size d.batch_size minimum_create_batch_size maximum_create_batch_size;
      alias_interval_seconds =
          clamp_option alias_interval d.alias_interval_seconds minimum_create_alias_interval
            maximum_create_alias_interval;
      interval_seconds =
          clamp_option interval d.interval_seconds minimum_create_schedule_period
            maximum_create_schedule_period;
      label = set_label label d.label;
      note = set_note note d.note;
    })

abbrev switches_off : Option Bool → Bool
switches_off (some false) = true
switches_off _ = false

-- Update. The only error is that of the write.
unfoldable pub update :
    Env
    → Option Bool
    → Option ℤ
    → Option ℤ
    → Option ℤ
    → Option Text
    → Option Text
    → Scheduler
    → Scheduler × Result (Unit {0}) Config
update e enabled batch_size alias_interval interval label note s =
    let c = updated e.now enabled batch_size alias_interval interval label note (load s) in
    let s' = save e c s in
    let s'' = if switches_off enabled then cancel_run s'.cancel s' else s' in
    if e.saved then (signal_wake s'', ok (status e.now (signal_wake s''))) else (s'', err tt)

unfoldable pub stop : Env → Scheduler → Scheduler × Result (Unit {0}) Config
stop e s = update e (some false) none none none none none s

-- Start, less the goroutine of the timer loop.
unfoldable pub start : Env → Scheduler → Scheduler
start e s =
    let c = load s in
    let c' = record c {
      last_run_at = if c.enabled && is_none c.last_run_at then some e.now else c.last_run_at;
      current_index = 0;
      current_total = 0;
      current_success = 0;
    } in
    if s.worker_running then s else save e c' (record s { worker_running = true })

unfoldable pub shutdown : Scheduler → Scheduler
shutdown s =
    if s.worker_running then cancel_run s.cancel (record s { worker_running = false }) else s

unfoldable pub next_wake_delay : ℕ → Scheduler → ℕ
next_wake_delay now s =
    let c = status now s in
    elim c.next_run_at [
      | none ↦ create_schedule_idle_poll
      | some next ↦
          if not c.enabled || c.running
          then create_schedule_idle_poll
          else if leb next (now + create_schedule_minimum_wake)
          then create_schedule_minimum_wake
          else if leb (now + create_schedule_idle_poll) next
          then create_schedule_idle_poll
          else next - now
    ]
