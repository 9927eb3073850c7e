-- ===== src/CreateSchedule/Batch.antt =====
-- modules/mail/backend/create_schedule.go: startRun, and its goroutine runBatch as a machine. A
-- step goes from one point where the mutex is free to the next: a call of Apple or a wait.
use running_tools.Prelude.{
  ℕ, ◌+◌, Bool, true, false, not, ◌&&◌, ◌||◌, Option, none, some, List, [], ◌∷◌, ltb, leb, ◌==◌,
  if◌then◌else◌, is_none, some_of, Result, ok, err,
}
use running_tools.Prelude.Text.{Text, text, contains, trim_space}
use running_tools.Errors.{ApiError, is_session_expired, safe_error_text}
use running_tools.Prelude.Clock.{Env}
use running_tools.CreateSchedule.Types.{
  Reason, task_stopped, create_failed, limit_reached, session_expired, batch_done, Config,
  normalized_create_config, info, warning, error, LogEntry, Scheduler,
}
use running_tools.CreateSchedule.Service.{load, save, signal_wake, status}

-- Before the first region; at the head of the loop for an index; in CreateAlias; in the pause
-- after an index; returned.
pub data Phase : Type 0 where
  beginning returned : Phase
  heading creating pausing : ℕ → Phase

-- A goroutine: its context, its argument `manual`, its variable `config`, and its place.
pub record Batch : Type 0 where
  pub run : ℕ
  pub manual : Bool
  pub config : Config
  pub phase : Phase

-- What decorateCreateResult puts into the result of CreateAlias.
pub record Route : Type 0 where
  pub used_channel : Text
  pub fallback_used : Bool
  pub attempted_channels : List Text

pub record Reply : Type 0 where
  pub create : Result ApiError Route
  pub timer_first : Bool

abbrev pub is_done : ℕ → Scheduler → Bool
is_done run s = some_of (λ r. r == run) s.cancelled_runs

-- startRun: `blocked` is the answer of the queue. The only error is ErrCreateInProgress.
unfoldable pub start_run : Bool → Bool → Scheduler → Scheduler × Option Batch
start_run blocked manual s = if blocked || s.running then (s, none) else (
  record s { running = true; cancel = some s.runs; runs = s.runs + 1 },
  some (record { run = s.runs; manual = manual; config = load s; phase = beginning }),
)

unfoldable pub run_if_due : ℕ → Bool → Scheduler → Scheduler × Option Batch
run_if_due now blocked s =
    let c = status now s in
    let started = start_run blocked false s in
    elim c.remaining_seconds [
      | none ↦ (s, none)
      | some left ↦ if c.enabled && not c.running && left == 0 then started else (s, none)
    ]

-- The deferred function of the goroutine.
abbrev pub release : Scheduler → Scheduler
release s = signal_wake (record s { running = false; cancel = none })

-- `err != nil && !errors.Is(err, context.Canceled)`
abbrev is_failure : Option ApiError → Bool
is_failure none = false
is_failure (some x) = not x.canceled

abbrev pub is_expired_reason : Reason → Bool
is_expired_reason session_expired = true
is_expired_reason _ = false

abbrev is_limit_reason : Reason → Bool
is_limit_reason limit_reached = true
is_limit_reason _ = false

-- The configuration that finishBatch writes.
unfoldable pub finished_config : ℕ → Option ApiError → Reason → Config → Config
finished_config now x reason c = record c {
  current_index = 0;
  current_total = 0;
  current_success = 0;
  last_batch_stopped_reason = some reason;
  last_error = elim x [
    | none ↦ none
    | some y ↦ if y.canceled then c.last_error else some y.message
  ];
  enabled = if is_expired_reason reason then false else c.enabled;
  last_disabled_at = if is_expired_reason reason then some now else c.last_disabled_at;
  disabled_reason = if is_expired_reason reason then some reason else c.disabled_reason;
  last_success_at = if is_none x then some now else c.last_success_at;
}

unfoldable pub log_entry : Option ApiError → Reason → Bool → Config → LogEntry
log_entry x reason manual c = record {
  level = elim x [
    | none ↦ info
    | some y ↦ if y.canceled || is_limit_reason reason then warning else error
  ];
  success = is_none x;
  summary = reason;
  by_user = manual;
  detail = elim x [ none ↦ [] | some y ↦ safe_error_text y ];
  requested = c.last_batch_requested;
  created = c.last_batch_success;
}

unfoldable pub finish_batch : Env → Option ApiError → Reason → Bool → Scheduler → Scheduler
finish_batch e x reason manual s =
    let c = finished_config e.now x reason (load s) in
    let s' = save e c s in record s' { log = log_entry x reason manual c ∷ s'.log }

-- `service.finishBatch(...)` and the return of the goroutine.
abbrev pub give_up : Env → Option ApiError → Reason → Scheduler → Batch → Scheduler × Batch
give_up e x reason s b =
    (release (finish_batch e x reason b.manual s), record b { phase = returned })

unfoldable pub set_progress : Env → ℕ → ℕ → ℕ → Scheduler → Scheduler
set_progress e index total success s =
    save e
      (record (load s) {
        current_index = index;
        current_total = total;
        current_success = success;
        last_batch_success = success;
      })
      s

unfoldable pub set_last_create_route : Env → Route → Scheduler → Scheduler
set_last_create_route e r s =
    save e
      (record (load s) {
        last_used_channel = trim_space r.used_channel;
        last_fallback_used = r.fallback_used;
        last_attempted_channels = r.attempted_channels;
      })
      s

-- The first region of runBatch.
unfoldable pub begin_batch : Env → Scheduler → Batch → Scheduler × Batch
begin_batch e s b =
    let c = normalized_create_config (load s) in
    let c' = record c {
      last_run_at = some e.now;
      last_error = none;
      last_batch_stopped_reason = none;
      last_batch_requested = c.batch_size;
      last_batch_success = 0;
      current_index = 0;
      current_total = c.batch_size;
      current_success = 0;
    } in
    if not b.manual && not c.enabled
    then (release s, record b { phase = returned })
    else (save e c' s, record b { config = c'; phase = heading 1 })

-- `ctx.Err()` of a cancelled context.
unfoldable pub context_canceled : ApiError
context_canceled = record {
  canceled = true;
  upstream_status = none;
  message = text "context canceled";
}

-- The head of the loop, up to CreateAlias.
unfoldable pub head_batch : Env → ℕ → Scheduler → Batch → Scheduler × Batch
head_batch e index s b =
    if leb index b.config.batch_size
    then (if is_done b.run s then give_up e (some context_canceled) task_stopped s b else (
      set_progress e index b.config.batch_size b.config.last_batch_success s,
      record b { phase = creating index },
    ))
    else give_up e none batch_done s b

unfoldable pub failure_reason : ApiError → Reason
failure_reason x =
    if contains x.message (text "-41015")
    then limit_reached
    else if is_session_expired x
    then session_expired
    else create_failed

unfoldable pub after_create :
    Env → ℕ → Result ApiError Route → Scheduler → Batch → Scheduler × Batch
after_create e index (err x) s b = give_up e (some x) (failure_reason x) s b
after_create e index (ok route) s b =
    let c = record (b.config) { last_batch_success = b.config.last_batch_success + 1 } in
    let s' =
      set_progress e index c.batch_size c.last_batch_success (set_last_create_route e route s) in
    (
      s',
      record b {
        config = c;
        phase = if ltb index c.batch_size then pausing index else heading (index + 1);
      },
    )

unfoldable pub step_from : Phase → Env → Reply → Scheduler → Batch → Scheduler × Batch
step_from beginning e r s b = begin_batch e s b
step_from returned e r s b = (s, record b { phase = returned })
step_from (heading index) e r s b = head_batch e index s b
step_from (creating index) e r s b = after_create e index r.create s b
step_from (pausing index) e r s b =
    if r.timer_first
    then (s, record b { phase = heading (index + 1) })
    else give_up e (some context_canceled) task_stopped s b

unfoldable pub batch_step : Env → Reply → Scheduler → Batch → Scheduler × Batch
batch_step e r s b = step_from b.phase e r s b
