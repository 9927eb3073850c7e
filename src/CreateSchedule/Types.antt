-- ===== src/CreateSchedule/Types.antt =====
-- modules/mail/backend/create_schedule.go: the constants, the configuration and its limits.
-- Times are nanoseconds since 1970. The three numbers of a stored configuration that are clamped
-- are natural numbers here: a negative one in the file reads as 0, and the clamps agree on both.
use running_tools.Prelude.{ℕ, ◌*◌, Bool, false, Option, none, List, [], if◌then◌else◌, is_empty}
use running_tools.Prelude.Int.{ℤ, pos, pos_part, below, above}
use running_tools.Prelude.Clock.{second}
use running_tools.Prelude.Text.{Text, text, trim_space}

abbrev pub minimum_create_batch_size : ℕ
minimum_create_batch_size = 1

abbrev pub maximum_create_batch_size : ℕ
maximum_create_batch_size = 20

abbrev pub minimum_create_alias_interval : ℕ
minimum_create_alias_interval = 1

abbrev pub maximum_create_alias_interval : ℕ
maximum_create_alias_interval = 3600

abbrev pub minimum_create_schedule_period : ℕ
minimum_create_schedule_period = 60

abbrev pub maximum_create_schedule_period : ℕ
maximum_create_schedule_period = 7 * 24 * 60 * 60

abbrev pub create_schedule_idle_poll : ℕ
create_schedule_idle_poll = 300 * second

abbrev pub create_schedule_minimum_wake : ℕ
create_schedule_minimum_wake = 100000000

-- The reasons that the service gives for a stop, each a fixed message of the source.
pub data Reason : Type 0 where
  stopped_by_user task_stopped create_failed limit_reached session_expired batch_done : Reason

-- CreateScheduleConfig.
pub record Config : Type 0 where
  pub enabled : Bool
  pub batch_size : ℕ
  pub alias_interval_seconds : ℕ
  pub interval_seconds : ℕ
  pub label : Text
  pub note : Text
  pub last_run_at : Option ℕ
  pub last_success_at : Option ℕ
  pub last_disabled_at : Option ℕ
  pub last_error : Option Text
  pub disabled_reason : Option Reason
  pub last_batch_requested : ℕ
  pub last_batch_success : ℕ
  pub last_batch_stopped_reason : Option Reason
  pub last_used_channel : Text
  pub last_fallback_used : Bool
  pub last_attempted_channels : List Text
  pub worker_running : Bool
  pub running : Bool
  pub current_index : ℕ
  pub current_total : ℕ
  pub current_success : ℕ
  pub remaining_seconds : Option ℕ
  pub next_run_at : Option ℕ
  pub server_now : ℕ

-- What loadLocked starts from.
abbrev pub default_config : Config
default_config = record {
  enabled = false;
  batch_size = 5;
  alias_interval_seconds = 3;
  interval_seconds = 180;
  label = text "shopping";
  note = [];
  last_run_at = none;
  last_success_at = none;
  last_disabled_at = none;
  last_error = none;
  disabled_reason = none;
  last_batch_requested = 0;
  last_batch_success = 0;
  last_batch_stopped_reason = none;
  last_used_channel = [];
  last_fallback_used = false;
  last_attempted_channels = [];
  worker_running = false;
  running = false;
  current_index = 0;
  current_total = 0;
  current_success = 0;
  remaining_seconds = none;
  next_run_at = none;
  server_now = 0;
}

-- `clamp`, for the limits of the program, which are not negative.
unfoldable pub clamp : ℤ → ℕ → ℕ → ℕ
clamp value minimum maximum =
    if below value minimum then minimum else if above value maximum then maximum else pos_part value

unfoldable pub normalized_create_config : Config → Config
normalized_create_config c = record c {
  batch_size = clamp (pos c.batch_size) minimum_create_batch_size maximum_create_batch_size;
  alias_interval_seconds =
      clamp (pos c.alias_interval_seconds) minimum_create_alias_interval
        maximum_create_alias_interval;
  interval_seconds =
      clamp (pos c.interval_seconds) minimum_create_schedule_period maximum_create_schedule_period;
  label = if is_empty (trim_space c.label) then text "shopping" else c.label;
}

unfoldable pub persistent_create_config : Config → Config
persistent_create_config c = record c {
  worker_running = false;
  running = false;
  remaining_seconds = none;
  next_run_at = none;
  server_now = 0;
}

-- What the activity log is told of a batch.
pub data Level : Type 0 where
  info warning error : Level

pub record LogEntry : Type 0 where
  pub level : Level
  pub success : Bool
  pub summary : Reason
  pub by_user : Bool
  pub detail : Text
  pub requested : ℕ
  pub created : ℕ

-- CreateScheduler. `file` is the stored configuration; `running` says that `runLock` is taken;
-- `cancel` names the run whose context the stored function cancels; `log` is newest first.
pub record Scheduler : Type 0 where
  pub file : Option Config
  pub worker_running : Bool
  pub running : Bool
  pub wake : Bool
  pub cancel : Option ℕ
  pub cancelled_runs : List ℕ
  pub runs : ℕ
  pub log : List LogEntry
