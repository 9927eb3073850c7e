-- ===== src/AliasQueue/Types.antt =====
-- modules/mail/backend/alias_queue.go: the constants and the types.
-- Times are nanoseconds since 1970.
use running_tools.Prelude.{ℕ, ◌*◌, Bool, true, false, Option, none, List, [], ◌==◌}
use running_tools.Prelude.Clock.{second}
use running_tools.Prelude.Text.{Text}
use running_tools.Errors.{ApiError}

abbrev pub max_alias_queue_count : ℕ
max_alias_queue_count = 99

abbrev pub alias_queue_cooldown : ℕ
alias_queue_cooldown = 1800 * second

abbrev pub alias_queue_retry : ℕ
alias_queue_retry = 60 * second

abbrev pub alias_queue_idle_poll : ℕ
alias_queue_idle_poll = 300 * second

abbrev pub alias_queue_minimum_wake : ℕ
alias_queue_minimum_wake = 100000000

-- The values of the field Status; `unset` is the empty string.
pub data Status : Type 0 where
  unset idle queued running waiting_rate_limit waiting_retry : Status
  needs_attention paused completed cancelled : Status

pub data CandidateState : Type 0 where
  no_candidate generated reserving : CandidateState

-- The values of the field LastErrorCode.
pub data ErrorCode : Type 0 where
  no_error result_confirmation_required rate_limited invalid_candidate_retry : ErrorCode
  session_expired network_retry create_error session_error queue_account_mismatch : ErrorCode
  run_cancelled : ErrorCode

abbrev pub status_tag : Status → ℕ
status_tag unset = 0
status_tag idle = 1
status_tag queued = 2
status_tag running = 3
status_tag waiting_rate_limit = 4
status_tag waiting_retry = 5
status_tag needs_attention = 6
status_tag paused = 7
status_tag completed = 8
status_tag cancelled = 9

-- `s.Status == "..."`
abbrev pub is : Status → Status → Bool
is a b = status_tag a == status_tag b

abbrev pub is_reserving : CandidateState → Bool
is_reserving reserving = true
is_reserving _ = false

-- AliasQueueStatus.
pub record Job : Type 0 where
  pub job_id : Text
  pub request_id : Text
  pub account_dsid : Text
  pub base_label : Text
  pub note : Text
  pub requested : ℕ
  pub status : Status
  pub current : ℕ
  pub success : ℕ
  pub created_at : ℕ
  pub updated_at : ℕ
  pub completed_at : Option ℕ
  pub next_attempt_at : Option ℕ
  pub last_error_code : ErrorCode
  pub last_error : Text
  pub candidate_hme : Text
  pub candidate_state : CandidateState
  pub worker_running : Bool
  pub server_now : ℕ

abbrev pub blank : Status → Job
blank status = record {
  job_id = [];
  request_id = [];
  account_dsid = [];
  base_label = [];
  note = [];
  requested = 0;
  status = status;
  current = 0;
  success = 0;
  created_at = 0;
  updated_at = 0;
  completed_at = none;
  next_attempt_at = none;
  last_error_code = no_error;
  last_error = [];
  candidate_hme = [];
  candidate_state = no_candidate;
  worker_running = false;
  server_now = 0;
}

-- AliasQueue. `file` is the job that the state file holds, `none` if it is missing, unreadable or
-- holds no job; `wake` is the channel of capacity 1; `cancel` names the run whose context the
-- stored function cancels; `cancelled_runs` are the runs whose context is cancelled; `runs` counts
-- the contexts made.
pub record Queue : Type 0 where
  pub file : Option Job
  pub worker_running : Bool
  pub wake : Bool
  pub cancel : Option ℕ
  pub cancelled_runs : List ℕ
  pub runs : ℕ

pub data QueueError : Type 0 where
  bad_label label_too_long bad_count create_in_progress idempotency_conflict : QueueError
  queue_active queue_not_paused confirmation_required queue_not_active storage_failed : QueueError
  upstream : ApiError → QueueError

-- The field Conflict, and so the HTTP status 409 in place of 400.
abbrev pub is_conflict : QueueError → Bool
is_conflict bad_label = false
is_conflict label_too_long = false
is_conflict bad_count = false
is_conflict storage_failed = false
is_conflict (upstream e) = false
is_conflict _ = true
