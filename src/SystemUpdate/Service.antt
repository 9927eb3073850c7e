-- ===== src/SystemUpdate/Service.antt =====
-- internal/platform/systemupdate/service.go: the status file, which the host writes too, and the two
-- request files, which the host reads. Times are nanoseconds since 1970; an operation reads the
-- clock once.
use running_tools.Prelude.{
  ℕ, ◌+◌, ◌*◌, Bool, true, false, not, ◌&&◌, Option, none, some, [], ltb, if◌then◌else◌, is_empty,
  Result, ok, err,
}
use running_tools.Prelude.Text.{Text, text, text_eq, trim_space}
use running_tools.Prelude.Clock.{second}

abbrev pub stale_after : ℕ
stale_after = 1800 * second

pub data UpdateError : Type 0 where
  in_progress check_required no_update_available no_id not_written : UpdateError

-- The field State; `unnamed` is any text that the code does not name.
pub data State : Type 0 where
  unset idle check_queued checking update_queued updating queued building restarting error : State
  unnamed : Text → State

pub data Action : Type 0 where
  check update : Action

-- Status.
pub record Status : Type 0 where
  pub state : State
  pub action : Option Action
  pub message : Text
  pub current_version : Text
  pub latest_version : Option Text
  pub current_revision : Text
  pub latest_revision : Option Text
  pub update_available : Option Bool
  pub request_id : Option Text
  pub requested_at : Option ℕ
  pub started_at : Option ℕ
  pub finished_at : Option ℕ
  pub updated_at : Option ℕ
  pub failure : Option Text
  pub can_request_update : Bool
  pub repository_url : Text

abbrev pub no_status : Status
no_status = record {
  state = unset;
  action = none;
  message = [];
  current_version = [];
  latest_version = none;
  current_revision = [];
  latest_revision = none;
  update_available = none;
  request_id = none;
  requested_at = none;
  started_at = none;
  finished_at = none;
  updated_at = none;
  failure = none;
  can_request_update = false;
  repository_url = [];
}

-- requestFile.
pub record RequestFile : Type 0 where
  pub request_id : Text
  pub requested_at : ℕ
  pub action : Action

-- A file: what is read from it, and when it was modified.
pub record File (A : Type 0) : Type 0 where
  pub content : A
  pub modified : ℕ

-- stateDir: update-status.json, check-request.json and update-request.json.
pub record StateDir : Type 0 where
  pub status : Option (File Status)
  pub check_request : Option (File RequestFile)
  pub update_request : Option (File RequestFile)

-- Service, less its directory and clock.
pub record Service : Type 0 where
  pub version : Text
  pub revision : Text
  pub repository_url : Text

-- What an operation meets: the clock, which is also that of the files; the id that is drawn; and
-- whether the writes of the status, of the request and of the status after an error succeed.
pub record Call : Type 0 where
  pub now : ℕ
  pub id : Option Text
  pub status_written : Bool
  pub request_written : Bool
  pub failure_written : Bool

abbrev or_default : Text → Text → Text
or_default value default = if is_empty value then default else value

-- New.
unfoldable pub new : Text → Text → Text → Service
new version revision repository_url = record {
  version = or_default (trim_space version) (text "0.0.1");
  revision = or_default (trim_space revision) (text "dev");
  repository_url = repository_url;
}

abbrev pub mod_time : {A : Type 0} → Option (File A) → Option ℕ
mod_time none = none
mod_time (some f) = some f.modified

-- `now.Sub(at) < staleAfter`, for a time that is not zero.
abbrev pub recent : ℕ → Option ℕ → Bool
recent now none = false
recent now (some at) = ltb now (at + stale_after)

abbrev pub is_busy : State → Bool
is_busy check_queued = true
is_busy checking = true
is_busy update_queued = true
is_busy updating = true
is_busy queued = true
is_busy building = true
is_busy restarting = true
is_busy state = false

-- A time above 0, or else another.
abbrev positive_or : Option ℕ → Option ℕ → Option ℕ
positive_or none other = other
positive_or (some at) other = if ltb 0 at then some at else other

unfoldable pub active : ℕ → Status → Option ℕ → Bool
active now s fallback =
    is_busy s.state && recent now (positive_or s.updated_at (positive_or s.requested_at fallback))

-- What the fields of the latest version and revision become.
unfoldable pub compared : Text → Status → Status
compared revision s = elim s.latest_revision [
  | none ↦ record s { latest_version = none; latest_revision = none; update_available = none }
  | some latest ↦
      if is_empty (trim_space latest)
      then record s { latest_version = none; latest_revision = none; update_available = none }
      else record s { update_available = some (not (text_eq (trim_space latest) revision)) }
]

abbrev is_unset : State → Bool
is_unset unset = true
is_unset state = false

abbrev pub read_status : StateDir → Status
read_status d = elim d.status [ none ↦ no_status | some f ↦ f.content ]

-- What Status reads, with the fields that are the server's own.
unfoldable pub named_status : Service → StateDir → Status
named_status v d =
    let s = read_status d in
    let t = if is_unset s.state then record s { state = idle; message = text "尚未检查更新" } else s in
    record t {
      current_version = v.version;
      current_revision = v.revision;
      repository_url = v.repository_url;
    }

-- Status.
unfoldable pub status : ℕ → Service → StateDir → Status
unfolding compared
status now v d =
    let s = compared v.revision (named_status v d) in
    record s { can_request_update = not (active now s (mod_time d.status)) }

abbrev pub request_file : Action → StateDir → Option (File RequestFile)
request_file check d = d.check_request
request_file update d = d.update_request

abbrev pub put_request : Action → File RequestFile → StateDir → StateDir
put_request check f d = record d { check_request = some f }
put_request update f d = record d { update_request = some f }

abbrev pub queued_state : Action → State
queued_state update = update_queued
queued_state check = check_queued

abbrev queued_message : Action → Text
queued_message update = text "更新请求已提交"
queued_message check = text "检查请求已提交"

-- The check of `enqueue` for the action "update".
abbrev pub refused : Action → Status → Option UpdateError
refused update s = elim s.update_available [
  | none ↦ some check_required
  | some available ↦ if available then none else some no_update_available
]
refused check s = none

-- The status that `enqueue` writes.
unfoldable pub queued_status : ℕ → Service → Action → Text → Status → Status
queued_status now v action id s = record no_status {
  state = queued_state action;
  action = some action;
  message = queued_message action;
  current_version = v.version;
  latest_version = s.latest_version;
  current_revision = v.revision;
  latest_revision = s.latest_revision;
  update_available = s.update_available;
  request_id = some id;
  requested_at = some now;
  updated_at = some now;
  repository_url = v.repository_url;
}

abbrev pub failed : ℕ → Status → Status
failed now s = record s {
  state = error;
  message = text "请求提交失败";
  failure = some (text "无法写入宿主机更新请求文件");
  finished_at = some now;
  can_request_update = true;
}

abbrev write_status : ℕ → Bool → Status → StateDir → StateDir
write_status now written s d =
    if written then record d { status = some (record { content = s; modified = now }) } else d

-- The two writes of `enqueue`.
unfoldable pub submit :
    Call → Action → Text → Status → StateDir → StateDir × Result UpdateError Status
submit c action id s d =
    let d' = write_status c.now c.status_written s d in
    if not c.status_written
    then (d, err not_written)
    else if not c.request_written
    then (write_status c.now c.failure_written (failed c.now s) d', err not_written)
    else (
      put_request action
          (record {
            content = record { request_id = id; requested_at = c.now; action = action };
            modified = c.now;
          })
          d',
      ok s,
    )

-- enqueue, which Check calls with `check` and Request with `update`.
unfoldable pub enqueue : Call → Service → Action → StateDir → StateDir × Result UpdateError Status
unfolding submit
enqueue c v action d =
    let s = status c.now v d in
    if not s.can_request_update then (d, err in_progress) else elim (refused action s) [
      | some e ↦ (d, err e)
      | none ↦
          if recent c.now (mod_time (request_file action d))
          then (d, err in_progress)
          else elim c.id [
            | none ↦ (d, err no_id)
            | some id ↦ submit c action id (queued_status c.now v action id s) d
          ]
    ]
