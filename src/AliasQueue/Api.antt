-- ===== src/AliasQueue/Api.antt =====
-- modules/mail/backend/alias_queue.go: the operations that the API and the process call.
-- An operation takes the clock's reading and whether its write of the state file succeeds; one
-- region under the mutex reads the clock once.
use running_tools.Prelude.{
  ℕ, ◌+◌, ◌-◌, Bool, true, false, not, ◌&&◌, ◌||◌, Option, none, some, List, [], ◌∷◌, ltb, leb,
  ◌==◌, if◌then◌else◌, is_empty, length, some_of, Result, ok, err,
}
use running_tools.Prelude.Int.{ℤ, pos_part, below, above}
use running_tools.Prelude.Text.{Text, text, text_eq, trim_space, equal_fold}
use running_tools.Errors.{ApiError}
use running_tools.Prelude.Clock.{Env}
use running_tools.AliasQueue.Types.{
  alias_queue_idle_poll, alias_queue_minimum_wake, max_alias_queue_count, Status, unset, idle,
  queued, running, waiting_rate_limit, waiting_retry, needs_attention, paused, completed, cancelled,
  no_candidate, result_confirmation_required, is, is_reserving, Job, blank, Queue, QueueError,
  bad_label, label_too_long, bad_count, create_in_progress, idempotency_conflict, queue_active,
  queue_not_paused, confirmation_required, queue_not_active, storage_failed, upstream,
}

abbrev pub load : Queue → Job
load q = elim q.file [ none ↦ blank idle | some job ↦ job ]

-- `_ = q.saveLocked(s)`
abbrev pub save : Env → Job → Queue → Queue
save e s q = if e.saved then record q { file = some s } else q

abbrev pub public_status : Job → Job
public_status s = record s { account_dsid = [] }

abbrev pub signal_wake : Queue → Queue
signal_wake q = record q { wake = true }

unfoldable pub status : Env → Queue → Job
status e q = public_status (record s {
  worker_running = q.worker_running;
  server_now = e.now;
  status = if is s.status unset then idle else s.status;
})
  where
    s : Job
    s = load q

unfoldable pub active : Env → Queue → Bool
unfolding status
active e q =
    let s = (status e q).status in
    not (is s unset) && not (is s idle) && not (is s completed) && not (is s cancelled)

abbrev restart_message : Text
restart_message = text "服务在保留邮箱时重启，请确认结果后继续"

-- What Start makes of a job that a stopped process left running.
unfoldable pub recover : ℕ → Job → Job
recover now s =
    if not (is_empty s.candidate_hme) && is_reserving s.candidate_state
    then record s {
      updated_at = now;
      status = needs_attention;
      last_error_code = result_confirmation_required;
      last_error = restart_message;
      next_attempt_at = none;
    }
    else record s { updated_at = now; status = queued; next_attempt_at = some now }

-- Start, less the goroutine of the timer loop.
unfoldable pub start : Env → Queue → Queue
unfolding recover
start e q =
    if q.worker_running
    then q
    else let s = load q in
      let q' = record q { worker_running = true } in
      if is s.status running then save e (recover e.now s) q' else q'

abbrev pub cancel_run : Option ℕ → Queue → Queue
cancel_run none q = q
cancel_run (some run) q = record q { cancelled_runs = run ∷ q.cancelled_runs }

unfoldable pub stop : Queue → Queue
stop q = if q.worker_running then cancel_run q.cancel (record q { worker_running = false }) else q

-- How long the loop sleeps: the delays of `nextWakeDelay`.
unfoldable pub next_wake_delay : ℕ → Queue → ℕ
next_wake_delay now q =
    let s = load q in
    elim s.next_attempt_at [
      | none ↦ alias_queue_idle_poll
      | some at ↦
          if is_empty s.job_id
          then alias_queue_idle_poll
          else if is s.status queued || is s.status waiting_rate_limit || is s.status waiting_retry
          then (if leb at (now + alias_queue_minimum_wake)
              then alias_queue_minimum_wake
              else if leb (now + alias_queue_idle_poll) at
              then alias_queue_idle_poll
              else at - now)
          else alias_queue_idle_poll
    ]

-- The job that Enqueue writes. `id` is `newID()`, `dsid` the account of the Session.
unfoldable pub new_job : ℕ → Text → Text → Text → ℕ → Text → Text → Job
new_job now id dsid base count note request_id = record (blank queued) {
  job_id = id;
  request_id = request_id;
  account_dsid = dsid;
  base_label = base;
  note = note;
  requested = count;
  created_at = now;
  updated_at = now;
  next_attempt_at = some now;
}

-- The part of Enqueue under the mutex. `client` is `q.session.Client()`: the DSID or its error.
unfoldable pub enqueue_locked :
    Env
    → Text
    → Result ApiError Text
    → Text
    → ℕ
    → Text
    → Text
    → Queue
    → Queue × Result QueueError Job
enqueue_locked e id client base count note request_id q =
    let s = load q in
    if not (is_empty request_id) && text_eq s.request_id request_id
    then (if text_eq s.base_label base && s.requested == count && text_eq s.note note
        then (q, ok (public_status s))
        else (q, err idempotency_conflict))
    else if not (is_empty s.job_id)
        && not (is s.status completed)
        && not (is s.status cancelled)
        && not (is s.status idle)
    then (q, err queue_active)
    else elim client [
      | err x ↦ (q, err (upstream x))
      | ok dsid ↦
          let job = new_job e.now id dsid base count note request_id in
          if e.saved
          then (signal_wake (record q { file = some job }), ok (public_status job))
          else (q, err storage_failed)
    ]

-- Enqueue. `blocked` is the answer of the create scheduler.
unfoldable pub enqueue :
    Env
    → Bool
    → Text
    → Result ApiError Text
    → Text
    → ℤ
    → Text
    → Text
    → Queue
    → Queue × Result QueueError Job
enqueue e blocked id client base count note request_id q =
    let base' = trim_space base in
    if is_empty base'
    then (q, err bad_label)
    else if below count 1 || above count max_alias_queue_count
    then (q, err bad_count)
    else if ltb 160 (length base' + 2)
    then (q, err label_too_long)
    else if blocked
    then (q, err create_in_progress)
    else enqueue_locked e id client base' (pos_part count) (trim_space note) (trim_space request_id)
        q

-- control, which Pause calls with `paused` and Cancel with `cancelled`.
unfoldable pub control : Env → Text → Status → Queue → Queue × Result QueueError Job
control e job_id target q =
    let s = load q in
    if is_empty s.job_id
      || not (is_empty job_id) && not (text_eq s.job_id job_id)
      || is s.status completed
      || is s.status cancelled
    then (q, err queue_not_active)
    else let s' = record s {
      status = target;
      updated_at = e.now;
      next_attempt_at = none;
      completed_at = if is target cancelled then some e.now else s.completed_at;
    } in
      if e.saved
      then (cancel_run q.cancel (record q { cancel = none; file = some s' }), ok (public_status s'))
      else (record q { cancel = none }, err storage_failed)

-- Resume, region by region: the mutex is free between them. First the check.
unfoldable pub resume_check : Text → Queue → Bool
resume_check job_id q =
    let s = load q in
    not (
      is_empty s.job_id
      || not (is_empty job_id) && not (text_eq s.job_id job_id)
      || not (is s.status paused) && not (is s.status needs_attention))

-- Whether the candidate is among the addresses that Apple lists.
unfoldable pub is_listed : List Text → Text → Bool
is_listed aliases candidate = some_of (λ hme. equal_fold (trim_space hme) candidate) aliases

-- Then, for a job that needs attention with a candidate, what the listing says of it.
unfoldable pub resume_confirm : Env → Bool → Queue → Queue
resume_confirm e matched q =
    let s = load q in
    let s' = record s {
      current = if matched then s.current + 1 else s.current;
      success = if matched then s.success + 1 else s.success;
      candidate_hme = [];
      candidate_state = no_candidate;
    } in
    save e s' q

-- Then the new status.
unfoldable pub resume_finish : Env → Queue → Queue × Result QueueError Job
resume_finish e q =
    let s = load q in
    let s' =
      if leb s.requested s.current
      then record s {
        status = completed;
        completed_at = some e.now;
        next_attempt_at = none;
        updated_at = e.now;
      }
      else record s { status = queued; next_attempt_at = some e.now; updated_at = e.now } in
    if e.saved
    then (if leb s.requested s.current
        then (record q { file = some s' }, ok (public_status s'))
        else (signal_wake (record q { file = some s' }), ok (public_status s')))
    else (q, err storage_failed)

-- Resume with nothing in between. `listing` is what the Client and its ListAliases return.
unfoldable pub resume :
    Env → Text → Bool → Result ApiError (List Text) → Queue → Queue × Result QueueError Job
resume e job_id confirm_uncertain listing q =
    let s = load q in
    if resume_check job_id q
    then (if is s.status needs_attention && not (is_empty s.candidate_hme)
        then elim listing [
          | err x ↦ (q, err (upstream x))
          | ok aliases ↦
              let matched = is_listed aliases s.candidate_hme in
              if not matched && not confirm_uncertain
              then (q, err confirmation_required)
              else resume_finish e (resume_confirm e matched q)
        ]
        else resume_finish e q)
    else (q, err queue_not_paused)
