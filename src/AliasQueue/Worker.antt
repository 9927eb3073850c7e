-- ===== src/AliasQueue/Worker.antt =====
-- modules/mail/backend/alias_queue.go: runIfDue, and the goroutine `run` as a machine.
-- `run` gives up the mutex around each call of Apple and each wait; a step below is what it does
-- from one such point to the next, so that other operations can come in between.
use running_tools.Prelude.{
  ℕ, ◌+◌, ◌*◌, ◌/◌, ◌%◌, Bool, true, false, not, ◌&&◌, ◌||◌, Option, none, some, [], ◌∷◌, ◌++◌, ltb,
  leb, ◌==◌, if◌then◌else◌, is_empty, some_of, Result, ok, err,
}
use running_tools.Prelude.Text.{Text, text, text_eq, to_lower, contains}
use running_tools.Errors.{ApiError, is_session_expired, safe_error_text}
use running_tools.Prelude.Clock.{second, Env}
use running_tools.AliasQueue.Types.{
  alias_queue_cooldown, alias_queue_retry, Status, queued, running, waiting_rate_limit,
  waiting_retry, needs_attention, paused, completed, cancelled, no_candidate, generated, reserving,
  ErrorCode, result_confirmation_required, rate_limited, invalid_candidate_retry, session_expired,
  network_retry, create_error, session_error, queue_account_mismatch, run_cancelled, is, Job, Queue,
}
use running_tools.AliasQueue.Api.{load, save, signal_wake}

-- Where `run` stands: before the Client; at the head of the loop; in GenerateAlias; before the
-- region that claims the candidate; in ReserveAlias; in the pause between two addresses; returned.
pub data Phase : Type 0 where
  connecting looping spacing finished : Phase
  generating : ℕ → Text → Phase
  claiming confirming : ℕ → Text → Text → Phase

-- A goroutine `run`: its context, its variable `initial`, and its place. `claiming` and
-- `confirming` hold `index`, `label` and `candidate`.
pub record Worker : Type 0 where
  pub run : ℕ
  pub initial : Job
  pub phase : Phase

-- What the calls of one step return. `timer_first` says which case of the last `select` is taken.
pub record Reply : Type 0 where
  pub client : Result ApiError Text
  pub generate : Result ApiError Text
  pub reserve : Option ApiError
  pub timer_first : Bool

abbrev pub return : Queue → Worker → Queue × Worker
return q w = (signal_wake (record q { cancel = none }), record w { phase = finished })

abbrev pub is_done : ℕ → Queue → Bool
is_done run q = some_of (λ r. r == run) q.cancelled_runs

-- failWithDelay; no delay is `none`.
unfoldable pub fail_with_delay :
    Env → Text → ApiError → ErrorCode → Status → Option ℕ → Queue → Queue
fail_with_delay e job_id x code state delay q =
    let s = load q in
    if text_eq s.job_id job_id
    then save e
        (record s {
          status = state;
          last_error_code = code;
          last_error = safe_error_text x;
          updated_at = e.now;
          next_attempt_at = elim delay [ none ↦ none | some d ↦ some (e.now + d) ];
        })
        q
    else q

abbrev pub fail : Env → Text → ApiError → ErrorCode → Status → Queue → Queue
fail e job_id x code state = fail_with_delay e job_id x code state none

-- The branch of handleCreateError for error -41003. It does not look at the job's id.
unfoldable pub retry_candidate : Env → ApiError → Queue → Queue
retry_candidate e x q =
    save e
      (record (load q) {
        candidate_hme = [];
        candidate_state = no_candidate;
        status = waiting_retry;
        last_error_code = invalid_candidate_retry;
        last_error = safe_error_text x;
        next_attempt_at = some (e.now + 2 * second);
        updated_at = e.now;
      })
      q

abbrev pub is_transient : ApiError → Bool
is_transient x =
    contains (to_lower x.message) (text "network") || contains (to_lower x.message) (text "timeout")

unfoldable pub handle_create_error : Env → Text → ApiError → Bool → Queue → Queue
handle_create_error e job_id x reserve_started q =
    if contains x.message (text "-41015")
    then fail_with_delay e job_id x rate_limited waiting_rate_limit (some alias_queue_cooldown) q
    else if contains x.message (text "-41003")
    then retry_candidate e x q
    else if is_session_expired x
    then fail e job_id x session_expired needs_attention q
    else if is_transient x
    then (if reserve_started
        then fail e job_id x result_confirmation_required needs_attention q
        else fail_with_delay e job_id x network_retry waiting_retry (some alias_queue_retry) q)
    else fail e job_id x create_error needs_attention q

-- The end of runIfDue: the context, the state file, the goroutine.
begin_run : Env → Job → Queue → Queue × Option Worker
begin_run e s q = (
  save e s (record q { cancel = some q.runs; runs = q.runs + 1 }),
  some (record { run = q.runs; initial = s; phase = connecting }),
)

-- runIfDue: the queue, and the goroutine that it starts.
unfoldable pub run_if_due : Env → Queue → Queue × Option Worker
unfolding begin_run
run_if_due e q =
    let s = load q in
    elim s.next_attempt_at [
      | none ↦ (q, none)
      | some at ↦
          if is_empty s.job_id || ltb e.now at
          then (q, none)
          else if is s.status waiting_rate_limit || is s.status waiting_retry || is s.status queued
          then begin_run e (record s { status = running; updated_at = e.now }) q
          else (q, none)
    ]

-- `fmt.Sprintf("%s%02d", base, index)`, for an index below 100.
unfoldable pub label_of : Text → ℕ → Text
label_of base index = base ++ (b'0' + index / 10) ∷ (b'0' + index % 10) ∷ []

-- `ctx.Err()` of a cancelled context.
unfoldable pub context_canceled : ApiError
context_canceled = record {
  canceled = true;
  upstream_status = none;
  message = text "context canceled";
}

unfoldable pub account_mismatch : ApiError
account_mismatch = record {
  canceled = false;
  upstream_status = none;
  message = text "当前 Session 与队列绑定的 iCloud 账号不一致";
}

unfoldable pub connect : Env → Result ApiError Text → Queue → Worker → Queue × Worker
connect e (err x) q w = return (fail e w.initial.job_id x session_error needs_attention q) w
connect e (ok dsid) q w =
    if not (is_empty w.initial.account_dsid) && not (text_eq dsid w.initial.account_dsid)
    then return (fail e w.initial.job_id account_mismatch queue_account_mismatch needs_attention q)
        w
    else (q, record w { phase = looping })

-- The head of the loop, up to GenerateAlias or to the region that claims a candidate.
unfoldable pub loop_head : Env → Queue → Worker → Queue × Worker
loop_head e q w =
    let s = w.initial in
    let index = s.current + 1 in
    let label = label_of s.base_label index in
    if ltb s.current s.requested
    then (if is_done w.run q
        then return
            (if is (load q).status cancelled
              then q
              else fail e s.job_id context_canceled run_cancelled paused q)
            w
        else if is_empty s.candidate_hme
        then (q, record w { phase = generating index label })
        else (q, record w { phase = claiming index label s.candidate_hme }))
    else return q w

-- From GenerateAlias's return to the region that claims the candidate.
unfoldable pub after_generate :
    Env → ℕ → Text → Result ApiError Text → Queue → Worker → Queue × Worker
after_generate e index label (err x) q w =
    return (if x.canceled then q else handle_create_error e w.initial.job_id x false q) w
after_generate e index label (ok candidate) q w =
    let s = record (load q) {
      candidate_hme = candidate;
      candidate_state = generated;
      updated_at = e.now;
    } in
    (save e s q, record w { initial = s; phase = claiming index label candidate })

unfoldable pub claim : Env → ℕ → Text → Text → Queue → Worker → Queue × Worker
claim e index label candidate q w =
    let s = load q in
    if is s.status cancelled || is s.status paused then return q w else (
      save e (record s { candidate_state = reserving; updated_at = e.now }) q,
      record w { phase = confirming index label candidate },
    )

-- The job once address number `index` is reserved.
unfoldable pub count_success : ℕ → ℕ → Job → Job
count_success now index s =
    let s' = record s {
      current = index;
      success = index;
      candidate_hme = [];
      candidate_state = no_candidate;
      updated_at = now;
    } in
    if leb s.requested index
    then record s' { completed_at = some now; next_attempt_at = none; status = completed }
    else s'

unfoldable pub after_reserve : Env → ℕ → Option ApiError → Queue → Worker → Queue × Worker
after_reserve e index (some x) q w =
    return (if x.canceled then q else handle_create_error e w.initial.job_id x true q) w
after_reserve e index none q w =
    let s = count_success e.now index (load q) in
    (
      save e s q,
      record w { initial = s; phase = if ltb index s.requested then spacing else looping },
    )

-- One step of `run`, from where it stands.
unfoldable pub step_from : Phase → Env → Reply → Queue → Worker → Queue × Worker
step_from connecting e r q w = connect e r.client q w
step_from looping e r q w = loop_head e q w
step_from (generating index label) e r q w = after_generate e index label r.generate q w
step_from (claiming index label candidate) e r q w = claim e index label candidate q w
step_from (confirming index label candidate) e r q w = after_reserve e index r.reserve q w
step_from spacing e r q w = if r.timer_first then (q, record w { phase = looping }) else return q w
step_from finished e r q w = (q, record w { phase = finished })

unfoldable pub worker_step : Env → Reply → Queue → Worker → Queue × Worker
worker_step e r q w = step_from w.phase e r q w
