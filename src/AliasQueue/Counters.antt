-- ===== src/AliasQueue/Counters.antt =====
-- Every region of the API, and the start of a run, keeps the stored job right.
use running_tools.Prelude.{
  ℕ, ◌+◌, ◌≤◌, ◌≡◌, Bool, true, false, List, arith, length, Result, ok, err,
}
use running_tools.Prelude.Int.{ℤ, pos, negsuc}
use running_tools.Prelude.Text.{Text, trim_space}
use running_tools.Errors.{ApiError}
use running_tools.Prelude.Clock.{Env}
use running_tools.AliasQueue.Types.{Status, completed, is, Queue}
use running_tools.AliasQueue.Api.{
  load, start, stop, new_job, enqueue_locked, enqueue, control, resume_confirm, resume_finish,
}
use running_tools.AliasQueue.Worker.{run_if_due}
use running_tools.AliasQueue.Machine.{restart, resume_listed, JobOk}

pub control-JobOk :
    (e : Env) (job_id : Text) (target : Status) (q : Queue)
    → is target completed ≡ false
    → JobOk (load q)
    → JobOk (load (control e job_id target q).0)
unfolding control
control-JobOk e job_id target q t v = ground arith

pub resume_finish-JobOk :
    (e : Env) (q : Queue) → JobOk (load q) → JobOk (load (resume_finish e q).0)
unfolding resume_finish
resume_finish-JobOk e q v = ground arith

resume_confirm-JobOk :
    (e : Env) (matched : Bool) (q : Queue)
    → JobOk (load q)
    → JobOk (load (resume_confirm e matched q))
unfolding resume_confirm
resume_confirm-JobOk e matched q v = ground arith

pub resume_listed-JobOk :
    (e : Env) (confirm : Bool) (candidate : Text) (answer : Result ApiError (List Text)) (q : Queue)
    → JobOk (load q)
    → JobOk (load (resume_listed e confirm candidate answer q).0)
unfolding resume_listed
resume_listed-JobOk e confirm candidate (err x) q v = v
resume_listed-JobOk e confirm candidate (ok aliases) q v =
    ground (arith, resume_confirm-JobOk e true q, resume_confirm-JobOk e false q)

new_job-JobOk :
    (now : ℕ) (id dsid base : Text) (count : ℕ) (note request_id : Text)
    → count ≤ 99
    → length base + 2 ≤ 160
    → JobOk (new_job now id dsid base count note request_id)
unfolding new_job
new_job-JobOk now id dsid base count note request_id h k = ground arith

enqueue_locked-JobOk :
    (e : Env) (id : Text) (client : Result ApiError Text) (base : Text) (count : ℕ)
    (note request_id : Text) (q : Queue)
    → count ≤ 99
    → length base + 2 ≤ 160
    → JobOk (load q)
    → JobOk (load (enqueue_locked e id client base count note request_id q).0)
unfolding enqueue_locked
enqueue_locked-JobOk e id (ok dsid) base count note request_id q h k v =
    ground (arith, new_job-JobOk e.now id dsid base count note request_id h k)
enqueue_locked-JobOk e id (err x) base count note request_id q h k v = ground arith

pub enqueue-JobOk :
    (e : Env) (blocked : Bool) (id : Text) (client : Result ApiError Text) (base : Text) (count : ℤ)
    (note request_id : Text) (q : Queue)
    → JobOk (load q)
    → JobOk (load (enqueue e blocked id client base count note request_id q).0)
unfolding enqueue
enqueue-JobOk e blocked id client base (negsuc n) note request_id q v = ground arith
enqueue-JobOk e blocked id client base (pos n) note request_id q v = ground (
  arith,
  enqueue_locked-JobOk e id client (trim_space base) n (trim_space note) (trim_space request_id) q,
)

pub stop-JobOk : (q : Queue) → JobOk (load q) → JobOk (load (stop q))
unfolding stop
stop-JobOk q v = ground arith

pub restart-JobOk : (e : Env) (q : Queue) → JobOk (load q) → JobOk (load (restart e q))
unfolding start
restart-JobOk e q v = ground arith

pub run_if_due-JobOk : (e : Env) (q : Queue) → JobOk (load q) → JobOk (load (run_if_due e q).0)
unfolding run_if_due
run_if_due-JobOk e q v = ground arith
