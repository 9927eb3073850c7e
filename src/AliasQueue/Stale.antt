-- ===== src/AliasQueue/Stale.antt =====
-- modules/mail/backend/alias_queue.go: what a run still does once the stored job is another one,
-- after Cancel and a new Enqueue.
use running_tools.Prelude.{ℕ, ◌≡◌, leb, if◌then◌else◌, true, false, none, some, arith}
use running_tools.Prelude.Text.{text, text_eq, contains}
use running_tools.Prelude.Clock.{Env}
use running_tools.Errors.{ApiError}
use running_tools.AliasQueue.Types.{completed, Queue}
use running_tools.AliasQueue.Api.{load}
use running_tools.AliasQueue.Worker.{
  Worker, fail_with_delay, handle_create_error, after_reserve, count_success,
}

-- Where the stored job is not the one of a run, a failed ReserveAlias of the run changes nothing of
-- the job, but for error -41003. A ReserveAlias that succeeds is counted in the stored job all the
-- same, where its saving succeeds: the count becomes the index of the run, and the job is completed
-- if it asked for no more than that.
pub after_reserve-other_job :
    (e : Env) (x : ApiError) (index : ℕ) (q : Queue) (w : Worker)
    → text_eq (load q).job_id w.initial.job_id ≡ false
    → contains x.message (text "-41003") ≡ false
    → e.saved ≡ true
    → (load (after_reserve e index (some x) q w).0 ≡ load q)
      × (let s = load (after_reserve e index none q w).0 in
          (s.job_id ≡ (load q).job_id)
          × (s.success ≡ index)
          × (s.status ≡ (if leb (load q).requested index then completed else (load q).status)))
unfolding after_reserve handle_create_error fail_with_delay count_success
after_reserve-other_job e x index q w h n v =
    (ground arith, (ground arith, ground arith, ground arith))
