-- ===== src/AliasQueue/Machine.antt =====
-- The queue with its goroutines and the calls of Resume that are under way: every order in which the
-- regions under the mutex of modules/mail/backend/alias_queue.go can follow one another, one at a
-- time. Several goroutines `run` may be at work, as one that was cancelled is not waited for.
use running_tools.Prelude.{
  ℕ, ◌+◌, ◌≤◌, ◌≡◌, Bool, true, false, not, ◌&&◌, ◌||◌, Option, none, some, List, [], ◌∷◌, ◌++◌,
  if◌then◌else◌, is_empty, is_none, length, All, Result, ok, err,
}
use running_tools.Prelude.Int.{ℤ}
use running_tools.Prelude.Text.{Text}
use running_tools.Errors.{ApiError}
use running_tools.Prelude.Clock.{Env}
use running_tools.AliasQueue.Types.{
  Status, needs_attention, paused, completed, cancelled, is, Job, Queue, max_alias_queue_count,
}
use running_tools.AliasQueue.Api.{
  load, start, stop, enqueue, control, resume_check, is_listed, resume_confirm, resume_finish,
}
use running_tools.AliasQueue.Worker.{
  Phase, connecting, looping, spacing, finished, generating, claiming, confirming, Worker, Reply,
  run_if_due, worker_step,
}

-- A call of Resume between two of its regions: at the Client and ListAliases, with its argument
-- `confirmUncertain` and the candidate that it has read; or before the region of the new status.
pub data Resuming : Type 0 where
  listing : Bool → Text → Resuming
  finishing : Resuming

-- What the first region of Resume leads to; nothing where the call returns its error.
unfoldable pub resume_begin : Text → Bool → Queue → List Resuming
resume_begin job_id confirm q =
    let s = load q in
    if resume_check job_id q
    then (if is s.status needs_attention && not (is_empty s.candidate_hme)
        then listing confirm s.candidate_hme ∷ []
        else finishing ∷ [])
    else []

-- What the answer of Apple leads to, with the region that takes the candidate away.
unfoldable pub resume_listed :
    Env → Bool → Text → Result ApiError (List Text) → Queue → Queue × List Resuming
resume_listed e confirm candidate (err x) q = (q, [])
resume_listed e confirm candidate (ok aliases) q =
    let matched = is_listed aliases candidate in
    if not matched && not confirm then (q, []) else (resume_confirm e matched q, finishing ∷ [])

pub record Machine : Type 0 where
  pub queue : Queue
  pub workers : List Worker
  pub resumes : List Resuming

-- The process stops, which ends its goroutines, and Start runs on the state file.
abbrev pub restart : Env → Queue → Queue
restart e q = start e (record q { worker_running = false; cancel = none; wake = false })

abbrev pub added : Option Worker → List Worker → List Worker
added none ws = ws
added (some w) ws = w ∷ ws

pub data Step : Machine → Machine → Type 0 where
  enqueues :
      (e : Env) (blocked : Bool) (id : Text) (client : Result ApiError Text) (base : Text)
      (count : ℤ) (note request_id : Text) (m : Machine)
      → Step m
          (record m { queue = (enqueue e blocked id client base count note request_id m.queue).0 })
  pauses :
      (e : Env) (job_id : Text) (m : Machine)
      → Step m (record m { queue = (control e job_id paused m.queue).0 })
  cancels :
      (e : Env) (job_id : Text) (m : Machine)
      → Step m (record m { queue = (control e job_id cancelled m.queue).0 })
  resumes :
      (job_id : Text) (confirm : Bool) (m : Machine)
      → Step m (record m { resumes = resume_begin job_id confirm m.queue ++ m.resumes })
  lists :
      (e : Env) (answer : Result ApiError (List Text)) (confirm : Bool) (candidate : Text)
      (q : Queue) (ws : List Worker) (before after : List Resuming)
      → Step
          (record {
            queue = q;
            workers = ws;
            resumes = before ++ (listing confirm candidate ∷ after);
          })
          (record {
            queue = (resume_listed e confirm candidate answer q).0;
            workers = ws;
            resumes = before ++ ((resume_listed e confirm candidate answer q).1 ++ after);
          })
  finishes :
      (e : Env) (q : Queue) (ws : List Worker) (before after : List Resuming)
      → Step
          (record { queue = q; workers = ws; resumes = before ++ (finishing ∷ after) })
          (record { queue = (resume_finish e q).0; workers = ws; resumes = before ++ after })
  wakes :
      (e : Env) (m : Machine)
      → Step m (record m {
        queue = (run_if_due e m.queue).0;
        workers = added (run_if_due e m.queue).1 m.workers;
      })
  works :
      (e : Env) (r : Reply) (q : Queue) (w : Worker) (us vs : List Worker) (rs : List Resuming)
      → Step
          (record { queue = q; workers = us ++ (w ∷ vs); resumes = rs })
          (record {
            queue = (worker_step e r q w).0;
            workers = us ++ ((worker_step e r q w).1 ∷ vs);
            resumes = rs;
          })
  returns :
      (q : Queue) (w : Worker) (us vs : List Worker) (rs : List Resuming)
      → w.phase ≡ finished
      → Step
          (record { queue = q; workers = us ++ (w ∷ vs); resumes = rs })
          (record { queue = q; workers = us ++ vs; resumes = rs })
  stops : (m : Machine) → Step m (record m { queue = stop m.queue })
  restarts :
      (e : Env) (m : Machine)
      → Step m (record { queue = restart e m.queue; workers = []; resumes = [] })

pub data Reach (m : Machine) : Machine → Type 0 where
  here : Reach m m
  next : {n p : Machine} → Reach m n → Step n p → Reach m p

-- Over: completed or cancelled. At rest: that, or waiting for the user.
abbrev pub is_over : Status → Bool
is_over s = is s completed || is s cancelled

abbrev pub is_at_rest : Status → Bool
is_at_rest s = is_over s || is s paused || is s needs_attention

-- The limits that Enqueue checks, on the number of addresses and on the length of a label.
abbrev pub Bounded : Job → Type 0
Bounded s = (s.requested ≤ max_alias_queue_count) × (length s.base_label + 2 ≤ 160)

-- The stored job: both counters agree, the limits hold, a job at rest has no time for an attempt,
-- and a job that is over has the time of its end.
pub record JobOk (s : Job) : Type 0 where
  pub counted : s.success ≡ s.current
  pub bounded : Bounded s
  pub resting : is_at_rest s.status ≡ true → s.next_attempt_at ≡ none
  pub ended : is_over s.status ≡ true → is_none s.completed_at ≡ false

-- The number and the label of the address at hand.
abbrev pub AddressOk : ℕ → Text → Type 0
AddressOk index label = (1 ≤ index) × (index ≤ max_alias_queue_count) × (length label ≤ 160)

abbrev pub PhaseOk : Phase → Type 0
PhaseOk finished = Unit {0}
PhaseOk connecting = Unit {0}
PhaseOk looping = Unit {0}
PhaseOk spacing = Unit {0}
PhaseOk (generating index label) = AddressOk index label
PhaseOk (claiming index label candidate) = AddressOk index label
PhaseOk (confirming index label candidate) = AddressOk index label

abbrev pub WorkerOk : Worker → Type 0
WorkerOk w = Bounded w.initial × PhaseOk w.phase

pub record Inv (m : Machine) : Type 0 where
  pub job : JobOk (load m.queue)
  pub workers : All WorkerOk m.workers
