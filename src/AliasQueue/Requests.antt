-- ===== src/AliasQueue/Requests.antt =====
-- What Enqueue and Resume promise to their callers, and Start to a job that was cut off.
use running_tools.Prelude.{
  ℕ, ◌+◌, ◌≤◌, ◌≡◌, Bool, true, false, [], arith, is_empty, length, length-append, Result, ok, err,
}
use running_tools.Prelude.Int.{ℤ, pos, negsuc}
use running_tools.Prelude.Text.{Text, trim_space, text_eq_refl, text_eq→eq}
use running_tools.Errors.{ApiError}
use running_tools.Prelude.Clock.{Env}
use running_tools.AliasQueue.Types.{Job, Queue}
use running_tools.AliasQueue.Api.{load, status, active, new_job, enqueue_locked, enqueue}
use running_tools.AliasQueue.Worker.{label_of}

length-label_of : (base : Text) (i : ℕ) → length (label_of base i) ≡ length base + 2
unfolding label_of
length-label_of base i = omega (arith, length-append base (label_of [] i))

-- What a successful call says of the job.
enqueue_locked-ok :
    (e : Env) (id : Text) (client : Result ApiError Text) (base : Text) (count : ℕ)
    (note request_id : Text) (q : Queue) (job : Job)
    → (enqueue_locked e id client base count note request_id q).1 ≡ ok job
    → (job.base_label ≡ base)
      × (job.requested ≡ count)
      × (job.note ≡ note)
      × (job.request_id ≡ request_id)
unfolding enqueue_locked new_job
enqueue_locked-ok e id (ok dsid) base count note request_id q job h = ground (
  arith,
  text_eq→eq (load q).base_label base,
  text_eq→eq (load q).note note,
  text_eq→eq (load q).request_id request_id,
)
enqueue_locked-ok e id (err x) base count note request_id q job h = ground (
  arith,
  text_eq→eq (load q).base_label base,
  text_eq→eq (load q).note note,
  text_eq→eq (load q).request_id request_id,
)

-- The same call, with any clock and Session, finds the job that the first one left.
enqueue_locked-again :
    (e e' : Env) (id id' : Text) (client client' : Result ApiError Text) (base : Text) (count : ℕ)
    (note request_id : Text) (q : Queue) (job : Job)
    → is_empty request_id ≡ false
    → (enqueue_locked e id client base count note request_id q).1 ≡ ok job
    → let q' = (enqueue_locked e id client base count note request_id q).0 in
      enqueue_locked e' id' client' base count note request_id q' ≡ (q', ok job)
unfolding enqueue_locked new_job
enqueue_locked-again e e' id id' (ok dsid) client' base count note request_id q job n h =
    ground (arith, text_eq_refl base, text_eq_refl note, text_eq_refl request_id)
enqueue_locked-again e e' id id' (err x) client' base count note request_id q job n h =
    ground (arith, text_eq_refl base, text_eq_refl note, text_eq_refl request_id)

-- An accepted request has the trimmed base label, the number asked for, which is from 1 to 99, and
-- labels of at most 160 bytes for all its addresses.
pub enqueue_accepted :
    (e : Env) (blocked : Bool) (id : Text) (client : Result ApiError Text) (base : Text) (count : ℤ)
    (note request_id : Text) (q : Queue) (i : ℕ) {job : Job}
    → (enqueue e blocked id client base count note request_id q).1 ≡ ok job
    → (job.base_label ≡ trim_space base)
      × (pos job.requested ≡ count)
      × (1 ≤ job.requested)
      × (job.requested ≤ 99)
      × (length (label_of job.base_label i) ≤ 160)
unfolding enqueue
enqueue_accepted e b id client base (negsuc n) note request_id q i h = ground arith
enqueue_accepted e b id client base (pos n) note request_id q i {job} h =
    let base' = trim_space base in
    ground (
      arith,
      enqueue_locked-ok e id client base' n (trim_space note) (trim_space request_id) q job,
      length-label_of base' i,
    )

-- A request that carries an id and was accepted is accepted again with the same answer, whatever
-- the clock and the Session are then, and the repetition changes nothing, while the create
-- scheduler keeps neither out.
pub enqueue_idempotent :
    (e e' : Env) (id id' : Text) (client client' : Result ApiError Text) (base : Text) (count : ℤ)
    (note request_id : Text) (q : Queue) {job : Job}
    → is_empty (trim_space request_id) ≡ false
    → (enqueue e false id client base count note request_id q).1 ≡ ok job
    → let q' = (enqueue e false id client base count note request_id q).0 in
      enqueue e' false id' client' base count note request_id q' ≡ (q', ok job)
unfolding enqueue
enqueue_idempotent e e' id id' c c' base (negsuc n) note request_id q h k = ground arith
enqueue_idempotent e e' id id' c c' base (pos n) note request_id q {job} h k = ground (
  arith,
  enqueue_locked-again e e' id id' c c' (trim_space base) n (trim_space note)
      (trim_space request_id) q job,
)

enqueue_locked-unchanged :
    (e : Env) (id : Text) (client : Result ApiError Text) (base : Text) (count : ℕ)
    (note request_id : Text) (q : Queue)
    → is_empty (load q).job_id ≡ false
    → active e q ≡ true
    → (enqueue_locked e id client base count note request_id q).0 ≡ q
unfolding enqueue_locked active status
enqueue_locked-unchanged e id (ok dsid) base count note request_id q j a = ground arith
enqueue_locked-unchanged e id (err x) base count note request_id q j a = ground arith

-- While a job is active no request, of whatever kind, changes anything.
pub enqueue-active :
    (e : Env) (blocked : Bool) (id : Text) (client : Result ApiError Text) (base : Text) (count : ℤ)
    (note request_id : Text) (q : Queue)
    → is_empty (load q).job_id ≡ false
    → active e q ≡ true
    → (enqueue e blocked id client base count note request_id q).0 ≡ q
unfolding enqueue
enqueue-active e b id client base (negsuc n) note request_id q j a = ground arith
enqueue-active e b id client base (pos n) note request_id q j a = ground (
  arith,
  enqueue_locked-unchanged e id client (trim_space base) n (trim_space note) (trim_space request_id)
      q,
)
