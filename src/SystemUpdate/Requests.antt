-- ===== src/SystemUpdate/Requests.antt =====
-- internal/platform/systemupdate/service.go: when a Check or a Request is accepted, and what it
-- keeps out.
use running_tools.Prelude.{
  ℕ, ◌+◌, ◌≤◌, ◌<◌, ◌≡◌, refl, true, false, Option, none, some, arith, is_empty, Option-cases,
  Bool-cases, inl, inr, ◌⊎◌, ok, err,
}
use running_tools.Prelude.Text.{Text, text_eq, trim_space}
use running_tools.SystemUpdate.Service.{
  stale_after, in_progress, not_written, Action, check, update, Status, RequestFile, File, StateDir,
  Service, Call, active, compared, status, put_request, mod_time, recent, read_status, named_status,
  refused, queued_status, submit, enqueue, failed,
}

-- The directory once a request is accepted.
abbrev after : Call → Action → Text → Status → StateDir → StateDir
after c action id s d =
    put_request action
      (record {
        content = record { request_id = id; requested_at = c.now; action = action };
        modified = c.now;
      })
      (record d { status = some (record { content = s; modified = c.now }) })

-- What an accepted request has met and done.
record Accepted (c : Call) (v : Service) (action : Action) (d : StateDir) (s : Status)
    : Type 0 where
  id : Text
  drawn : c.id ≡ some id
  free : (status c.now v d).can_request_update ≡ true
  allowed : refused action (status c.now v d) ≡ none
  queue : s ≡ queued_status c.now v action id (status c.now v d)
  left : (enqueue c v action d).0 ≡ after c action id s d

submit-after :
    (c : Call) (action : Action) (id : Text) (q s : Status) (d : StateDir)
    → (submit c action id q d).1 ≡ ok s
    → (s ≡ q) × ((submit c action id q d).0 ≡ after c action id s d)
unfolding submit
submit-after c action id q s d h = ground arith

enqueue-Accepted :
    (c : Call) (v : Service) (action : Action) (d : StateDir) (s : Status)
    → (enqueue c v action d).1 ≡ ok s
    → Accepted c v action d s
unfolding enqueue
enqueue-Accepted c v action d s h = elim (Option-cases c.id) [
  | inl n ↦ absurd (ground arith)
  | inr (i, n) ↦
      let q = queued_status c.now v action i (status c.now v d) in
      let e : enqueue c v action d ≡ submit c action i q d = ground arith in
      let (f, g) = submit-after c action i q s d (rw e at h) in
      record {
        id = i;
        drawn = n;
        free = ground arith;
        allowed = ground arith;
        queue = f;
        left = rw e g;
      }
]

queued_status-busy :
    (c c' : Call) (v v' : Service) (action : Action) (id : Text) (t : Status) (d : StateDir)
    → 0 < c.now
    → c'.now < c.now + stale_after
    → (status c'.now v'
        (after c action id (queued_status c.now v action id t) d)).can_request_update
      ≡ false
unfolding status active compared named_status queued_status
queued_status-busy c c' v v' check id t d p l = ground arith
queued_status-busy c c' v v' update id t d p l = ground arith

-- After a Check or a Request that is accepted, every other one within the next 30 minutes is
-- refused and changes nothing, as long as nothing else writes to the directory.
pub enqueue-excludes :
    (c c' : Call) (v v' : Service) (action action' : Action) (d : StateDir) (s : Status)
    → (enqueue c v action d).1 ≡ ok s
    → 0 < c.now
    → c'.now < c.now + stale_after
    → let d' = (enqueue c v action d).0 in enqueue c' v' action' d' ≡ (d', err in_progress)
unfolding enqueue
enqueue-excludes c c' v v' action action' d s h p l =
    let a = enqueue-Accepted c v action d s h in
    let b = queued_status-busy c c' v v' action a.id (status c.now v d) d p l in
    rw (a.left, a.queue, b) refl

available-newer :
    (now : ℕ) (v : Service) (d : StateDir)
    → refused update (status now v d) ≡ none
    → (latest : Text) × ((read_status d).latest_revision ≡ some latest)
      × (is_empty (trim_space latest) ≡ false)
      × (text_eq (trim_space latest) v.revision ≡ false)
      × ((status now v d).latest_revision ≡ some latest)
unfolding status compared named_status
available-newer now v d h = elim (Option-cases (read_status d).latest_revision) [
  | inl n ↦ absurd (ground arith)
  | inr (x, n) ↦ (x, n, ground arith, ground arith, ground arith)
]

-- A Request is accepted only for a latest revision that the status file names and that, trimmed, is
-- not empty and not the one that runs. The answer names it too, and carries the id that the file
-- left for the host has.
pub request-newer :
    (c : Call) (v : Service) (d : StateDir) (s : Status)
    → (enqueue c v update d).1 ≡ ok s
    → (latest : Text) × ((read_status d).latest_revision ≡ some latest)
      × (is_empty (trim_space latest) ≡ false)
      × (text_eq (trim_space latest) v.revision ≡ false)
      × (s.latest_revision ≡ some latest)
      × (f : File RequestFile) × ((enqueue c v update d).0.update_request ≡ some f)
      × (s.request_id ≡ some f.content.request_id)
unfolding queued_status
request-newer c v d s h =
    let a = enqueue-Accepted c v update d s h in
    let (x, f, e, g, i) = available-newer c.now v d a.allowed in
    let file : File RequestFile = record {
      content = record { request_id = a.id; requested_at = c.now; action = update };
      modified = c.now;
    } in
    (x, f, e, g, rw a.queue i, file, rw a.left refl, rw a.queue refl)

active_stale :
    (now : ℕ) (s : Status) (fallback : Option ℕ)
    → recent now s.updated_at ≡ false
    → recent now s.requested_at ≡ false
    → recent now fallback ≡ false
    → active now s fallback ≡ false
unfolding active
active_stale now s fallback u r m = ground arith

compared-times :
    (revision : Text) (s : Status)
    → ((compared revision s).updated_at ≡ s.updated_at)
      × ((compared revision s).requested_at ≡ s.requested_at)
unfolding compared
compared-times revision s = ground arith

named_status-times :
    (v : Service) (d : StateDir)
    → ((named_status v d).updated_at ≡ (read_status d).updated_at)
      × ((named_status v d).requested_at ≡ (read_status d).requested_at)
unfolding named_status
named_status-times v d = ground arith

stale_free :
    (now : ℕ) (v : Service) (d : StateDir)
    → recent now (read_status d).updated_at ≡ false
    → recent now (read_status d).requested_at ≡ false
    → recent now (mod_time d.status) ≡ false
    → (status now v d).can_request_update ≡ true
unfolding status
stale_free now v d u r m =
    let s = named_status v d in
    let (a, b) = named_status-times v d in
    let (e, f) = compared-times v.revision s in
    let i =
      active_stale now (compared v.revision s) (mod_time d.status) (rw (e, a) u) (rw (f, b) r) m in
    rw i refl

-- A Check is accepted, whatever state the host left, once 30 minutes have gone by since the times
-- in the status file, since that file was modified and since the request file of a check was, as
-- long as an id is drawn and the writes succeed.
pub enqueue_recovers :
    (c : Call) (v : Service) (d : StateDir) (id : Text)
    → recent c.now (read_status d).updated_at ≡ false
    → recent c.now (read_status d).requested_at ≡ false
    → recent c.now (mod_time d.status) ≡ false
    → recent c.now (mod_time d.check_request) ≡ false
    → c.id ≡ some id
    → c.status_written ≡ true
    → c.request_written ≡ true
    → (s : Status) × ((enqueue c v check d).1 ≡ ok s) × (s.request_id ≡ some id)
unfolding enqueue submit queued_status
enqueue_recovers c v d id u r m q i w x =
    let f = stale_free c.now v d u r m in
    (queued_status c.now v check id (status c.now v d), ground arith, refl)

free_later :
    (now later : ℕ) (v : Service) (d : StateDir)
    → now ≤ later
    → (status now v d).can_request_update ≡ true
    → (status later v d).can_request_update ≡ true
unfolding status active
free_later now later v d l h = ground arith

failed_free :
    (now later : ℕ) (v : Service) (s : Status) (d : StateDir)
    → d.status ≡ some (record { content = failed now s; modified = now })
    → (status later v d).can_request_update ≡ true
unfolding status active compared named_status
failed_free now later v s d e = ground arith

-- What a submission that fails leaves: all as it was, or the error in the status file.
submit-failed :
    (c : Call) (action : Action) (id : Text) (s : Status) (d : StateDir)
    → (submit c action id s d).1 ≡ err not_written
    → c.failure_written ≡ true
    → ((submit c action id s d).0 ≡ d)
      ⊎ ((submit c action id s d).0
          ≡ record d { status = some (record { content = failed c.now s; modified = c.now }) })
unfolding submit
submit-failed c action id s d h f = elim (Bool-cases c.status_written) [
  | inl e ↦ inr (ground arith)
  | inr e ↦ inl (ground arith)
]

enqueue-submit :
    (c : Call) (v : Service) (action : Action) (d : StateDir)
    → (enqueue c v action d).1 ≡ err not_written
    → (id : Text) × (enqueue c v action d
        ≡ submit c action id (queued_status c.now v action id (status c.now v d)) d)
      × ((status c.now v d).can_request_update ≡ true)
unfolding enqueue
enqueue-submit c v action d h = elim (Option-cases c.id) [
  | inl n ↦ absurd (ground arith)
  | inr (i, n) ↦ (i, ground arith, ground arith)
]

-- Where a file cannot be written, but the status after it can, a Check or a Request leaves the
-- request files as they were, and the status keeps no later one out.
pub enqueue-failed :
    (c : Call) (v : Service) (action : Action) (d : StateDir) (later : ℕ)
    → (enqueue c v action d).1 ≡ err not_written
    → c.failure_written ≡ true
    → c.now ≤ later
    → let d' = (enqueue c v action d).0 in
      (d'.check_request ≡ d.check_request)
      × (d'.update_request ≡ d.update_request)
      × ((status later v d').can_request_update ≡ true)
enqueue-failed c v action d later h f l =
    let (i, e, q) = enqueue-submit c v action d h in
    let s = queued_status c.now v action i (status c.now v d) in
    elim (submit-failed c action i s d (rw e at h) f) [
      | inl x ↦ rw (e, x) (refl, refl, free_later c.now later v d l q)
      | inr x ↦ rw (e, x) (refl, refl, failed_free c.now later v s _ refl)
    ]
