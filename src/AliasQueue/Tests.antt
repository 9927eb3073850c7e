-- ===== src/AliasQueue/Tests.antt =====
-- The queue run on small inputs, and the theorems at inputs that meet their hypotheses.
use running_tools.Prelude.{◌*◌, ◌≡◌, refl, true, false, none, some, [], ◌∷◌, arith, ok}
use running_tools.Prelude.Int.{pos}
use running_tools.Prelude.Text.{Text, text, text_eq, trim_space, contains, has_prefix}
use running_tools.Prelude.Clock.{Env, second}
use running_tools.AliasQueue.Types.{
  cancelled, queued, running, completed, reserving, Job, blank, Queue,
}
use running_tools.AliasQueue.Api.{load, new_job, enqueue, enqueue_locked, control}
use running_tools.AliasQueue.Worker.{
  Worker, looping, run_if_due, worker_step, step_from, loop_head, after_generate, claim,
  after_reserve, count_success, label_of,
}
use running_tools.AliasQueue.Machine.{Machine}
use running_tools.AliasQueue.Requests.{enqueue_idempotent}
use running_tools.Errors.{ApiError}
use running_tools.AliasQueue.Stale.{after_reserve-other_job}
use running_tools.AliasQueue.Progress.{has_returned, steps, run_completes, Complete}

abbrev empty_queue : Queue
empty_queue = record {
  file = none;
  worker_running = false;
  wake = false;
  cancel = none;
  cancelled_runs = [];
  runs = 0;
}

abbrev noon : Env
noon = record { now = 1000 * second; saved = true }

abbrev shop : Text
shop = b's' ∷ b'h' ∷ []

abbrev request : Text
request = b'r' ∷ b'1' ∷ []

-- A job for three addresses, of which one is created.
abbrev three : Job
three = record (blank running) {
  job_id = b'7' ∷ [];
  base_label = shop;
  requested = 3;
  current = 1;
  success = 1;
}

abbrev holding : Job → Queue
holding s = record empty_queue { file = some s }

abbrev begun : Worker
begun = record { run = 0; initial = three; phase = looping }

labels : label_of shop 7 ≡ b's' ∷ b'h' ∷ b'0' ∷ b'7' ∷ []
unfolding label_of
labels = refl

three_complete :
    (load (steps 10 0 (λ i. i) (λ i. b'a' ∷ []) (holding three, begun)).0).status ≡ completed
unfolding steps worker_step step_from loop_head after_generate claim after_reserve count_success
three_complete = refl

run_completes_example :
    let s = steps 9 0 (λ i. i) (λ i. b'a' ∷ []) (holding three, begun) in
    let t = steps 10 0 (λ i. i) (λ i. b'a' ∷ []) (holding three, begun) in
    (has_returned s.1.phase ≡ false) × Complete (load t.0)
run_completes_example =
    run_completes 1 0 9 (λ i. i) (λ i. b'a' ∷ []) (holding three) begun refl (ground arith)
      (omega arith)

abbrev enqueued : Queue
enqueued = (enqueue noon false request (ok []) shop (pos 3) [] request empty_queue).0

-- Cancelled at once, and enqueued again beside the goroutine.
abbrev again : Queue
again =
    (enqueue noon false shop (ok []) shop (pos 1) [] shop
      (control noon request cancelled (run_if_due noon enqueued).0).0).0

enqueue_idempotent_example :
    enqueue (record { now = 0; saved = false }) false [] (ok shop) shop (pos 3) [] request enqueued
    ≡ (enqueued, ok (new_job noon.now request [] shop 3 [] request))
unfolding enqueue enqueue_locked new_job trim_space text_eq
enqueue_idempotent_example =
    enqueue_idempotent noon (record { now = 0; saved = false }) request [] (ok []) (ok shop) shop
      (pos 3) [] request empty_queue refl refl

-- Cut off while the second address was being reserved.
abbrev cut_off : Queue
cut_off = holding (record three { candidate_hme = b'x' ∷ []; candidate_state = reserving })

-- A job that was enqueued after `three` was cancelled, and an error of Apple.
abbrev newer : Queue
newer = holding (record (blank queued) { job_id = request; base_label = shop; requested = 2 })

abbrev refused : ApiError
refused = record { canceled = false; upstream_status = none; message = shop }

other_job : text_eq request (b'7' ∷ []) ≡ false
unfolding text_eq
other_job = refl

other_error : contains shop (text "-41003") ≡ false
unfolding contains text has_prefix
other_error = refl

after_reserve-other_job_example :
    (load (after_reserve noon 2 (some refused) newer begun).0 ≡ load newer)
    × (let s = load (after_reserve noon 2 none newer begun).0 in
        (s.job_id ≡ request) × (s.success ≡ 2) × (s.status ≡ completed))
after_reserve-other_job_example =
    after_reserve-other_job noon refused 2 newer begun other_job other_error refl
