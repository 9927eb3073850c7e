-- ===== src/CreateSchedule/Tests.antt =====
-- The scheduler run on small inputs, and the theorems at inputs that meet their hypotheses.
use running_tools.Prelude.{
  ℕ, ◌*◌, ◌==◌, ◌≡◌, refl, true, false, none, some, List, [], ◌∷◌, if◌then◌else◌, ok,
}
use running_tools.Prelude.Text.{text}
use running_tools.Errors.{ApiError}
use running_tools.Prelude.Clock.{second, Env}
use running_tools.CreateSchedule.Types.{default_config, Scheduler}
use running_tools.CreateSchedule.Batch.{Batch, Reply, beginning, returned}
use running_tools.CreateSchedule.Runs.{batch_steps, batch-PhaseOk, PhaseOk}
use running_tools.CreateSchedule.Interruptions.{Operation, stops, run_amid, batch_returns}

-- A file that asks for a hundred addresses at once.
abbrev greedy : Scheduler
greedy = record {
  file = some (record default_config { batch_size = 100; enabled = true; last_run_at = some 0 });
  worker_running = true;
  running = false;
  wake = false;
  cancel = none;
  cancelled_runs = [];
  runs = 0;
  log = [];
}

abbrev noon : Env
noon = record { now = 1000 * second; saved = true }

abbrev expired : ApiError
expired = record { canceled = false; upstream_status = some 401; message = text "HTTP 401" }

abbrev begun : Batch
begun = record { run = 0; manual = false; config = default_config; phase = beginning }

abbrev works : Reply
works = record {
  create =
      ok (record { used_channel = text "web"; fallback_used = false; attempted_channels = [] });
  timer_first = true;
}

abbrev started : Scheduler
started = record greedy { running = true; cancel = some 0; runs = 1 }

-- Stopped before its third step.
abbrev stopped_at_two : ℕ → List Operation
stopped_at_two i = if i == 2 then stops noon ∷ [] else []

batch_returns_example :
    let t = run_amid 62 0 (λ i. noon) (λ i. works) stopped_at_two (started, begun) in
    (t.1.phase ≡ returned) × (t.0.running ≡ false)
batch_returns_example =
    batch_returns 0 (λ i. noon) (λ i. works) stopped_at_two started begun refl refl

batch-PhaseOk_example :
    let t = batch_steps 5 0 (λ i. noon) (λ i. works) (started, begun) in
    PhaseOk t.1.config t.1.phase
batch-PhaseOk_example = batch-PhaseOk 5 0 (λ i. noon) (λ i. works) started begun refl refl
