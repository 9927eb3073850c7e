-- ===== src/CreateSchedule/Due.antt =====
-- When the timer starts a batch, and when an expired Session keeps it from doing so.
use running_tools.Prelude.{ℕ, ◌+◌, ◌/◌, ◌<◌, ◌≡◌, ◌↔◌, Bool, true, false, arith, is_some}
use running_tools.Prelude.Clock.{second}
use running_tools.CreateSchedule.Types.{Scheduler}
use running_tools.CreateSchedule.Service.{load, status, next_run, remaining}
use running_tools.CreateSchedule.Batch.{Batch, start_run, run_if_due}

remaining-zero : (now next : ℕ) → (remaining now next ≡ 0) ↔ (next < now + second / 2)
unfolding remaining
remaining-zero now next = (λ h. omega arith, λ h. omega arith)

-- The timer starts a batch exactly when the schedule is on, no batch runs, the queue does not
-- block it, and the time of the next run is less than half a second away.
pub run_if_due_iff :
    (now : ℕ) (blocked : Bool) (s : Scheduler)
    → (is_some (run_if_due now blocked s).1 ≡ true) ↔ (
        ((load s).enabled ≡ true)
        × (s.running ≡ false)
        × (blocked ≡ false)
        × (next_run now (load s) < now + second / 2))
unfolding run_if_due status start_run next_run
run_if_due_iff now blocked s = (
  λ h. ground (arith, remaining-zero now (next_run now (load s))),
  λ h. ground (arith, remaining-zero now (next_run now (load s))),
)
