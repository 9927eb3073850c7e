-- ===== src/CreateSchedule/Runs.antt =====
-- modules/mail/backend/create_schedule.go: how far a batch is from its end, and how many addresses
-- it has counted.
use running_tools.Prelude.{
  ℕ, zero, suc, ◌+◌, ◌-◌, ◌*◌, ◌≤◌, ◌<◌, ◌≡◌, true, false, arith, Result, ok, err,
}
use running_tools.Errors.{ApiError}
use running_tools.Prelude.Clock.{Env}
use running_tools.CreateSchedule.Types.{Config, Scheduler}
use running_tools.CreateSchedule.Service.{load}
use running_tools.CreateSchedule.Batch.{
  Phase, beginning, heading, creating, pausing, returned, Batch, Reply, Route, begin_batch,
  head_batch, after_create, set_progress, set_last_create_route, finish_batch, step_from,
  batch_step,
}
use running_tools.CreateSchedule.Bounds.{normalized-WellFormed}

-- At each place the batch counts the addresses made so far, below its size, which is at most 20.
abbrev pub PhaseOk : Config → Phase → Type 0
PhaseOk c beginning = Unit {0}
PhaseOk c returned = Unit {0}
PhaseOk c (heading i) =
    (i ≡ c.last_batch_success + 1) × (i ≤ c.batch_size + 1) × (c.batch_size ≤ 20)
PhaseOk c (creating i) = (i ≡ c.last_batch_success + 1) × (i ≤ c.batch_size) × (c.batch_size ≤ 20)
PhaseOk c (pausing i) = (i ≡ c.last_batch_success) × (i < c.batch_size) × (c.batch_size ≤ 20)

-- An upper bound on the steps that are left.
abbrev pub fuel : Config → Phase → ℕ
fuel c beginning = 62
fuel c returned = 0
fuel c (heading i) = 3 * (c.batch_size + 1 - i) + 1
fuel c (creating i) = 3 * (c.batch_size - i) + 3
fuel c (pausing i) = 3 * (c.batch_size - i) + 2

-- The goroutine holds the lock of the runs until it returns.
abbrev pub Locked : Scheduler → Phase → Type 0
Locked s returned = s.running ≡ false
Locked s _ = s.running ≡ true

-- A step keeps the count and the lock, and takes one step off.
abbrev pub Nearer : ℕ → Scheduler × Batch → Type 0
Nearer n (s, b) = PhaseOk b.config b.phase × (fuel b.config b.phase ≤ n) × Locked s b.phase

begin_batch-Nearer :
    (e : Env) (n : ℕ) (s : Scheduler) (b : Batch)
    → 61 ≤ n
    → s.running ≡ true
    → Nearer n (begin_batch e s b)
unfolding begin_batch
begin_batch-Nearer e n s b h k =
    ground (
      arith,
      (normalized-WellFormed (load s)).batch_high,
      (normalized-WellFormed (load s)).batch_low,
    )

module _ (e : Env) (i n : ℕ) (s : Scheduler) (b : Batch) where
  head_batch-Nearer :
      PhaseOk b.config (heading i)
      → fuel b.config (heading i) ≤ suc n
      → s.running ≡ true
      → Nearer n (head_batch e i s b)
  unfolding head_batch finish_batch set_progress
  head_batch-Nearer v f k = ground arith

  after_create-Nearer :
      (r : Result ApiError Route)
      → PhaseOk b.config (creating i)
      → fuel b.config (creating i) ≤ suc n
      → s.running ≡ true
      → Nearer n (after_create e i r s b)
  unfolding after_create finish_batch set_progress set_last_create_route
  after_create-Nearer (ok r) v f k = ground arith
  after_create-Nearer (err x) v f k = ground arith

pub step_from-Nearer :
    (p : Phase) (e : Env) (r : Reply) (n : ℕ) (s : Scheduler) (b : Batch)
    → PhaseOk b.config p
    → fuel b.config p ≤ suc n
    → Locked s p
    → Nearer n (step_from p e r s b)
unfolding step_from finish_batch
step_from-Nearer beginning e r n s b v f k = begin_batch-Nearer e n s b (omega arith) k
step_from-Nearer returned e r n s b v f k = (tt, omega arith, k)
step_from-Nearer (heading i) e r n s b v f k = head_batch-Nearer e i n s b v f k
step_from-Nearer (creating i) e r n s b v f k = after_create-Nearer e i n s b r.create v f k
step_from-Nearer (pausing i) e r n s b v f k = ground arith

-- `n` steps, step number i with the clock and the write `env i` and the replies `reply i`.
unfoldable pub batch_steps : ℕ → ℕ → (ℕ → Env) → (ℕ → Reply) → Scheduler × Batch → Scheduler × Batch
batch_steps zero i env reply s = s
batch_steps (suc n) i env reply (s, b) =
    batch_steps n (suc i) env reply (batch_step (env i) (reply i) s b)

batch_steps-Nearer :
    (n m i : ℕ) (env : ℕ → Env) (reply : ℕ → Reply) (s : Scheduler) (b : Batch)
    → Nearer (n + m) (s, b)
    → Nearer m (batch_steps n i env reply (s, b))
unfolding batch_steps batch_step
batch_steps-Nearer zero m i env reply s b (v, f, k) = (v, omega arith, k)
batch_steps-Nearer (suc n) m i env reply s b (v, f, k) =
    let h = step_from-Nearer b.phase (env i) (reply i) (n + m) s b v (omega arith) k in
    let s' = batch_step (env i) (reply i) s b in
    batch_steps-Nearer n m (suc i) env reply s'.0 s'.1 h

pub begun-Nearer :
    (n : ℕ) (s : Scheduler) (b : Batch)
    → b.phase ≡ beginning
    → s.running ≡ true
    → 62 ≤ n
    → Nearer n (s, b)
begun-Nearer n s b p r h = ground arith

-- At every point of its life a batch counts as many successes as it has finished addresses, and
-- asks Apple for address number i only up to its size, which is at most 20.
pub batch-PhaseOk :
    (n i : ℕ) (env : ℕ → Env) (reply : ℕ → Reply) (s : Scheduler) (b : Batch)
    → b.phase ≡ beginning
    → s.running ≡ true
    → let t = batch_steps n i env reply (s, b) in PhaseOk t.1.config t.1.phase
batch-PhaseOk n i env reply s b p r =
    (batch_steps-Nearer n 62 i env reply s b (begun-Nearer (n + 62) s b p r (omega arith))).0
