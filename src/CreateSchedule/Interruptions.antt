-- ===== src/CreateSchedule/Interruptions.antt =====
-- modules/mail/backend/create_schedule.go: a batch with the other operations of the scheduler between
-- its steps.
use running_tools.Prelude.{
  ℕ, zero, suc, ◌≤◌, ◌≡◌, refl, subst, Bool, true, false, Option, List, [], ◌∷◌, if◌then◌else◌,
  arith, Bool-cases, inl, inr,
}
use running_tools.Prelude.Int.{ℤ}
use running_tools.Prelude.Text.{Text}
use running_tools.Prelude.Clock.{Env}
use running_tools.CreateSchedule.Types.{Config, Scheduler}
use running_tools.CreateSchedule.Service.{update, stop, start, shutdown}
use running_tools.CreateSchedule.Batch.{
  Phase, beginning, heading, creating, pausing, returned, Batch, Reply, start_run, run_if_due,
  batch_step,
}
use running_tools.CreateSchedule.Runs.{fuel, Locked, Nearer, step_from-Nearer, begun-Nearer}

-- An operation of the scheduler other than a step of its batch.
pub data Operation : Type 0 where
  updates :
      Env → Option Bool → Option ℤ → Option ℤ → Option ℤ → Option Text → Option Text → Operation
  stops starts : Env → Operation
  shuts_down : Operation
  starts_run : Bool → Bool → Operation
  wakes : ℕ → Bool → Operation

unfoldable pub operate : Operation → Scheduler → Scheduler
operate (updates e enabled size pause period label memo) s =
    (update e enabled size pause period label memo s).0
operate (stops e) s = (stop e s).0
operate (starts e) s = start e s
operate shuts_down s = shutdown s
operate (starts_run blocked manual) s = (start_run blocked manual s).0
operate (wakes now blocked) s = (run_if_due now blocked s).0

unfoldable pub operate_all : List Operation → Scheduler → Scheduler
operate_all [] s = s
operate_all (o ∷ os) s = operate_all os (operate o s)

abbrev pub has_returned : Phase → Bool
has_returned returned = true
has_returned _ = false

-- At most `n` steps of a batch, up to its return; the operations `meanwhile i` come before step
-- number i, which has the clock and the write `env i` and the replies `reply i`.
unfoldable pub run_amid :
    ℕ → ℕ → (ℕ → Env) → (ℕ → Reply) → (ℕ → List Operation) → Scheduler × Batch → Scheduler × Batch
run_amid zero i env reply meanwhile s = s
run_amid (suc n) i env reply meanwhile (s, b) =
    let rest =
      run_amid n (suc i) env reply meanwhile
        (batch_step (env i) (reply i) (operate_all (meanwhile i) s) b) in
    if has_returned b.phase then (s, b) else rest

-- No other operation frees the lock of the runs.
operate-running : (o : Operation) (s : Scheduler) → s.running ≡ true → (operate o s).running ≡ true
unfolding operate update stop start shutdown start_run run_if_due
operate-running (updates e enabled size pause period label memo) s h = ground arith
operate-running (stops e) s h = ground arith
operate-running (starts e) s h = ground arith
operate-running shuts_down s h = ground arith
operate-running (starts_run blocked manual) s h = ground arith
operate-running (wakes now blocked) s h = ground arith

operate_all-running :
    (os : List Operation) (s : Scheduler) → s.running ≡ true → (operate_all os s).running ≡ true
unfolding operate_all
operate_all-running [] s h = h
operate_all-running (o ∷ os) s h = operate_all-running os (operate o s) (operate-running o s h)

operate_all-Locked :
    (os : List Operation) (p : Phase) (s : Scheduler)
    → has_returned p ≡ false
    → Locked s p
    → Locked (operate_all os s) p
operate_all-Locked os beginning s h k = operate_all-running os s k
operate_all-Locked os (heading i) s h k = operate_all-running os s k
operate_all-Locked os (creating i) s h k = operate_all-running os s k
operate_all-Locked os (pausing i) s h k = operate_all-running os s k
operate_all-Locked os returned s h k = cc

fuel-returned : (c : Config) (p : Phase) (n : ℕ) → has_returned p ≡ true → fuel c p ≤ n
fuel-returned c returned n h = omega arith
fuel-returned c beginning n h = cc
fuel-returned c (heading i) n h = cc
fuel-returned c (creating i) n h = cc
fuel-returned c (pausing i) n h = cc

run_amid-Nearer :
    (n i : ℕ) (env : ℕ → Env) (reply : ℕ → Reply) (meanwhile : ℕ → List Operation) (s : Scheduler)
    (b : Batch)
    → Nearer n (s, b)
    → Nearer 0 (run_amid n i env reply meanwhile (s, b))
unfolding run_amid batch_step
run_amid-Nearer zero i env reply meanwhile s b h = h
run_amid-Nearer (suc n) i env reply meanwhile s b (v, f, k) =
    elim (Bool-cases (has_returned b.phase)) [
      | inl e ↦ rw e (v, fuel-returned b.config b.phase 0 e, k)
      | inr e ↦
          let s' = operate_all (meanwhile i) s in
          let t = batch_step (env i) (reply i) s' b in
          let h =
            step_from-Nearer b.phase (env i) (reply i) n s' b v f
              (operate_all-Locked (meanwhile i) b.phase s e k) in
          rw e (run_amid-Nearer n (suc i) env reply meanwhile t.0 t.1 h)
    ]

fuel-zero : (c : Config) (p : Phase) → fuel c p ≤ 0 → p ≡ returned
fuel-zero c beginning h = absurd (omega arith)
fuel-zero c returned h = refl
fuel-zero c (heading i) h = absurd (omega arith)
fuel-zero c (creating i) h = absurd (omega arith)
fuel-zero c (pausing i) h = absurd (omega arith)

Locked-returned : (s : Scheduler) (p : Phase) → p ≡ returned → Locked s p → s.running ≡ false
Locked-returned s p e k = subst (Locked s) e k

-- A batch that has begun returns within 62 steps, and then the lock of the runs is free: whatever
-- Apple replies, whichever writes fail, and whatever calls of Update, Stop, Start, Shutdown, startRun
-- and runIfDue come between its steps, those that cancel it included.
pub batch_returns :
    (i : ℕ) (env : ℕ → Env) (reply : ℕ → Reply) (meanwhile : ℕ → List Operation) (s : Scheduler)
    (b : Batch)
    → b.phase ≡ beginning
    → s.running ≡ true
    → let t = run_amid 62 i env reply meanwhile (s, b) in
      (t.1.phase ≡ returned) × (t.0.running ≡ false)
batch_returns i env reply meanwhile s b p r =
    let t = run_amid 62 i env reply meanwhile (s, b) in
    let (v, f, k) =
      run_amid-Nearer 62 i env reply meanwhile s b (begun-Nearer 62 s b p r (omega arith)) in
    let e = fuel-zero t.1.config t.1.phase f in (e, Locked-returned t.0 t.1.phase e k)
