-- ===== src/AliasQueue/Progress.antt =====
-- A run whose calls all succeed ends, and has created every address.
use running_tools.Prelude.{
  Bool, leb, ◌≤◌, ℕ, zero, suc, ◌+◌, ◌-◌, ◌*◌, ◌≡◌, refl, sym, subst, true, false, none, arith,
  is_empty, ok, [], ◌⊎◌, inl, inr,
}
use running_tools.Prelude.Text.{Text}
use running_tools.Prelude.Clock.{Env}
use running_tools.AliasQueue.Types.{completed, running, is, Job, Queue}
use running_tools.AliasQueue.Api.{load}
use running_tools.AliasQueue.Worker.{
  Phase, connecting, looping, spacing, finished, generating, claiming, confirming, Worker, Reply,
  is_done, step_from, worker_step, loop_head, after_generate, claim, after_reserve, count_success,
}

-- The clock of a step whose write succeeds, and the replies of calls that succeed.
abbrev env_at : ℕ → Env
env_at now = record { now = now; saved = true }

abbrev good : Text → Reply
good candidate = record {
  client = ok [];
  generate = ok candidate;
  reserve = none;
  timer_first = true;
}

-- `n` steps of the goroutine, step number i at time `clock i`, with `candidates i` for an address.
unfoldable pub steps : ℕ → ℕ → (ℕ → ℕ) → (ℕ → Text) → Queue × Worker → Queue × Worker
steps zero i clock candidates s = s
steps (suc n) i clock candidates (q, w) =
    steps n (suc i) clock candidates (worker_step (env_at (clock i)) (good (candidates i)) q w)

-- How many steps are left with k addresses to go.
abbrev cost : ℕ → Phase → ℕ
cost k looping = 5 * k
cost k spacing = 5 * k + 1
cost k (generating i l) = 5 * k - 1
cost k (claiming i l c) = 5 * k - 2
cost k (confirming i l c) = 5 * k - 3
cost k connecting = 0
cost k finished = 0

-- How the goroutine and the stored job agree there.
abbrev Agree : Job → Job → Phase → Type 0
Agree s initial connecting = ⊥
Agree s initial finished = ⊥
Agree s initial looping =
    (initial.current ≡ s.current)
    × (initial.requested ≡ s.requested)
    × (is_empty initial.candidate_hme ≡ true)
Agree s initial spacing =
    (initial.current ≡ s.current)
    × (initial.requested ≡ s.requested)
    × (is_empty initial.candidate_hme ≡ true)
Agree s initial (generating i l) = i ≡ s.current + 1
Agree s initial (claiming i l c) = i ≡ s.current + 1
Agree s initial (confirming i l c) = i ≡ s.current + 1

-- At phase `p`, with k + 1 addresses to go.
pub record OnCourse (k : ℕ) (q : Queue) (w : Worker) (p : Phase) : Type 0 where
  pub left : (load q).current + suc k ≡ (load q).requested
  pub alive : is_done w.run q ≡ false
  pub under_way : is (load q).status running ≡ true
  pub agree : Agree (load q) w.initial p

-- The last address is counted.
pub record Complete (s : Job) : Type 0 where
  pub done : s.status ≡ completed
  pub all : s.current ≡ s.requested
  pub counted : s.success ≡ s.requested

abbrev Arrived : ℕ → Queue → Worker → Phase → Type 0
Arrived n q w finished = (n ≡ 0) × Complete (load q)
Arrived n q w looping = (n ≡ 1) × Complete (load q) × (w.initial.current ≡ w.initial.requested)
Arrived n q w p = ⊥

-- n steps before the end.
abbrev Ahead : ℕ → Queue → Worker → Type 0
Ahead n q w =
    ((k : ℕ) × (n ≡ cost (suc k) w.phase) × OnCourse k q w w.phase) ⊎ Arrived n q w w.phase

module _ (k n now : ℕ) (c : Text) (q : Queue) (w : Worker) where
  loop_head-Ahead :
      suc n ≡ cost (suc k) looping
      → OnCourse k q w looping
      → let s = loop_head (env_at now) q w in Ahead n s.0 s.1
  unfolding loop_head
  loop_head-Ahead e v = inl (k, ground arith, ground arith)

  after_generate-Ahead :
      (i : ℕ) (l : Text)
      → suc n ≡ cost (suc k) (generating i l)
      → OnCourse k q w (generating i l)
      → let s = after_generate (env_at now) i l (ok c) q w in Ahead n s.0 s.1
  unfolding after_generate
  after_generate-Ahead i l e v = inl (k, ground arith, ground arith)

  claim-Ahead :
      (i : ℕ) (l c' : Text)
      → suc n ≡ cost (suc k) (claiming i l c')
      → OnCourse k q w (claiming i l c')
      → let s = claim (env_at now) i l c' q w in Ahead n s.0 s.1
  unfolding claim
  claim-Ahead i l c' e v = inl (k, ground arith, ground arith)

module _ (n now : ℕ) (q : Queue) (w : Worker) (i : ℕ) (l c : Text) where
  after_reserve-Ahead :
      (k : ℕ)
      → suc n ≡ cost (suc k) (confirming i l c)
      → OnCourse k q w (confirming i l c)
      → let s = after_reserve (env_at now) i none q w in Ahead n s.0 s.1
  unfolding after_reserve count_success
  after_reserve-Ahead zero e v = inr (ground arith)
  after_reserve-Ahead (suc k) e v = inl (k, ground arith, ground arith)

-- One step of a run that goes well is one step nearer.
step_from-Ahead :
    (p : Phase) (n now : ℕ) (c : Text) (q : Queue) (w : Worker)
    → w.phase ≡ p
    → ((k : ℕ) × (suc n ≡ cost (suc k) p) × OnCourse k q w p) ⊎ Arrived (suc n) q w p
    → let s = step_from p (env_at now) (good c) q w in Ahead n s.0 s.1
unfolding step_from
step_from-Ahead looping n now c q w o (inl (k, e, v)) = loop_head-Ahead k n now c q w e v
step_from-Ahead looping n now c q w o (inr (e, d, f)) = inr (unfold loop_head in ground arith)
step_from-Ahead (generating i l) n now c q w o (inl (k, e, v)) =
    after_generate-Ahead k n now c q w i l e v
step_from-Ahead (claiming i l d) n now c q w o (inl (k, e, v)) = claim-Ahead k n now c q w i l d e v
step_from-Ahead (confirming i l d) n now c q w o (inl (k, e, v)) =
    after_reserve-Ahead n now q w i l d k e v
step_from-Ahead spacing n now c q w o (inl (k, e, v)) = inl (k, ground arith, ground arith)
step_from-Ahead finished n now c q w o (inr (e, d)) = absurd (omega (arith, e))
step_from-Ahead connecting n now c q w o (inl (k, e, v)) = absurd v.agree
step_from-Ahead finished n now c q w o (inl (k, e, v)) = absurd v.agree
step_from-Ahead connecting n now c q w o (inr d) = absurd d
step_from-Ahead spacing n now c q w o (inr d) = absurd d
step_from-Ahead (generating i l) n now c q w o (inr d) = absurd d
step_from-Ahead (claiming i l d) n now c q w o (inr h) = absurd h
step_from-Ahead (confirming i l d) n now c q w o (inr h) = absurd h

abbrev pub has_returned : Phase → Bool
has_returned finished = true
has_returned _ = false

-- No step is left exactly where the goroutine has returned, and then the job is done.
Ahead-returned :
    (m : ℕ) (p : Phase) (q : Queue) (w : Worker)
    → ((k : ℕ) × (m ≡ cost (suc k) p) × OnCourse k q w p) ⊎ Arrived m q w p
    → has_returned p ≡ leb m 0
Ahead-returned m finished q w (inr (e, d)) = ground arith
Ahead-returned m finished q w (inl (k, e, v)) = absurd v.agree
Ahead-returned m connecting q w (inl (k, e, v)) = absurd v.agree
Ahead-returned m connecting q w (inr d) = absurd d
Ahead-returned m looping q w h = ground arith
Ahead-returned m spacing q w h = ground arith
Ahead-returned m (generating i l) q w h = ground arith
Ahead-returned m (claiming i l c) q w h = ground arith
Ahead-returned m (confirming i l c) q w h = ground arith

Ahead-zero :
    (p : Phase) (q : Queue) (w : Worker)
    → ((k : ℕ) × (0 ≡ cost (suc k) p) × OnCourse k q w p) ⊎ Arrived 0 q w p
    → Complete (load q)
Ahead-zero finished q w (inr (e, d)) = d
Ahead-zero finished q w (inl (k, e, v)) = absurd v.agree
Ahead-zero connecting q w (inl (k, e, v)) = absurd v.agree
Ahead-zero connecting q w (inr d) = absurd d
Ahead-zero looping q w h = ground arith
Ahead-zero spacing q w h = ground arith
Ahead-zero (generating i l) q w h = ground arith
Ahead-zero (claiming i l c) q w h = ground arith
Ahead-zero (confirming i l c) q w h = ground arith

steps-Ahead :
    (n m i : ℕ) (clock : ℕ → ℕ) (candidates : ℕ → Text) (q : Queue) (w : Worker)
    → Ahead (n + m) q w
    → let s = steps n i clock candidates (q, w) in Ahead m s.0 s.1
unfolding steps worker_step
steps-Ahead zero m i clock candidates q w h =
    let e : 0 + m ≡ m = omega arith in subst (λ l. Ahead l q w) e h
steps-Ahead (suc n) m i clock candidates q w h =
    let e : suc n + m ≡ suc (n + m) = omega arith in
    let s = worker_step (env_at (clock i)) (good (candidates i)) q w in
    steps-Ahead n m (suc i) clock candidates s.0 s.1 (
      step_from-Ahead w.phase (n + m) (clock i) (candidates i) q w refl
        (subst (λ l. Ahead l q w) e h))

-- A goroutine stands at the head of its loop with k + 1 addresses to go. Its context is not
-- cancelled, it holds no candidate, its variable `initial` agrees with the stored job, whose status
-- is running, and all its calls and writes succeed. Then it returns with step number 5 * (k + 1),
-- since it takes 5 steps for an address, and not before; and the stored job is then completed with
-- every address counted.
pub run_completes :
    (k i n : ℕ) (clock : ℕ → ℕ) (candidates : ℕ → Text) (q : Queue) (w : Worker)
    → w.phase ≡ looping
    → OnCourse k q w looping
    → n ≤ 5 * suc k
    → let s = steps n i clock candidates (q, w) in
      let t = steps (5 * suc k) i clock candidates (q, w) in
      (has_returned s.1.phase ≡ leb (5 * suc k) n) × Complete (load t.0)
run_completes k i n clock candidates q w p v b =
    let a : (m : ℕ) → m ≡ 5 * suc k → Ahead m q w =
      λ m j. inl (k, rw p j, subst (λ x. OnCourse k q w x) (sym p) v) in
    let s = steps n i clock candidates (q, w) in
    let t = steps (5 * suc k) i clock candidates (q, w) in
    let h = Ahead-returned (5 * suc k - n) s.1.phase s.0 s.1 (
      steps-Ahead n (5 * suc k - n) i clock candidates q w
        (a (n + (5 * suc k - n)) (omega arith))) in
    (
      ground arith,
      Ahead-zero t.1.phase t.0 t.1
          (steps-Ahead (5 * suc k) 0 i clock candidates q w (a (5 * suc k + 0) (omega arith))),
    )
