-- ===== src/AutoRefresh/Wakes.antt =====
-- modules/mail/backend/autorefresh.go: how long the timer sleeps.
use running_tools.Prelude.{
  ℕ, ◌+◌, ◌*◌, ◌≤◌, ◌<◌, ◌≡◌, refl, true, false, Option, none, some, arith, Option-cases,
  Bool-cases, inl, inr, ◌∙◌, sym,
}
use running_tools.Prelude.Clock.{second}
use running_tools.AutoRefresh.Types.{
  auto_refresh_idle_poll, auto_refresh_minimum_wake, AutoRefresh, AppleAccount,
}
use running_tools.AutoRefresh.Apple.{
  equal_times, shorter, keep_alive_schedule, refresh_due_at, target_for, apple_due,
}
use running_tools.AutoRefresh.Service.{load, next_wake_delay, nothing, has_come, run_if_due}

-- A deadline that is ahead of a moment is ahead of it as that moment sees it too.
schedule_later :
    (now t : ℕ) (a : AppleAccount) (anchor : Option ℕ) (deadline : ℕ)
    → now ≤ t
    → t < deadline
    → keep_alive_schedule now (some a) ≡ some (anchor, deadline)
    → keep_alive_schedule t (some a) ≡ some (anchor, deadline)
unfolding keep_alive_schedule refresh_due_at
schedule_later now t a anchor deadline l m h = ground arith

unscheduled_later :
    (now t : ℕ) (account : Option AppleAccount)
    → keep_alive_schedule now account ≡ none
    → keep_alive_schedule t account ≡ none
unfolding keep_alive_schedule
unscheduled_later now t none h = refl
unscheduled_later now t (some a) h = ground arith

equal_times_refl : (a : Option ℕ) → equal_times a a ≡ true
equal_times_refl none = refl
equal_times_refl (some a) = ground arith

apple_due-target :
    (now drawn : ℕ) (account : Option AppleAccount) (s : AutoRefresh) (anchor : Option ℕ)
    (deadline : ℕ)
    → keep_alive_schedule now account ≡ some (anchor, deadline)
    → (target : ℕ) × ((apple_due now drawn account s).1 ≡ some (shorter deadline target))
      × ((apple_due now drawn account s).0.apple_target_at ≡ some target)
      × (equal_times (apple_due now drawn account s).0.apple_checked_at anchor ≡ true)
unfolding apple_due
apple_due-target now drawn account s anchor deadline h =
    let fresh = target_for now drawn anchor in
    let same = equal_times_refl anchor in
    elim (Option-cases s.apple_target_at) [
      | inl n ↦ (fresh, ground arith, ground arith, ground arith)
      | inr (t, n) ↦ elim (Bool-cases (equal_times s.apple_checked_at anchor)) [
        | inl q ↦ (t, ground arith, ground arith, ground arith)
        | inr q ↦ (fresh, ground arith, ground arith, ground arith)
      ]
    ]

apple_due-held :
    (t drawn : ℕ) (account : Option AppleAccount) (s : AutoRefresh) (anchor : Option ℕ)
    (deadline target : ℕ)
    → keep_alive_schedule t account ≡ some (anchor, deadline)
    → s.apple_target_at ≡ some target
    → equal_times s.apple_checked_at anchor ≡ true
    → (apple_due t drawn account s).1 ≡ some (shorter deadline target)
unfolding apple_due
apple_due-held t drawn account s anchor deadline target h n q = ground arith

no_due :
    (now drawn : ℕ) (account : Option AppleAccount) (s : AutoRefresh)
    → keep_alive_schedule now account ≡ none
    → (apple_due now drawn account s).1 ≡ none
unfolding apple_due
no_due now drawn account s h = ground arith

-- The due time that one look finds is what a later look finds, until it has come.
apple_due-later :
    (now t drawn drawn' : ℕ) (account : Option AppleAccount) (s : AutoRefresh)
    → now ≤ t
    → has_come t (apple_due now drawn account s).1 ≡ false
    → (apple_due t drawn' account (apple_due now drawn account s).0).1
      ≡ (apple_due now drawn account s).1
unfolding keep_alive_schedule
apple_due-later now t drawn drawn' none s l h =
    no_due t drawn' none _ refl ∙ sym (no_due now drawn none s refl)
apple_due-later now t drawn drawn' (some a) s l h =
    let s' = (apple_due now drawn (some a) s).0 in
    elim (Option-cases (keep_alive_schedule now (some a))) [
      | inl n ↦
          no_due t drawn' (some a) s' (unscheduled_later now t (some a) n)
          ∙ sym (no_due now drawn (some a) s n)
      | inr ((anchor, deadline), n) ↦
          let (target, d, e, f) = apple_due-target now drawn (some a) s anchor deadline n in
          let k = schedule_later now t a anchor deadline l (ground arith) n in
          apple_due-held t drawn' (some a) s' anchor deadline target k e f ∙ sym d
    ]

apple_due-file :
    (now drawn : ℕ) (account : Option AppleAccount) (s : AutoRefresh)
    → (apple_due now drawn account s).0.file ≡ s.file
unfolding apple_due
apple_due-file now drawn account s = ground arith

load-apple_due :
    (now drawn : ℕ) (account : Option AppleAccount) (s : AutoRefresh)
    → load (apple_due now drawn account s).0 ≡ load s
unfolding load apple_due
load-apple_due now drawn account s = ground arith

-- What a delay above the minimum says: the worker is off, or neither of the two moments comes
-- before its end.
delay-ahead :
    (now t drawn : ℕ) (account : Option AppleAccount) (s : AutoRefresh)
    → auto_refresh_minimum_wake < (next_wake_delay now drawn account s).1
    → t < now + (next_wake_delay now drawn account s).1
    → (load s).enabled ≡ true
    → (at : ℕ) × ((load s).last_run_at ≡ some at)
      × (t < at + (load s).interval_seconds * second)
      × (has_come t (apple_due now drawn account s).1 ≡ false)
      × ((next_wake_delay now drawn account s).0 ≡ (apple_due now drawn account s).0)
unfolding next_wake_delay
delay-ahead now t drawn account s m l e = elim (Option-cases (load s).last_run_at) [
  | inl n ↦ absurd (ground arith)
  | inr (at, n) ↦ (at, n, ground arith, ground arith, ground arith)
]

delay_bounded :
    (now drawn : ℕ) (account : Option AppleAccount) (s : AutoRefresh)
    → (next_wake_delay now drawn account s).1 ≤ auto_refresh_idle_poll
unfolding next_wake_delay
delay_bounded now drawn account s = ground arith

quiet :
    (t at drawn : ℕ) (account : Option AppleAccount) (s : AutoRefresh)
    → (load s).last_run_at ≡ some at
    → t < at + (load s).interval_seconds * second
    → has_come t (apple_due t drawn account s).1 ≡ false
    → (run_if_due t drawn account s).1 ≡ nothing
unfolding run_if_due
quiet t at drawn account s r l h = ground arith

switched_off :
    (now t drawn drawn' : ℕ) (account : Option AppleAccount) (s : AutoRefresh)
    → (load s).enabled ≡ false
    → (run_if_due t drawn' account (next_wake_delay now drawn account s).0).1 ≡ nothing
unfolding run_if_due next_wake_delay
switched_off now t drawn drawn' account s h = ground arith

-- The timer sleeps at most 30 seconds. Where it sleeps longer than 100 milliseconds,
-- neither a check nor a keep-alive of the same account is due at any moment before it wakes.
pub next_wake_delay_lem :
    (now t drawn drawn' : ℕ) (account : Option AppleAccount) (s : AutoRefresh)
    → now ≤ t
    → auto_refresh_minimum_wake < (next_wake_delay now drawn account s).1
    → t < now + (next_wake_delay now drawn account s).1
    → ((next_wake_delay now drawn account s).1 ≤ auto_refresh_idle_poll)
      × ((run_if_due t drawn' account (next_wake_delay now drawn account s).0).1 ≡ nothing)
next_wake_delay_lem now t drawn drawn' account s l m h = (
  delay_bounded now drawn account s,
  elim (Bool-cases (load s).enabled) [
    | inr e ↦ switched_off now t drawn drawn' account s e
    | inl e ↦
        let (at, r, w, c, k) = delay-ahead now t drawn account s m h e in
        let s' = (apple_due now drawn account s).0 in
        let f = load-apple_due now drawn account s in
        let g = apple_due-later now t drawn drawn' account s l c in
        rw k (quiet t at drawn' account s' (rw f r) (rw f w) (rw g c))
  ],
)
