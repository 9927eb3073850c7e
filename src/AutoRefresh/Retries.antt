-- ===== src/AutoRefresh/Retries.antt =====
-- modules/mail/backend/autorefresh.go: how soon a keep-alive that failed is tried again.
use running_tools.Prelude.{
  ℕ, ◌+◌, ◌*◌, ◌≤◌, ◌≡◌, refl, true, Option, none, some, List, [], ◌∷◌, arith, Option-cases,
  Bool-cases, inl, inr,
}
use running_tools.Prelude.Clock.{second}
use running_tools.AutoRefresh.Types.{AutoRefresh, AppleAccount}
use running_tools.AutoRefresh.Apple.{
  is_after, equal_times, target_for, keep_alive_schedule, apple_due, shorter,
}
use running_tools.AutoRefresh.Service.{keep_alive, run_if_due}

-- A look at the account, by the timer or by a request for the status.
pub record Look : Type 0 where
  pub now : ℕ
  pub drawn : ℕ
  pub account : Option AppleAccount

-- The worker after a sequence of looks.
unfoldable pub looked : List Look → AutoRefresh → AutoRefresh
looked [] s = s
looked (x ∷ xs) s = looked xs (apple_due x.now x.drawn x.account s).0

-- A target stands at least 153 seconds after its anchor.
abbrev Spaced : Option ℕ → Option ℕ → Type 0
Spaced none anchor = Unit {0}
Spaced (some target) none = Unit {0}
Spaced (some target) (some at) = at + 153 * second ≤ target

target_for-Spaced :
    (now drawn : ℕ) (anchor : Option ℕ) → Spaced (some (target_for now drawn anchor)) anchor
target_for-Spaced now drawn none = tt
target_for-Spaced now drawn (some at) = omega arith

equal_times→eq : (a b : Option ℕ) → equal_times a b ≡ true → a ≡ b
equal_times→eq none none h = refl
equal_times→eq none (some b) h = cc
equal_times→eq (some a) none h = cc
equal_times→eq (some a) (some b) h = ground arith

-- Where there is something to keep alive, the due time is the deadline or a target for its anchor.
apple_due-Spaced :
    (now drawn : ℕ) (account : Option AppleAccount) (s : AutoRefresh) (anchor : Option ℕ)
    (deadline : ℕ)
    → Spaced s.apple_target_at s.apple_checked_at
    → keep_alive_schedule now account ≡ some (anchor, deadline)
    → (target : ℕ) × ((apple_due now drawn account s).1 ≡ some (shorter deadline target))
      × ((apple_due now drawn account s).0.apple_target_at ≡ some target)
      × ((apple_due now drawn account s).0.apple_checked_at ≡ anchor)
      × Spaced (some target) anchor
unfolding apple_due
apple_due-Spaced now drawn account s anchor deadline h e =
    let fresh = target_for now drawn anchor in
    elim (Option-cases s.apple_target_at) [
      | inl n ↦
          (fresh, ground arith, ground arith, ground arith, target_for-Spaced now drawn anchor)
      | inr (t, n) ↦ elim (Bool-cases (equal_times s.apple_checked_at anchor)) [
        | inl q ↦
            let i = equal_times→eq s.apple_checked_at anchor q in
            (t, ground arith, ground arith, ground arith, rw (n, i) at h)
        | inr q ↦
            (fresh, ground arith, ground arith, ground arith, target_for-Spaced now drawn anchor)
      ]
    ]

no_schedule :
    (now drawn : ℕ) (account : Option AppleAccount) (s : AutoRefresh)
    → keep_alive_schedule now account ≡ none
    → ((apple_due now drawn account s).1 ≡ none)
      × ((apple_due now drawn account s).0.apple_target_at ≡ none)
unfolding apple_due
no_schedule now drawn account s h = (ground arith, ground arith)

apple_due-keeps :
    (now drawn : ℕ) (account : Option AppleAccount) (s : AutoRefresh)
    → Spaced s.apple_target_at s.apple_checked_at
    → let s' = (apple_due now drawn account s).0 in Spaced s'.apple_target_at s'.apple_checked_at
apple_due-keeps now drawn account s h = elim (Option-cases (keep_alive_schedule now account)) [
  | inl n ↦ let (d, e) = no_schedule now drawn account s n in rw e tt
  | inr ((anchor, deadline), n) ↦
      let (t, d, e, f, g) = apple_due-Spaced now drawn account s anchor deadline h n in rw (e, f) g
]

looked-Spaced :
    (xs : List Look) (s : AutoRefresh)
    → Spaced s.apple_target_at s.apple_checked_at
    → Spaced (looked xs s).apple_target_at (looked xs s).apple_checked_at
unfolding looked
looked-Spaced [] s h = h
looked-Spaced (x ∷ xs) s h =
    looked-Spaced xs (apple_due x.now x.drawn x.account s).0
      (apple_due-keeps x.now x.drawn x.account s h)

schedule_failed :
    (now attempt : ℕ) (a : AppleAccount) (anchor : Option ℕ) (deadline : ℕ)
    → a.last_attempt_at ≡ some attempt
    → is_after a.last_attempt_at a.last_checked_at ≡ true
    → keep_alive_schedule now (some a) ≡ some (anchor, deadline)
    → (anchor ≡ some attempt) × (attempt + 180 * second ≤ deadline)
unfolding keep_alive_schedule
schedule_failed now attempt a anchor deadline l f h = ground arith

keep_alive-due :
    (now drawn : ℕ) (a : AppleAccount) (s : AutoRefresh)
    → (run_if_due now drawn (some a) s).1 ≡ keep_alive
    → (due : ℕ) × ((apple_due now drawn (some a) s).1 ≡ some due) × (due ≤ now)
unfolding run_if_due
keep_alive-due now drawn a s h = elim (Option-cases (apple_due now drawn (some a) s).1) [
  | inl n ↦ absurd (ground arith)
  | inr (due, n) ↦ (due, n, ground arith)
]

-- Whatever the looks of the timer before were, runIfDue does not choose to call
-- KeepAliveAppleAccount until 153 seconds after an attempt that has failed, one that is later than
-- the last check of the Apple Account, where the worker begins with no target. A check of the
-- Session, due or asked for, is no keep-alive and may come earlier.
pub run_if_due-failed :
    (xs : List Look) (now drawn attempt : ℕ) (a : AppleAccount) (s : AutoRefresh)
    → s.apple_target_at ≡ none
    → a.last_attempt_at ≡ some attempt
    → is_after a.last_attempt_at a.last_checked_at ≡ true
    → (run_if_due now drawn (some a) (looked xs s)).1 ≡ keep_alive
    → attempt + 153 * second ≤ now
run_if_due-failed xs now drawn attempt a s n l f h =
    let t = looked xs s in
    let (due, e, m) = keep_alive-due now drawn a t h in
    let ok = looked-Spaced xs s (rw n tt) in
    elim (Option-cases (keep_alive_schedule now (some a))) [
      | inl q ↦ absurd (ground (arith, no_schedule now drawn (some a) t))
      | inr ((anchor, deadline), q) ↦
          let (w, p) = schedule_failed now attempt a anchor deadline l f q in
          let (target, d, x, y, g) = apple_due-Spaced now drawn (some a) t anchor deadline ok q in
          let z : attempt + 153 * second ≤ target = rw w at g in ground arith
    ]
