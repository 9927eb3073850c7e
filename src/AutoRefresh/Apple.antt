-- ===== src/AutoRefresh/Apple.antt =====
-- When the Apple Account is to be kept alive: appleAccountKeepAliveSchedule of
-- modules/mail/backend/session.go, refreshDueAt of apple_types.go, and appleKeepAliveDueAtLocked of
-- autorefresh.go.
use running_tools.Prelude.{
  ℕ, ◌+◌, ◌-◌, ◌*◌, ◌/◌, Bool, true, false, not, ◌&&◌, ◌||◌, Option, none, some, ltb, ◌==◌,
  if◌then◌else◌,
}
use running_tools.Prelude.Clock.{second}
use running_tools.AutoRefresh.Types.{
  apple_keep_alive_interval, spread, reauth_required, Health, AutoRefresh, AppleAccount,
}

-- `a.After(b)`, where `none` is the zero time.
abbrev pub is_after : Option ℕ → Option ℕ → Bool
is_after none b = false
is_after (some a) none = true
is_after (some a) (some b) = ltb b a

abbrev pub equal_times : Option ℕ → Option ℕ → Bool
equal_times none none = true
equal_times none (some b) = false
equal_times (some a) none = false
equal_times (some a) (some b) = a == b

abbrev requires_login : Health → Bool
requires_login reauth_required = true
requires_login _ = false

abbrev pub shorter : ℕ → ℕ → ℕ
shorter a b = if ltb a b then a else b

-- The lead of a token that lasts from one time to another.
unfoldable pub lead_of : Option ℕ → ℕ → ℕ
lead_of none expires = 120 * second
lead_of (some checked) expires =
    let third = (expires - checked) / 3 in
    let lead = if ltb checked expires && ltb third (120 * second) then third else 120 * second in
    if ltb lead (30 * second) then 30 * second else lead

-- refreshDueAt
unfoldable pub refresh_due_at : ℕ → AppleAccount → ℕ
unfolding lead_of
refresh_due_at now a = elim a.manage_expires_at [
  | none ↦ now
  | some expires ↦ expires - lead_of a.last_checked_at expires
]

abbrev later_of : ℕ → Option ℕ → ℕ
later_of deadline none = deadline
later_of deadline (some at) =
    if ltb deadline (at + apple_keep_alive_interval)
    then at + apple_keep_alive_interval
    else deadline

-- appleAccountKeepAliveSchedule: the anchor and the deadline, `none` where there is nothing to keep
-- alive. `account` is the stored account, if it can be read.
unfoldable pub keep_alive_schedule : ℕ → Option AppleAccount → Option (Option ℕ × ℕ)
unfolding refresh_due_at
keep_alive_schedule now none = none
keep_alive_schedule now (some a) =
    let failing = is_after a.last_attempt_at a.last_checked_at in
    let due = refresh_due_at now a in
    if not a.has_cookies || requires_login a.health
    then none
    else some (
      if failing then a.last_attempt_at else a.last_checked_at,
      if failing then later_of due a.last_attempt_at else due,
    )

-- The target for an anchor. `drawn` is what rand.Int64N gives for the jitter.
abbrev pub target_for : ℕ → ℕ → Option ℕ → ℕ
target_for now drawn none = now
target_for now drawn (some checked) = checked + (apple_keep_alive_interval - spread) + drawn

-- appleKeepAliveDueAtLocked: when the keep-alive is due.
unfoldable pub apple_due : ℕ → ℕ → Option AppleAccount → AutoRefresh → AutoRefresh × Option ℕ
apple_due now drawn account s = elim (keep_alive_schedule now account) [
  | none ↦ (record s { apple_target_at = none; apple_checked_at = none }, none)
  | some (anchor, deadline) ↦
      let fresh = target_for now drawn anchor in
      elim s.apple_target_at [
        | none ↦ (
          record s { apple_target_at = some fresh; apple_checked_at = anchor },
          some (shorter deadline fresh),
        )
        | some target ↦
            if equal_times s.apple_checked_at anchor then (s, some (shorter deadline target)) else (
              record s { apple_target_at = some fresh; apple_checked_at = anchor },
              some (shorter deadline fresh),
            )
      ]
]
