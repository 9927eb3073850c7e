-- ===== src/Prelude/Clock.antt =====
-- Times are nanoseconds since 1970, where the source has a time.Time or seconds in a float64.
use Prim.Native.Nat.{ℕ}
use mathlib.Core.Bool.{Bool}

abbrev pub second : ℕ
second = 1000000000

-- What an operation meets: the clock, and whether its write (WriteJSON) returns nil.
pub record Env : Type 0 where
  pub now : ℕ
  pub saved : Bool
