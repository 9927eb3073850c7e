-- ===== src/Auth/Throttle.antt =====
-- internal/platform/auth/limiter.go: how many attempts pass in a window.
use running_tools.Prelude.{
  ℕ, ◌+◌, ◌*◌, ◌≤◌, ◌<◌, ◌≡◌, none, List, [], ◌∷◌, arith, if◌then◌else◌, length, All,
}
use Prim.Native.Nat.{min}
use running_tools.Prelude.Clock.{second}
use running_tools.Prelude.Text.{Text, text_eq_refl}
use running_tools.Auth.Types.{Call, Limiter}
use running_tools.Auth.Limiter.{key_of, allow}

module _ (digest : Text → Text) (value : Text) where
  -- How many of a sequence of attempts pass.
  unfoldable pub passed : List Call → Limiter → ℕ
  passed [] l = 0
  passed (c ∷ cs) l = let r = allow digest c value l in (if r.1 then 1 else 0) + passed cs r.0

  -- Attempts before an instant, with no count of Redis.
  abbrev pub Within : Text → ℕ → List Call → Type 0
  Within key end = All (λ c. (c.redis key ≡ none) × (c.now < end))

  passed_later :
      (cs : List Call) (l : Limiter) (n end : ℕ)
      → (l.local (key_of digest l value)).count ≡ n
      → (l.local (key_of digest l value)).expires_at ≡ end
      → Within (key_of digest l value) end cs
      → passed cs l + min n 5 ≡ min (n + length cs) 5
  unfolding passed allow
  passed_later [] l n end h e w = omega arith
  passed_later (c ∷ cs) l n end h e ((r, b), w) =
      let l' = (allow digest c value l).0 in
      ground (arith, text_eq_refl (key_of digest l value), passed_later cs l' (n + 1) end)

  -- Where Redis counts nothing and no successful Login clears the count in between, of the attempts
  -- for a value that follow one another within 15 minutes of the first, exactly the first five pass,
  -- if none before it is still counted.
  pub passed_lem :
      (c : Call) (cs : List Call) (l : Limiter)
      → (l.local (key_of digest l value)).expires_at ≤ c.now
      → Within (key_of digest l value) (c.now + 900 * second) (c ∷ cs)
      → passed (c ∷ cs) l ≡ min (length (c ∷ cs)) 5
  unfolding passed allow
  passed_lem c cs l h ((r, b), w) =
      let l' = (allow digest c value l).0 in
      ground
        (arith, text_eq_refl (key_of digest l value), passed_later cs l' 1 (c.now + 900 * second))
