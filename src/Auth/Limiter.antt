-- ===== src/Auth/Limiter.antt =====
-- internal/platform/auth/limiter.go: the limit on login attempts for an address or a user name.
use running_tools.Prelude.{◌+◌, ◌*◌, Bool, none, some, List, [], ◌∷◌, ◌++◌, ltb, leb, if◌then◌else◌}
use running_tools.Prelude.Clock.{second}
use running_tools.Prelude.Text.{Text, text_eq}
use running_tools.Auth.Types.{Call, Attempt, Limiter}

abbrev pub no_attempt : Attempt
no_attempt = record { count = 0; expires_at = 0 }

abbrev pub put : Text → Attempt → Limiter → Limiter
put key a l = record l { local = λ other. if text_eq other key then a else l.local other }

-- `digest` stands for the SHA-256 of a text in hexadecimal.
module _ (digest : Text → Text) where
  abbrev pub key_of : Limiter → Text → Text
  key_of l value = l.key_prefix ++ digest value

  -- The entry of a key once an attempt is counted.
  unfoldable pub counted : Call → Attempt → Attempt
  counted c a =
      if ltb c.now a.expires_at
      then record a { count = a.count + 1 }
      else record { count = 1; expires_at = c.now + 900 * second }

  unfoldable pub allow : Call → Text → Limiter → Limiter × Bool
  unfolding counted
  allow c value l =
      let key = key_of l value in
      let a = counted c (l.local key) in
      elim (c.redis key) [ some n ↦ (l, leb n 5) | none ↦ (put key a l, leb a.count 5) ]

  -- clear. What it deletes in Redis shows in what Redis counts later.
  unfoldable pub clear : List Text → Limiter → Limiter
  clear [] l = l
  clear (value ∷ values) l = clear values (put (key_of l value) no_attempt l)
