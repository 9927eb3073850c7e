-- ===== src/Auth/Startup.antt =====
-- internal/platform/auth/service.go: NewService and the bootstrap of the administrator.
use running_tools.Prelude.{
  ℕ, ◌*◌, Bool, not, ◌||◌, Option, none, some, ltb, if◌then◌else◌, Result, ok, err,
}
use running_tools.Prelude.Clock.{second}
use running_tools.Prelude.Text.{Text, text}
use running_tools.Auth.Types.{Database, Call}
use running_tools.Auth.Database.{day, bootstrap_user}
use running_tools.Auth.Password.{Crypto, hash_password}
use running_tools.Auth.Login.{normalize_username, matches_username}

-- Config.
pub record Config : Type 0 where
  pub admin_username : Text
  pub session_ttl : ℕ
  pub trust_proxy : Bool

-- The configuration and the dummy hash that Service keeps.
pub record Started : Type 0 where
  pub config : Config
  pub dummy_hash : Text

pub data StartError : Type 0 where
  no_database bad_ttl bad_username no_salt not_bootstrapped : StartError

module _ (k : Crypto) where
  -- bootstrap; `salt` is what hashPassword draws.
  unfoldable pub bootstrap : Call → ℕ → Option Text → Text → Database → Result StartError Database
  bootstrap c next_id none username d = err no_salt
  bootstrap c next_id (some salt) username d =
      elim (bootstrap_user c next_id username (hash_password k salt (text "admin123")) d) [
        | err e ↦ err not_bootstrapped
        | ok d' ↦ ok d'
      ]

  -- NewService, with the salts of the dummy hash and of the first password.
  unfoldable pub new_service :
      Call
      → ℕ
      → Option Text
      → Option Text
      → Bool
      → Config
      → Database
      → Database × Result StartError Started
  unfolding bootstrap
  new_service c next_id dummy_salt salt has_database cfg d =
      let name = normalize_username cfg.admin_username in
      if not has_database
      then (d, err no_database)
      else if ltb cfg.session_ttl (3600 * second) || ltb (30 * day) cfg.session_ttl
      then (d, err bad_ttl)
      else if not (matches_username name)
      then (d, err bad_username)
      else elim dummy_salt [
        | none ↦ (d, err no_salt)
        | some s ↦ elim (bootstrap c next_id salt name d) [
          | err e ↦ (d, err e)
          | ok d' ↦ (
            d',
            ok (record {
              config = record cfg { admin_username = name };
              dummy_hash = hash_password k s (text "running-tools-dummy-password");
            }),
          )
        ]
      ]
