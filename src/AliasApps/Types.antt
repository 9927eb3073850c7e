-- ===== src/AliasApps/Types.antt =====
-- modules/mail/backend/alias_applications.go: the state of an application for an alias, and the
-- evidence read off a message. Times are nanoseconds since 1970.
use running_tools.Prelude.{ℕ, Option, List, Bool}
use running_tools.Prelude.Text.{Text}

-- The statuses that the table admits; `""` is none.
pub data Status : Type 0 where
  observed confirmed : Status

pub data Kind : Type 0 where
  registration login definitive : Kind

-- applicationEvidence.
pub record Evidence : Type 0 where
  pub kind : Kind
  pub alias : Text
  pub uid : ℕ
  pub at : ℕ
  pub subject : Text
  pub sender : Text

-- A row of mail_alias_app_states. The app key is always "gpt".
pub record AppState : Type 0 where
  pub account_id : Text
  pub alias : Text
  pub status : Status
  pub detected_at : Option ℕ
  pub detected_uid : ℕ
  pub detected_subject : Text
  pub detected_sender : Text
  pub confirmed_at : Option ℕ
  pub confirmed_uid : ℕ
  pub confirmed_subject : Text
  pub confirmed_sender : Text

-- The part of MailMessage that is read here. The date is in nanoseconds where the source has
-- seconds in a float64.
pub record Message : Type 0 where
  pub uid : ℕ
  pub aliases : List Text
  pub from : Text
  pub subject : Text
  pub date : ℕ

-- AliasApplication.
pub record Application : Type 0 where
  pub key : Text
  pub label : Text
  pub status : Status
  pub detected_at : Option ℕ
  pub confirmed_at : Option ℕ

pub data AppError : Type 0 where
  load_failed create_failed update_failed : AppError

-- What one try of observeEvidence meets: whether its query and its write run, and the rows that
-- other processes insert between the two.
pub record Attempt : Type 0 where
  pub loads : Bool
  pub rivals : List AppState
  pub saves : Bool
