-- ===== src/ShareLinks/Types.antt =====
-- modules/mail/backend/share_links.go: the stored links and sessions. Times are nanoseconds since
-- 1970 where the source has seconds in a float64.
use running_tools.Prelude.{ℕ, Bool, Option, List}
use running_tools.Prelude.Text.{Text}

pub record ShareLink : Type 0 where
  pub id : Text
  pub alias : Text
  pub token_hash : Text
  pub created_at : ℕ
  pub expires_at : Option ℕ
  pub last_used_at : Option ℕ
  pub revoked_at : Option ℕ

pub record ShareSession : Type 0 where
  pub token_hash : Text
  pub link_id : Text
  pub expires_at : ℕ

pub record ShareState : Type 0 where
  pub links : List ShareLink
  pub sessions : List ShareSession

-- What ReadJSON finds: a state, a list of links of an older version, or neither.
pub data File : Type 0 where
  unreadable : File
  saved_state : ShareState → File
  legacy_links : List ShareLink → File

-- ShareLinkStore with no database.
pub record Store : Type 0 where
  pub file : File

-- shareLinkCreateInput.
pub record Input : Type 0 where
  pub alias : Text
  pub alias_created_at : ℕ

-- What CreateBatch returns for a link: `shareUrl` is here the two values that it carries.
pub record Created : Type 0 where
  pub id : Text
  pub alias : Text
  pub created_at : ℕ
  pub expires_at : Option ℕ
  pub share_email : Text
  pub share_token : Text
  pub alias_created_at : Option ℕ

-- publicShareLink.
pub record PublicLink : Type 0 where
  pub id : Text
  pub alias : Text
  pub created_at : ℕ
  pub expires_at : Option ℕ
  pub last_used_at : Option ℕ
  pub revoked_at : Option ℕ
  pub active : Bool

pub data ShareError : Type 0 where
  no_alias bad_expiry blank_alias no_token not_written : ShareError
