-- ===== src/ActivityLog/Types.antt =====
-- internal/platform/activitylog/store.go: the entries of a module's log and the two places where they
-- are kept. Times are nanoseconds since 1970.
use running_tools.Prelude.{ℕ, Bool, Option, List}
use running_tools.Prelude.Int.{ℤ}
use running_tools.Prelude.Text.{Text}

-- A value of Metadata: a string, a Boolean or number by its text, or anything else.
pub data Value : Type 0 where
  words : Text → Value
  scalar : Text → Value
  composite : Value

pub record Entry : Type 0 where
  pub id : Text
  pub module_name : Text
  pub category : Text
  pub action : Text
  pub level : Text
  pub outcome : Text
  pub summary : Text
  pub source : Text
  pub method : Text
  pub path : Text
  pub http_status : ℤ
  pub duration_ms : ℕ
  pub request_id : Text
  pub detail : Text
  pub metadata : List (Text × Value)
  pub created_at : ℕ

pub record Input : Type 0 where
  pub category : Text
  pub action : Text
  pub level : Text
  pub outcome : Text
  pub summary : Text
  pub source : Text
  pub method : Text
  pub path : Text
  pub http_status : ℤ
  pub duration_ms : ℤ
  pub request_id : Text
  pub detail : Text
  pub metadata : List (Text × Value)

pub record Query : Type 0 where
  pub page : ℤ
  pub page_size : ℤ
  pub search : Text
  pub level : Text
  pub category : Text
  pub source : Text
  pub start_time : Option ℕ
  pub end_time : Option ℕ

pub record Stats : Type 0 where
  pub today : ℕ
  pub failures : ℕ
  pub background : ℕ

pub record Page : Type 0 where
  pub items : List Entry
  pub total : ℕ
  pub page : ℕ
  pub page_size : ℕ
  pub stats : Stats

-- What ReadJSON finds.
pub data File : Type 0 where
  broken missing : File
  holding : List Entry → File

-- A row of the table of activity logs; `row_id` is its serial key.
pub record LogRow : Type 0 where
  pub row_id : ℕ
  pub account_id : Text
  pub entry : Entry

pub data Mode : Type 0 where
  json dual postgres : Mode

pub record Store : Type 0 where
  pub module_name : Text
  pub account_id : Text
  pub mode : Mode
  pub connected : Bool
  pub file : File
  pub rows : List LogRow
  pub next_id : ℕ
  pub last_cleanup : ℕ

pub data LogError : Type 0 where
  unreadable unwritten unavailable not_inserted not_deleted not_queried : LogError

-- What a call meets: the clock, and whether WriteJSON and the statement number i succeed.
pub record LogEnv : Type 0 where
  pub now : ℕ
  pub day_start : ℕ
  pub saved : Bool
  pub ran : ℕ → Bool
