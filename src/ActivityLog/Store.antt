-- ===== src/ActivityLog/Store.antt =====
-- internal/platform/activitylog/store.go: Record, Query and Clear in the three storage modes.
use running_tools.Prelude.{
  ℕ, zero, suc, ◌-◌, ◌*◌, ◌/◌, Bool, true, false, not, ◌&&◌, Option, none, some, List, [], ◌∷◌,
  ◌++◌, reverse, ltb, if◌then◌else◌, keep, drop, some_of, Result, ok, err, ◌==◌,
}
use running_tools.Prelude.Text.{Text}
use running_tools.Prelude.Sort.{sort_by}
use running_tools.ActivityLog.Types.{
  Entry, Input, Query, Page, File, broken, missing, holding, LogRow, Mode, json, dual, postgres,
  Store, LogError, unreadable, unwritten, unavailable, not_inserted, not_deleted, LogEnv,
}
use running_tools.ActivityLog.Entries.{normalized_entry, normalized_query}
use running_tools.ActivityLog.Pages.{day, query_entries, query_postgres, is_own, later_row}

-- DefaultMaximumEntries and DefaultRetentionDays.
abbrev pub maximum_entries : ℕ
maximum_entries = 10000

abbrev retention : ℕ
retention = 30 * day

unfoldable pub read : File → Option (List Entry)
read broken = none
read missing = some []
read (holding es) = some es

-- `!entry.CreatedAt.Before(cutoff)`
abbrev pub recent : ℕ → Entry → Bool
recent now e = not (ltb e.created_at (now - retention))

-- The loop of appendJSONLocked, from the last entry on, until it has `room` entries.
unfoldable pub collect : ℕ → ℕ → List Entry → List Entry
collect now zero es = []
collect now (suc room) [] = []
collect now (suc room) (e ∷ es) = elim (recent now e) [
  | true ↦ e ∷ collect now room es
  | false ↦ collect now (suc room) es
]

unfoldable pub append_json : LogEnv → Entry → Store → Store × Option LogError
unfolding read collect
append_json env e s = elim (read s.file) [
  | none ↦ (s, some unreadable)
  | some es ↦
      if env.saved
      then (
        record s {
          file = holding (reverse (collect env.now maximum_entries (reverse (es ++ (e ∷ [])))));
        },
        none,
      )
      else (s, some unwritten)
]

abbrev expired_row : ℕ → LogRow → Bool
expired_row now r = ltb r.entry.created_at (now - retention)

-- The DELETE statements of the cleanup: statement 1 the old rows, 2 and 3 the rows beyond the
-- maximum, newest first.
unfoldable clean_rows : LogEnv → Store → List LogRow
clean_rows env s =
    let kept =
      if env.ran 1 then keep (λ r. not (is_own s r && expired_row env.now r)) s.rows else s.rows in
    let beyond = drop maximum_entries (sort_by later_row (keep (is_own s) kept)) in
    if env.ran 2 && env.ran 3
    then keep (λ r. not (some_of (λ (x : LogRow). x.row_id == r.row_id) beyond)) kept
    else kept

unfoldable insert_postgres : LogEnv → Entry → Store → Store × Option LogError
unfolding clean_rows
insert_postgres env e s =
    let row : LogRow = record { row_id = s.next_id; account_id = s.account_id; entry = e } in
    let s' = record s { rows = s.rows ++ (row ∷ []); next_id = suc s.next_id } in
    if not s.connected
    then (s, some unavailable)
    else if not (env.ran 0)
    then (s, some not_inserted)
    else if ltb (env.now - s.last_cleanup) (day / 24)
    then (s', none)
    else (record s' { rows = clean_rows env s'; last_cleanup = env.now }, none)

abbrev uses_file : Mode → Bool
uses_file json = true
uses_file dual = true
uses_file postgres = false

abbrev uses_table : Mode → Bool
uses_table json = false
uses_table dual = true
uses_table postgres = true

unfoldable pub record_entry : LogEnv → Entry → Store → Store × Option LogError
unfolding append_json insert_postgres
record_entry env e s =
    let r = if uses_file s.mode then append_json env e s else (s, none) in
    elim r.1 [
      | some x ↦ (r.0, some x)
      | none ↦ if uses_table s.mode then insert_postgres env e r.0 else (r.0, none)
    ]

-- Record. Its error goes to the log of the server only.
unfoldable pub log : LogEnv → (Text → Text) → Text → Input → Store → Store
unfolding record_entry
log env redact id input s =
    (record_entry env (normalized_entry redact id env.now s.module_name input) s).0

-- Query; `itoa` stands for strconv.Itoa.
unfoldable pub query : (ℕ → Text) → LogEnv → Query → Store → Result LogError Page
unfolding read
query itoa env q s = elim s.mode [
  | postgres ↦ query_postgres itoa s env (normalized_query q)
  | json ↦ elim (read s.file) [
    | none ↦ err unreadable
    | some es ↦ ok (query_entries env es (normalized_query q))
  ]
  | dual ↦ elim (read s.file) [
    | none ↦ err unreadable
    | some es ↦ ok (query_entries env es (normalized_query q))
  ]
]

unfoldable pub clear : LogEnv → Store → Store × Option LogError
clear env s =
    let s' = if uses_file s.mode then record s { file = holding [] } else s in
    if uses_file s.mode && not env.saved
    then (s, some unwritten)
    else if not (uses_table s.mode)
    then (s', none)
    else if not s.connected
    then (s', some unavailable)
    else if env.ran 0
    then (record s' { rows = keep (λ r. not (is_own s r)) s.rows }, none)
    else (s', some not_deleted)
