-- ===== src/ActivityLog/Pages.antt =====
-- internal/platform/activitylog/store.go: the pages of a log, read from the JSON file and from the
-- table.
use running_tools.Prelude.{
  ℕ, ◌+◌, ◌-◌, ◌*◌, Bool, true, not, ◌&&◌, ◌||◌, none, some, List, ◌∷◌, ◌++◌, map, ltb, ◌==◌,
  if◌then◌else◌, keep, take, drop, length, is_empty, Result, ok, err,
}
use running_tools.Prelude.Int.{pos_part}
use running_tools.Prelude.Text.{Text, text, text_eq, to_lower, contains}
use running_tools.Prelude.Clock.{second}
use running_tools.Prelude.Sort.{sort_by}
use running_tools.ActivityLog.Types.{
  Entry, Query, Stats, Page, LogRow, Store, LogError, unavailable, not_queried, LogEnv,
}

abbrev pub day : ℕ
day = 24 * 3600 * second

-- `query.Level != "" && entry.Level != query.Level`, turned round.
abbrev chosen : Text → Text → Bool
chosen wanted value = is_empty wanted || text_eq value wanted

abbrev in_time : Query → Entry → Bool
in_time q e =
    elim q.start_time [ none ↦ true | some at ↦ not (ltb e.created_at at) ]
    && elim q.end_time [ none ↦ true | some at ↦ not (ltb at e.created_at) ]

abbrev pub picked : Query → Entry → Bool
picked q e =
    (chosen q.level e.level && chosen q.category e.category && chosen q.source e.source)
    && in_time q e

-- The search of queryEntries.
unfoldable pub found : Query → Entry → Bool
found q e =
    is_empty (to_lower q.search)
    || contains (to_lower (e.summary ++ (b' ' ∷ e.action) ++ (b' ' ∷ e.request_id)))
        (to_lower q.search)

-- The search of queryPostgres: ContainsFold of one of three columns.
unfoldable pub db_found : Query → Entry → Bool
db_found q e =
    is_empty q.search
    || contains (to_lower e.summary) (to_lower q.search)
    || contains (to_lower e.action) (to_lower q.search)
    || contains (to_lower e.request_id) (to_lower q.search)

abbrev pub count : (Entry → Bool) → List Entry → ℕ
count p es = length (keep p es)

-- The three counts of the entries, with the start of the day and of the last 24 hours.
unfoldable pub stats_of : ℕ → ℕ → List Entry → Stats
stats_of day_start last_day es = record {
  today = count (λ e. not (ltb e.created_at day_start)) es;
  failures = count (λ e. not (ltb e.created_at last_day) && text_eq e.outcome (text "failure")) es;
  background =
      count (λ e. not (ltb e.created_at last_day) && text_eq e.source (text "background")) es;
}

-- `filtered[i].CreatedAt.After(filtered[j].CreatedAt)`
abbrev pub later : Entry → Entry → Bool
later x e = ltb e.created_at x.created_at

-- ORDER BY created_at DESC, id DESC
abbrev pub later_row : LogRow → LogRow → Bool
later_row x r =
    ltb r.entry.created_at x.entry.created_at
    || r.entry.created_at == x.entry.created_at && ltb r.row_id x.row_id

-- `xs[start:end]` with the two bounds of queryEntries.
abbrev pub lesser : ℕ → ℕ → ℕ
lesser a b = if ltb b a then b else a

unfoldable pub slice : ℕ → ℕ → List Entry → List Entry
slice page size es =
    let start = lesser ((page - 1) * size) (length es) in
    let stop = lesser (start + size) (length es) in take (stop - start) (drop start es)

-- The entries of queryEntries, sorted.
unfoldable pub matching : Query → List Entry → List Entry
unfolding found
matching q es = sort_by later (keep (λ e. found q e && picked q e) es)

-- queryEntries, for a query that normalizedQuery gave.
unfoldable pub query_entries : LogEnv → List Entry → Query → Page
unfolding matching slice stats_of
query_entries env es q =
    let filtered = matching q es in
    record {
      items = slice (pos_part q.page) (pos_part q.page_size) filtered;
      total = length filtered;
      page = pos_part q.page;
      page_size = pos_part q.page_size;
      stats = stats_of env.day_start (env.now - day) es;
    }

abbrev pub is_own : Store → LogRow → Bool
is_own s r = text_eq r.entry.module_name s.module_name && text_eq r.account_id s.account_id

-- `itoa` stands for strconv.Itoa.
module _ (itoa : ℕ → Text) (s : Store) where
  abbrev pub entry_of : LogRow → Entry
  entry_of r = record r.entry { id = itoa r.row_id }

  -- The rows of queryPostgres, in their order.
  unfoldable pub matching_rows : Query → List LogRow
  unfolding db_found
  matching_rows q =
      sort_by later_row (keep (λ r. is_own s r && (db_found q r.entry && picked q r.entry)) s.rows)

  -- queryPostgres: statement 0 is the count, 1 the rows with LIMIT and OFFSET, 2 to 4 the counts of
  -- postgresStats.
  unfoldable pub query_postgres : LogEnv → Query → Result LogError Page
  unfolding matching_rows stats_of
  query_postgres env q =
      let rows = matching_rows q in
      let size = pos_part q.page_size in
      if not s.connected
      then err unavailable
      else if not (env.ran 0 && env.ran 1 && env.ran 2 && env.ran 3 && env.ran 4)
      then err not_queried
      else ok (record {
        items = map entry_of (take size (drop ((pos_part q.page - 1) * size) rows));
        total = length rows;
        page = pos_part q.page;
        page_size = size;
        stats = stats_of env.day_start (env.now - day) (map entry_of (keep (is_own s) s.rows));
      })
