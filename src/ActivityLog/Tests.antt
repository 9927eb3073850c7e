-- ===== src/ActivityLog/Tests.antt =====
-- The log of a module on small inputs, and the theorems at inputs that meet their hypotheses.
use running_tools.Prelude.{
  ℕ, ◌-◌, ◌*◌, ◌+◌, ◌≡◌, refl, true, false, none, [], ◌∷◌, ◌++◌, map, keep, drop, take, length, ok,
}
use running_tools.Prelude.Int.{pos}
use running_tools.Prelude.Text.{
  Text, text, text_eq, trim_space, to_lower, cut, contains, has_prefix,
}
use running_tools.ActivityLog.Types.{Entry, Query, Page, json, holding, LogRow, Store, LogEnv}
use running_tools.ActivityLog.Entries.{normalized_query, limit}
use running_tools.ActivityLog.Pages.{day, matching, query_entries, query_postgres, found, db_found}
use running_tools.ActivityLog.Store.{
  read, maximum_entries, recent, append_json, record_entry, query,
}
use running_tools.ActivityLog.Retention.{append_json-newest}
use running_tools.ActivityLog.Paging.{pages_upto, pages_upto-take}
use running_tools.ActivityLog.Agreement.{stored, bare, query_postgres-query_entries}
use running_tools.ActivityLog.Recording.{query-record_entry}
use running_tools.ActivityLog.Import.{
  imported_entry, import_legacy_json, broken_off, complete, import_legacy_json-again,
}

abbrev entry : ℕ → Entry
entry at = record {
  id = [];
  module_name = b'm' ∷ [];
  category = [];
  action = text "create";
  level = text "info";
  outcome = text "success";
  summary = text "made";
  source = text "user";
  method = [];
  path = [];
  http_status = pos 200;
  duration_ms = 1;
  request_id = [];
  detail = [];
  metadata = [];
  created_at = at;
}

abbrev any_entry : Query
any_entry = record {
  page = pos 1;
  page_size = pos 10;
  search = [];
  level = [];
  category = [];
  source = [];
  start_time = none;
  end_time = none;
}

abbrev calm : LogEnv
calm = record { now = 100 * day; day_start = 100 * day; saved = true; ran = λ _. true }

abbrev row : ℕ → LogRow
row n = record { row_id = n; account_id = text "default"; entry = entry (90 * day + n) }

-- An entry of 60 days ago, and two recent ones, also in the table.
abbrev store : Store
store = record {
  module_name = b'm' ∷ [];
  account_id = text "default";
  mode = json;
  connected = true;
  file = holding (entry (40 * day) ∷ entry (90 * day) ∷ []);
  rows = row 1 ∷ row 2 ∷ [];
  next_id = 3;
  last_cleanup = 0;
}

abbrev letter : ℕ → Text
letter n = n ∷ []

append_json-newest_example :
    (append_json calm (entry (99 * day)) store).0.file
    ≡ holding (
        drop
          (length (
              keep
                (recent calm.now)
                ((entry (40 * day) ∷ entry (90 * day) ∷ []) ++ (entry (99 * day) ∷ [])))
            - maximum_entries)
          (keep
            (recent calm.now)
            ((entry (40 * day) ∷ entry (90 * day) ∷ []) ++ (entry (99 * day) ∷ []))))
unfolding read
append_json-newest_example =
    append_json-newest calm (entry (99 * day)) store (entry (40 * day) ∷ entry (90 * day) ∷ []) refl
      refl

pages_upto-take_example :
    pages_upto calm (entry 1 ∷ entry 2 ∷ []) any_entry 2
    ≡ take (2 * 10) (matching any_entry (entry 1 ∷ entry 2 ∷ []))
pages_upto-take_example = pages_upto-take calm (entry 1 ∷ entry 2 ∷ []) any_entry 2

query_postgres-query_entries_example :
    (p : Page) × (query_postgres letter store calm any_entry ≡ ok p)
    × (map bare p.items
        ≡ map bare
            (query_entries calm (entry (90 * day + 1) ∷ entry (90 * day + 2) ∷ []) any_entry).items)
    × (p.total
        ≡ (query_entries calm (entry (90 * day + 1) ∷ entry (90 * day + 2) ∷ []) any_entry).total)
    × (p.stats
        ≡ (query_entries calm (entry (90 * day + 1) ∷ entry (90 * day + 2) ∷ []) any_entry).stats)
unfolding text_eq text
query_postgres-query_entries_example =
    query_postgres-query_entries letter store calm any_entry
      (entry (90 * day + 1) ∷ entry (90 * day + 2) ∷ []) refl refl refl refl refl

query-record_entry_example :
    (p : Page) × (query letter calm any_entry (record_entry calm (entry (99 * day)) store).0 ≡ ok p)
    × (take 1 p.items ≡ entry (99 * day) ∷ [])
unfolding read found normalized_query limit trim_space to_lower cut
query-record_entry_example =
    query-record_entry letter calm calm (entry (99 * day)) store
      (entry (40 * day) ∷ entry (90 * day) ∷ []) any_entry refl refl refl refl refl refl refl

import_legacy_json-again_example :
    map stored
      (import_legacy_json
        (λ s. s)
        (complete calm)
        (import_legacy_json (λ s. s) (broken_off (2 + 1) calm) false store).0
        (import_legacy_json (λ s. s) (broken_off (2 + 1) calm) false store).1).1.rows
    ≡ map stored store.rows
      ++ map (imported_entry (λ s. s) store.module_name) (entry (40 * day) ∷ [])
      ++ map
          (imported_entry (λ s. s) store.module_name)
          ((entry (40 * day) ∷ []) ++ (entry (90 * day) ∷ []))
unfolding text_eq text
import_legacy_json-again_example =
    import_legacy_json-again (λ s. s) calm calm store (entry (40 * day) ∷ []) [] (entry (90 * day))
      refl refl refl

-- The text of a search that the file finds across two fields and the table does not.
abbrev across : Query
across = record any_entry { search = text "made create" }

across_test : (found across (entry 0) ≡ true) × (db_found across (entry 0) ≡ false)
unfolding found db_found contains has_prefix to_lower text
across_test = (refl, refl)
