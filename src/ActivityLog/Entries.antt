-- ===== src/ActivityLog/Entries.antt =====
-- internal/platform/activitylog/store.go: what is kept of an entry and of a query.
use running_tools.Prelude.{
  ℕ, Bool, ◌||◌, Option, none, some, List, [], ◌∷◌, if◌then◌else◌, ◌==◌, is_empty, some_of,
}
use running_tools.Prelude.Int.{ℤ, pos, negsuc, pos_part, above}
use running_tools.Prelude.Text.{Text, text, text_eq, trim_space, to_lower, contains, cut}
use running_tools.ActivityLog.Types.{Value, words, scalar, composite, Entry, Input, Query}

unfoldable pub limit : Text → ℕ → Text
limit value maximum = cut maximum (trim_space value)

-- `redact` stands for ReplaceAllString of sensitiveDetailPattern.
unfoldable pub safe_detail : (Text → Text) → Text → Text
unfolding limit
safe_detail redact value = limit (redact value) 2000

abbrev hidden_words : List Text
hidden_words =
    text "token"
    ∷ text "cookie"
    ∷ text "password"
    ∷ text "secret"
    ∷ text "body"
    ∷ text "html"
    ∷ text "code"
    ∷ text "key"
    ∷ []

abbrev is_error_code : Text → Bool
is_error_code lower = text_eq lower (text "errorcode") || text_eq lower (text "error_code")

-- What safeMetadata keeps of a value, none where it is left out.
unfoldable safe_value : Text → Value → Option Value
unfolding limit
safe_value key value =
    if is_error_code (to_lower key)
    then elim value [
      | words s ↦ if is_empty s then none else some (words (limit s 128))
      | scalar s ↦ none
      | composite ↦ none
    ]
    else if some_of (contains (to_lower key)) hidden_words
    then none
    else elim value [
      | words s ↦ some (words (limit s 300))
      | scalar s ↦ some (scalar s)
      | composite ↦ none
    ]

-- `result[key] = value`
abbrev put : Text → Value → List (Text × Value) → List (Text × Value)
put key value [] = (key, value) ∷ []
put key value ((k, v) ∷ rest) =
    if text_eq k key then (key, value) ∷ rest else (k, v) ∷ put key value rest

-- The loop of safeMetadata; the list is the order in which Go ranges over the map.
safe_pairs : List (Text × Value) → List (Text × Value) → List (Text × Value)
safe_pairs [] result = result
safe_pairs ((k, v) ∷ rest) result = elim (safe_value k v) [
  | none ↦ safe_pairs rest result
  | some value ↦ safe_pairs rest (put (limit k 64) value result)
]

unfoldable pub safe_metadata : List (Text × Value) → List (Text × Value)
unfolding safe_pairs safe_value
safe_metadata input = safe_pairs input []

unfoldable one_of : Text → Text → Text → Text → Text
one_of s a b default = if text_eq s a || text_eq s b then s else default

-- normalizedEntry, with the id that randomID draws.
unfoldable pub normalized_entry : (Text → Text) → Text → ℕ → Text → Input → Entry
unfolding limit safe_detail safe_metadata one_of
normalized_entry redact id now module_name i = record {
  id = id;
  module_name = limit module_name 64;
  category = limit i.category 64;
  action = limit i.action 128;
  level = one_of i.level (text "warning") (text "error") (text "info");
  outcome = if text_eq i.outcome (text "failure") then i.outcome else text "success";
  summary = limit i.summary 500;
  source = one_of i.source (text "background") (text "system") (text "user");
  method = limit i.method 16;
  path = limit i.path 500;
  http_status = i.http_status;
  duration_ms = pos_part i.duration_ms;
  request_id = limit i.request_id 128;
  detail = safe_detail redact i.detail;
  metadata = safe_metadata i.metadata;
  created_at = now;
}

abbrev pub page_of : ℤ → ℕ
page_of p = if above p 0 then pos_part p else 1

abbrev pub size_of : ℤ → ℕ
size_of (negsuc n) = 10
size_of (pos n) = if n == 10 || n == 20 || n == 50 || n == 100 then n else 10

unfoldable pub normalized_query : Query → Query
unfolding limit
normalized_query q = record {
  page = pos (page_of q.page);
  page_size = pos (size_of q.page_size);
  search = limit (trim_space q.search) 200;
  level = trim_space q.level;
  category = trim_space q.category;
  source = trim_space q.source;
  start_time = q.start_time;
  end_time = q.end_time;
}
