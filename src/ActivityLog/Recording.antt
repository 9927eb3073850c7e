-- ===== src/ActivityLog/Recording.antt =====
-- internal/platform/activitylog/store.go: a recorded entry is read back.
use running_tools.Prelude.{
  ℕ, zero, suc, ◌-◌, ◌*◌, ◌≤◌, ◌<◌, true, ◌&&◌, some, List, [], ◌∷◌, ◌++◌, arith, ◌≡◌, refl, keep,
  take, drop, length, length-append, ◌∙◌, ap, ok,
}
use running_tools.Prelude.Int.{ℤ, pos, negsuc}
use running_tools.Prelude.Sort.{
  sort_by, ahead_all, sort_by-latest, ahead_all-keep, ahead_all-drop, drop-append, keep-append,
}
use running_tools.Prelude.Text.{Text}
use running_tools.ActivityLog.Types.{Entry, Query, Page, json, holding, Store, LogEnv}
use running_tools.ActivityLog.Entries.{normalized_query, size_of, page_of}
use running_tools.ActivityLog.Pages.{matching, query_entries, later, picked, found}
use running_tools.ActivityLog.Store.{
  read, maximum_entries, recent, append_json, record_entry, query,
}
use running_tools.ActivityLog.Retention.{append_json-newest}
use running_tools.ActivityLog.Paging.{slice_lem}

module _ (env : LogEnv) (e : Entry) (es : List Entry) (fresh : recent env.now e ≡ true) where
  -- The entries before the new one that stay in the file.
  older : List Entry
  older =
      drop (length (keep (recent env.now) (es ++ (e ∷ []))) - maximum_entries)
        (keep (recent env.now) es)

  kept-last : keep (recent env.now) (es ++ (e ∷ [])) ≡ keep (recent env.now) es ++ (e ∷ [])
  kept-last = keep-append (recent env.now) es (e ∷ []) ∙ rw fresh refl

  room-left :
      length (keep (recent env.now) (es ++ (e ∷ []))) - maximum_entries
      ≤ length (keep (recent env.now) es)
  room-left = omega (arith, ap length kept-last, length-append (keep (recent env.now) es) (e ∷ []))

  newest-older :
      drop
        (length (keep (recent env.now) (es ++ (e ∷ []))) - maximum_entries)
        (keep (recent env.now) (es ++ (e ∷ [])))
      ≡ older ++ (e ∷ [])
  unfolding older
  newest-older =
      let k = length (keep (recent env.now) (es ++ (e ∷ []))) - maximum_entries in
      ap (drop k) kept-last ∙ drop-append k (keep (recent env.now) es) (e ∷ []) room-left

  matching-older :
      (q : Query)
      → ahead_all later e es ≡ true
      → (found q e && picked q e) ≡ true
      → matching q (older ++ (e ∷ []))
        ≡ e ∷ sort_by later (keep (λ x. found q x && picked q x) older)
  unfolding matching older
  matching-older q h k =
      let test = (λ (x : Entry). found q x && picked q x) in
      let below = ahead_all-keep later test e older (
        ahead_all-drop later (length (keep (recent env.now) (es ++ (e ∷ []))) - maximum_entries) e
          (keep (recent env.now) es) (ahead_all-keep later (recent env.now) e es h)) in
      ap (sort_by later) (keep-append test older (e ∷ []) ∙ rw k refl)
      ∙ sort_by-latest later e (keep test older) below

size-positive : (v : ℤ) → 0 < size_of v
size-positive (pos n) = ground arith
size-positive (negsuc n) = ground arith

take-first : {A : Type 0} (n : ℕ) (x : A) (xs : List A) → 0 < n → take 1 (take n (x ∷ xs)) ≡ x ∷ []
take-first zero x xs h = ground arith
take-first (suc n) x xs h = refl

recorded :
    (env : LogEnv) (e : Entry) (s : Store) (es : List Entry)
    → s.mode ≡ json
    → read s.file ≡ some es
    → env.saved ≡ true
    → (f : recent env.now e ≡ true)
    → ((record_entry env e s).0.mode ≡ json)
      × ((record_entry env e s).0.file ≡ holding (older env e es f ++ (e ∷ [])))
unfolding record_entry append_json
recorded env e s es j h v f =
    ground (arith, append_json-newest env e s es h v, newest-older env e es f)

query-json :
    (itoa : ℕ → Text) (env : LogEnv) (q : Query) (s : Store) (es : List Entry)
    → s.mode ≡ json
    → s.file ≡ holding es
    → query itoa env q s ≡ ok (query_entries env es (normalized_query q))
unfolding query read
query-json itoa env q s es j h = ground arith

first_offset : (size : ℕ) → (1 - 1) * size ≡ 0
first_offset size = omega arith

-- The first item of the first page is the first match.
first-item :
    (env : LogEnv) (q : Query) (es rest : List Entry) (e : Entry)
    → page_of q.page ≡ 1
    → matching (normalized_query q) es ≡ e ∷ rest
    → take 1 (query_entries env es (normalized_query q)).items ≡ e ∷ []
unfolding query_entries normalized_query
first-item env q es rest e one h =
    let size = size_of q.page_size in
    ap (take 1) (
      slice_lem (page_of q.page) size (matching (normalized_query q) es)
      ∙ ap (λ (n : ℕ). take size (drop ((n - 1) * size) (matching (normalized_query q) es))) one
      ∙ ap (λ (n : ℕ). take size (drop n (matching (normalized_query q) es))) (first_offset size)
      ∙ ap (take size) h)
    ∙ take-first size e rest (size-positive q.page_size)

-- An entry that Record has written to the JSON file stands first on the first page of every query
-- whose filters it passes, whenever that query is made: it is not older than 30 days when it is
-- written, and later than all entries of the file.
pub query-record_entry :
    (itoa : ℕ → Text) (env env' : LogEnv) (e : Entry) (s : Store) (es : List Entry) (q : Query)
    → s.mode ≡ json
    → read s.file ≡ some es
    → env.saved ≡ true
    → recent env.now e ≡ true
    → ahead_all later e es ≡ true
    → (found (normalized_query q) e && picked (normalized_query q) e) ≡ true
    → page_of q.page ≡ 1
    → (p : Page) × (query itoa env' q (record_entry env e s).0 ≡ ok p) × (take 1 p.items ≡ e ∷ [])
query-record_entry itoa env env' e s es q j h v f a k one =
    let new = older env e es f ++ (e ∷ []) in
    let r = recorded env e s es j h v f in
    (
      query_entries env' new (normalized_query q),
      query-json itoa env' q (record_entry env e s).0 new r.0 r.1,
      first-item env' q new
          (sort_by later (
            keep (λ x. found (normalized_query q) x && picked (normalized_query q) x)
              (older env e es f)))
          e one (matching-older env e es f (normalized_query q) a k),
    )
