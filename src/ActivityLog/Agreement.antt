-- ===== src/ActivityLog/Agreement.antt =====
-- internal/platform/activitylog/store.go: one query, answered from the JSON file and from the table.
use running_tools.Prelude.{
  ℕ, ◌-◌, ◌*◌, Bool, true, ◌&&◌, List, [], ◌∷◌, reverse, map, arith, ◌≡◌, refl, keep, take, drop,
  length, ◌∙◌, ap, sym, is_empty, ok, ltb, not,
}
use running_tools.Prelude.Int.{pos_part}
use running_tools.Prelude.Sort.{
  sort_by, backwards, all_ahead, sort_by-reverse, map-reverse, map-take, map-drop, length-map,
}
use running_tools.Prelude.Text.{Text, text, text_eq, to_lower}
use running_tools.ActivityLog.Types.{Entry, Query, Page, LogRow, Store, LogEnv}
use running_tools.ActivityLog.Pages.{
  day, matching, query_entries, later, later_row, picked, found, db_found, is_own, entry_of,
  matching_rows, query_postgres, stats_of, count,
}
use running_tools.ActivityLog.Paging.{slice_lem}

-- The entry of a row, as it was inserted.
abbrev pub stored : LogRow → Entry
stored r = r.entry

-- An entry without its id, which the table replaces by its own.
abbrev pub bare : Entry → Entry
bare e = record e { id = [] }

backwards-keep :
    (p : Entry → Bool) (es : List Entry)
    → backwards later es ≡ true
    → backwards later (keep p es) ≡ true
backwards-keep p [] h = refl
backwards-keep p (e ∷ es) h = ground (arith, backwards-keep p es, ahead-keep e es)
  where
    ahead-keep :
        (e : Entry) (xs : List Entry)
        → all_ahead later e xs ≡ true
        → all_ahead later e (keep p xs) ≡ true
    ahead-keep e [] h = refl
    ahead-keep e (x ∷ xs) h = ground (arith, ahead-keep e xs)

all_ahead-rows :
    (r : LogRow) (rs : List LogRow)
    → all_ahead later r.entry (map stored rs) ≡ true
    → all_ahead later_row r rs ≡ true
all_ahead-rows r [] h = refl
all_ahead-rows r (x ∷ rs) h = ground (arith, all_ahead-rows r rs)

backwards-rows :
    (rs : List LogRow) → backwards later (map stored rs) ≡ true → backwards later_row rs ≡ true
backwards-rows [] h = refl
backwards-rows (r ∷ rs) h = ground (arith, backwards-rows rs, all_ahead-rows r rs)

keep-stored :
    (p : Entry → Bool) (rs : List LogRow)
    → map stored (keep (λ r. p r.entry) rs) ≡ keep p (map stored rs)
keep-stored p [] = refl
keep-stored p (r ∷ rs) = ground (arith, keep-stored p rs)

-- Without a search the two tests are one.
rows-found :
    (s : Store) (q : Query) (rs : List LogRow)
    → is_empty q.search ≡ true
    → keep (λ r. is_own s r && (db_found q r.entry && picked q r.entry)) rs
      ≡ keep (λ r. picked q r.entry) (keep (is_own s) rs)
unfolding db_found
rows-found s q [] h = refl
rows-found s q (r ∷ rs) h = ground (arith, rows-found s q rs h)

entries-found :
    (q : Query) (es : List Entry)
    → is_empty q.search ≡ true
    → keep (λ e. found q e && picked q e) es ≡ keep (picked q) es
unfolding found to_lower
entries-found q [] h = refl
entries-found q (e ∷ es) h = ground (arith, entries-found q es h)

module _ (itoa : ℕ → Text) (s : Store) where
  bare-entry_of :
      (rs : List LogRow) → map bare (map (entry_of itoa s) rs) ≡ map bare (map stored rs)
  bare-entry_of [] = refl
  bare-entry_of (r ∷ rs) = ground (arith, bare-entry_of rs)

  count-entry_of :
      (p : Entry → Bool) (rs : List LogRow)
      → ((r : LogRow) → p (entry_of itoa s r) ≡ p r.entry)
      → count p (map (entry_of itoa s) rs) ≡ count p (map stored rs)
  count-entry_of p [] h = refl
  count-entry_of p (r ∷ rs) h = ground (arith, count-entry_of p rs h, h r)

  stats-entry_of :
      (day_start last_day : ℕ) (rs : List LogRow)
      → stats_of day_start last_day (map (entry_of itoa s) rs)
        ≡ stats_of day_start last_day (map stored rs)
  unfolding stats_of
  stats-entry_of day_start last_day rs =
      rw
        (
          count-entry_of (λ (e : Entry). not (ltb e.created_at day_start)) rs (λ r. refl),
          count-entry_of
              (λ (e : Entry). not (ltb e.created_at last_day) && text_eq e.outcome (text "failure"))
              rs (λ r. refl),
          count-entry_of
              (λ (e : Entry).
                not (ltb e.created_at last_day) && text_eq e.source (text "background"))
              rs (λ r. refl),
        )
        refl

  module _ (q : Query) (es : List Entry) (same : map stored (keep (is_own s) s.rows) ≡ es)
      (rising : backwards later es ≡ true) (all : is_empty q.search ≡ true) where
    picked_rows : List LogRow
    picked_rows = keep (λ r. picked q r.entry) (keep (is_own s) s.rows)

    stored-picked : map stored picked_rows ≡ keep (picked q) es
    unfolding picked_rows
    stored-picked = keep-stored (picked q) (keep (is_own s) s.rows) ∙ ap (keep (picked q)) same

    rising-picked : backwards later (keep (picked q) es) ≡ true
    rising-picked = backwards-keep (picked q) es rising

    matching-stored : matching q es ≡ map stored (matching_rows itoa s q)
    unfolding matching matching_rows picked_rows
    matching-stored =
        ap (sort_by later) (entries-found q es all)
        ∙ sort_by-reverse later (keep (picked q) es) rising-picked
        ∙ ap reverse (sym stored-picked)
        ∙ sym (map-reverse stored picked_rows)
        ∙ ap (map stored) (
            sym (
              ap (sort_by later_row) (rows-found s q s.rows all)
              ∙ sort_by-reverse later_row picked_rows
                  (backwards-rows picked_rows (rw stored-picked rising-picked))))

    bare-slice :
        (n k : ℕ)
        → map bare (map (entry_of itoa s) (take n (drop k (matching_rows itoa s q))))
          ≡ map bare (take n (drop k (matching q es)))
    bare-slice n k =
        let rows = matching_rows itoa s q in
        bare-entry_of (take n (drop k rows))
        ∙ ap (map bare) (
            map-take stored n (drop k rows)
            ∙ ap (take n) (map-drop stored k rows ∙ ap (drop k) (sym matching-stored)))

  -- A query without a search gets the same page from the table as from the JSON file, but for the
  -- ids of the entries, which the table replaces by its own: the same entries in the same order,
  -- the same total and the same statistics. The rows of the module and the account are the entries
  -- of the file, each entry is later than those before it, the table is reached and its statements
  -- run.
  pub query_postgres-query_entries :
      (env : LogEnv) (q : Query) (es : List Entry)
      → map stored (keep (is_own s) s.rows) ≡ es
      → backwards later es ≡ true
      → is_empty q.search ≡ true
      → s.connected ≡ true
      → (env.ran 0 && env.ran 1 && env.ran 2 && env.ran 3 && env.ran 4) ≡ true
      → (p : Page) × (query_postgres itoa s env q ≡ ok p)
        × (map bare p.items ≡ map bare (query_entries env es q).items)
        × (p.total ≡ (query_entries env es q).total)
        × (p.stats ≡ (query_entries env es q).stats)
  unfolding query_postgres query_entries
  query_postgres-query_entries env q es h k n c v =
      let size = pos_part q.page_size in
      let m = (pos_part q.page - 1) * size in
      let rows = matching_rows itoa s q in
      (
        record {
          items = map (entry_of itoa s) (take size (drop m rows));
          total = length rows;
          page = pos_part q.page;
          page_size = size;
          stats =
              stats_of env.day_start (env.now - day)
                (map (entry_of itoa s) (keep (is_own s) s.rows));
        },
        ground (arith),
        bare-slice q es h k n size m
            ∙ ap (map bare) (sym (slice_lem (pos_part q.page) size (matching q es))),
        sym (length-map stored rows) ∙ ap length (sym (matching-stored q es h k n)),
        stats-entry_of env.day_start (env.now - day) (keep (is_own s) s.rows)
            ∙ ap (stats_of env.day_start (env.now - day)) h,
      )
