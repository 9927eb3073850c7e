-- ===== src/ActivityLog/Import.antt =====
-- internal/platform/activitylog/store.go: NewForAccount with PostgreSQL, which brings the entries of the
-- JSON file into the table.
use running_tools.Prelude.{
  ℕ, suc, ◌+◌, Bool, true, false, not, ◌&&◌, ◌||◌, List, [], ◌∷◌, ◌++◌, map, arith, ◌≡◌, refl, ltb,
  length, if◌then◌else◌, ◌∙◌,
}
use mathlib.Core.List.{append-nil, append_assoc, map-append}
use running_tools.Prelude.Text.{Text, text, text_eq}
use running_tools.ActivityLog.Types.{Entry, broken, missing, holding, LogRow, Store, LogEnv}
use running_tools.ActivityLog.Entries.{safe_detail, safe_metadata}
use running_tools.ActivityLog.Agreement.{stored}

-- A call whose statements run up to the number `n`, and one whose statements all run.
abbrev pub broken_off : ℕ → LogEnv → LogEnv
broken_off n env = record env { ran = λ j. ltb j n }

abbrev pub complete : LogEnv → LogEnv
complete env = record env { ran = λ _. true }

module _ (redact : Text → Text) where
  -- An entry of the file as it is inserted for a module.
  unfoldable pub imported_entry : Text → Entry → Entry
  imported_entry module_name e = record e {
    module_name = module_name;
    detail = safe_detail redact e.detail;
    metadata = safe_metadata e.metadata;
  }

  abbrev new_row : Entry → Store → LogRow
  new_row e s = record {
    row_id = s.next_id;
    account_id = s.account_id;
    entry = imported_entry s.module_name e;
  }

  abbrev with_row : Entry → Store → Store
  with_row e s = record s { rows = s.rows ++ (new_row e s ∷ []); next_id = suc s.next_id }

  -- The loop over the entries, from statement `i` on, which stops where one is not inserted. The
  -- Boolean tells whether it came to the end.
  unfoldable import_entries : (ℕ → Bool) → ℕ → List Entry → Store → Store × Bool
  import_entries ran i [] s = (s, true)
  import_entries ran i (e ∷ es) s = elim (ran i) [
    | true ↦ import_entries ran (suc i) es (with_row e s)
    | false ↦ (s, false)
  ]

  -- importLegacyJSON with its marker. Statement 0 asks for the marker and statement 1 writes it.
  unfoldable pub import_legacy_json : LogEnv → Bool → Store → Bool × Store
  unfolding import_entries
  import_legacy_json env imported s =
      if not s.connected || not (text_eq s.account_id (text "default"))
      then (imported, s)
      else if not (env.ran 0) || imported
      then (imported, s)
      else elim s.file [
        | missing ↦ (imported, s)
        | broken ↦ (imported, s)
        | holding es ↦
            let r = import_entries env.ran 2 es s in
            if r.1 && env.ran 1 then (true, r.0) else (imported, r.0)
      ]

  import_entries-all :
      (i : ℕ) (es : List Entry) (s : Store)
      → (map stored (import_entries (λ _. true) i es s).0.rows
          ≡ map stored s.rows ++ map (imported_entry s.module_name) es)
        × ((import_entries (λ _. true) i es s).1 ≡ true)
  unfolding import_entries
  import_entries-all i [] s = ground (arith, append-nil (map stored s.rows))
  import_entries-all i (e ∷ es) s = ground (
    arith,
    import_entries-all (suc i) es (with_row e s),
    map-append stored s.rows (new_row e s ∷ []),
    append_assoc (map stored s.rows) (imported_entry s.module_name e ∷ [])
        (map (imported_entry s.module_name) es),
  )

  import_entries-part :
      (i n : ℕ) (xs ys : List Entry) (y : Entry) (s : Store)
      → i + length xs ≡ n
      → (map stored (import_entries (λ j. ltb j n) i (xs ++ (y ∷ ys)) s).0.rows
          ≡ map stored s.rows ++ map (imported_entry s.module_name) xs)
        × ((import_entries (λ j. ltb j n) i (xs ++ (y ∷ ys)) s).1 ≡ false)
  unfolding import_entries
  import_entries-part i n [] ys y s h = ground (arith, append-nil (map stored s.rows))
  import_entries-part i n (e ∷ xs) ys y s h = ground (
    arith,
    import_entries-part (suc i) n xs ys y (with_row e s),
    map-append stored s.rows (new_row e s ∷ []),
    append_assoc (map stored s.rows) (imported_entry s.module_name e ∷ [])
        (map (imported_entry s.module_name) xs),
  )

  import_entries-store :
      (ran : ℕ → Bool) (i : ℕ) (es : List Entry) (s : Store)
      → ((import_entries ran i es s).0.file ≡ s.file)
        × ((import_entries ran i es s).0.module_name ≡ s.module_name)
        × ((import_entries ran i es s).0.account_id ≡ s.account_id)
        × ((import_entries ran i es s).0.connected ≡ s.connected)
  unfolding import_entries
  import_entries-store ran i [] s = (refl, refl, refl, refl)
  import_entries-store ran i (e ∷ es) s =
      ground (arith, import_entries-store ran (suc i) es (with_row e s))

  part-import :
      (env : LogEnv) (s : Store) (xs ys : List Entry) (y : Entry)
      → s.connected ≡ true
      → text_eq s.account_id (text "default") ≡ true
      → s.file ≡ holding (xs ++ (y ∷ ys))
      → import_legacy_json (broken_off (2 + length xs) env) false s
        ≡ (false, (import_entries (λ j. ltb j (2 + length xs)) 2 (xs ++ (y ∷ ys)) s).0)
  unfolding import_legacy_json
  part-import env s xs ys y c a h =
      ground (arith, import_entries-part 2 (2 + length xs) xs ys y s refl)

  whole-import :
      (env : LogEnv) (s : Store) (es : List Entry)
      → s.connected ≡ true
      → text_eq s.account_id (text "default") ≡ true
      → s.file ≡ holding es
      → import_legacy_json (complete env) false s ≡ (true, (import_entries (λ _. true) 2 es s).0)
  unfolding import_legacy_json
  whole-import env s es c a h = ground (arith, import_entries-all 2 es s)

  -- The import has no transaction: where it breaks off at the insertion of an entry, the entries
  -- before it stay in the table with no marker, and the next import, which runs to its end, inserts
  -- them a second time.
  pub import_legacy_json-again :
      (env env' : LogEnv) (s : Store) (xs ys : List Entry) (y : Entry)
      → s.connected ≡ true
      → text_eq s.account_id (text "default") ≡ true
      → s.file ≡ holding (xs ++ (y ∷ ys))
      → map stored
          (import_legacy_json
            (complete env')
            (import_legacy_json (broken_off (2 + length xs) env) false s).0
            (import_legacy_json (broken_off (2 + length xs) env) false s).1).1.rows
        ≡ map stored s.rows
          ++ map (imported_entry s.module_name) xs
          ++ map (imported_entry s.module_name) (xs ++ (y ∷ ys))
  import_legacy_json-again env env' s xs ys y c a h =
      let all = xs ++ (y ∷ ys) in
      let half = (import_entries (λ j. ltb j (2 + length xs)) 2 all s).0 in
      let kept = import_entries-store (λ j. ltb j (2 + length xs)) 2 all s in
      rw (part-import env s xs ys y c a h) (
        rw (whole-import env' half all (kept.3 ∙ c) (rw kept.2 a) (kept.0 ∙ h)) (
          ground (
            arith,
            import_entries-all 2 all half,
            import_entries-part 2 (2 + length xs) xs ys y s refl,
            kept,
          )))
