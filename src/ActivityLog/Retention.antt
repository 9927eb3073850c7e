-- ===== src/ActivityLog/Retention.antt =====
-- internal/platform/activitylog/store.go: what the JSON file keeps.
use running_tools.Prelude.{
  ℕ, zero, suc, ◌-◌, true, some, List, [], ◌∷◌, ◌++◌, reverse, arith, ◌≡◌, refl, keep, take, drop,
  length, ◌∙◌, ap,
}
use running_tools.Prelude.Sort.{keep-reverse, reverse-take}
use running_tools.ActivityLog.Types.{Entry, holding, Store, LogEnv}
use running_tools.ActivityLog.Store.{read, maximum_entries, recent, collect, append_json}

collect-keep :
    (now room : ℕ) (es : List Entry) → collect now room es ≡ take room (keep (recent now) es)
unfolding collect
collect-keep now zero es = refl
collect-keep now (suc room) [] = refl
collect-keep now (suc room) (e ∷ es) =
    ground (arith, collect-keep now room es, collect-keep now (suc room) es)

-- After an entry is appended with no error, the JSON file holds the last 10000 of the entries that
-- it held and the new one, less those older than 30 days, in their order.
pub append_json-newest :
    (env : LogEnv) (e : Entry) (s : Store) (es : List Entry)
    → read s.file ≡ some es
    → env.saved ≡ true
    → (append_json env e s).0.file
      ≡ holding (
          drop
            (length (keep (recent env.now) (es ++ (e ∷ []))) - maximum_entries)
            (keep (recent env.now) (es ++ (e ∷ []))))
unfolding append_json
append_json-newest env e s es h k =
    let all = es ++ (e ∷ []) in
    let kept = keep (recent env.now) all in
    let newest : reverse (collect env.now maximum_entries (reverse all))
        ≡ drop (length kept - maximum_entries) kept =
      ap reverse (
        collect-keep env.now maximum_entries (reverse all)
        ∙ ap (take maximum_entries) (keep-reverse (recent env.now) all))
      ∙ reverse-take maximum_entries kept in
    rw (append_json, h, k) (ap holding newest)
