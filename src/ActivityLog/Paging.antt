-- ===== src/ActivityLog/Paging.antt =====
-- internal/platform/activitylog/store.go: the pages of a query.
use running_tools.Prelude.{
  ℕ, zero, suc, ◌+◌, ◌-◌, ◌*◌, ◌≤◌, List, [], ◌∷◌, ◌++◌, arith, ◌≡◌, refl, take, drop, length, ◌∙◌,
  ap,
}
use running_tools.Prelude.Int.{pos, pos_part}
use running_tools.ActivityLog.Types.{Entry, Query, LogEnv}
use running_tools.ActivityLog.Pages.{lesser, slice, matching, query_entries}

module _ {A : Type 0} where
  drop_all : (n : ℕ) (xs : List A) → length xs ≤ n → drop n xs ≡ []
  drop_all zero [] h = refl
  drop_all zero (x ∷ xs) h = ground arith
  drop_all (suc n) [] h = refl
  drop_all (suc n) (x ∷ xs) h = ground (arith, drop_all n xs)

  take_rest : (n : ℕ) (xs : List A) → length xs ≤ n → take n xs ≡ take (length xs) xs
  take_rest zero [] h = refl
  take_rest zero (x ∷ xs) h = ground arith
  take_rest (suc n) [] h = refl
  take_rest (suc n) (x ∷ xs) h = ground (arith, take_rest n xs)

  length-drop : (n : ℕ) (xs : List A) → length (drop n xs) ≡ length xs - n
  length-drop zero xs = omega arith
  length-drop (suc n) [] = omega arith
  length-drop (suc n) (x ∷ xs) = omega (arith, length-drop n xs)

  take_nil : (n : ℕ) (xs : List A) → xs ≡ [] → take n xs ≡ []
  take_nil zero xs h = refl
  take_nil (suc n) [] h = refl
  take_nil (suc n) (x ∷ xs) h = ground arith

  drop-suc : (k m : ℕ) (x : A) (xs : List A) → k ≡ suc m → drop k (x ∷ xs) ≡ drop m xs
  drop-suc k m x xs h = rw h refl

  take-suc : (k n : ℕ) (x : A) (xs : List A) → k ≡ suc n → take k (x ∷ xs) ≡ x ∷ take n xs
  take-suc k n x xs h = rw h refl

  -- The next page comes after those before it.
  take-more : (m n : ℕ) (xs : List A) → take m xs ++ take n (drop m xs) ≡ take (m + n) xs
  take-more zero n xs = ground arith
  take-more (suc m) n [] = ground (arith, take_nil n [] refl, take_nil (suc m + n) [] refl)
  take-more (suc m) n (x ∷ xs) =
      ground (arith, take-more m n xs, take-suc (suc m + n) (m + n) x xs (omega arith))

abbrev window : ℕ → ℕ → List Entry → List Entry
window start size es =
    take (lesser (lesser start (length es) + size) (length es) - lesser start (length es))
      (drop (lesser start (length es)) es)

window_lem : (start size : ℕ) (es : List Entry) → window start size es ≡ take size (drop start es)
window_lem zero size es = ground (arith, take_rest size es)
window_lem (suc start) size [] =
    let nothing : List Entry = [] in
    ground (arith, drop_all (lesser (suc start) 0) nothing, take_nil size nothing refl)
window_lem (suc start) size (e ∷ es) =
    let a = lesser start (length es) in
    ground (arith, window_lem start size es, drop-suc (lesser (suc start) (suc (length es))) a e es)

-- The two bounds of queryEntries cut the page that LIMIT and OFFSET cut.
pub slice_lem :
    (page size : ℕ) (es : List Entry) → slice page size es ≡ take size (drop ((page - 1) * size) es)
unfolding slice
slice_lem page size es = window_lem ((page - 1) * size) size es

pred_suc : (k : ℕ) → suc k - 1 ≡ k
pred_suc k = omega arith

-- The items of the pages 1 to `k` of a query, one after the other.
unfoldable pub pages_upto : LogEnv → List Entry → Query → ℕ → List Entry
pages_upto env es q zero = []
pages_upto env es q (suc k) =
    pages_upto env es q k ++ (query_entries env es (record q { page = pos (suc k) })).items

-- The pages of a query of the JSON file, put together, are the entries that match, newest first, in
-- their order and each once: up to page `k` they are as many of them as `k` pages hold.
pub pages_upto-take :
    (env : LogEnv) (es : List Entry) (q : Query) (k : ℕ)
    → pages_upto env es q k ≡ take (k * pos_part q.page_size) (matching q es)
unfolding pages_upto query_entries matching
pages_upto-take env es q zero = ground arith
pages_upto-take env es q (suc k) =
    let size = pos_part q.page_size in
    let all = matching q es in
    ap (λ (xs : List Entry). xs ++ slice (suc k) size all) (pages_upto-take env es q k)
    ∙ ap (λ (xs : List Entry). take (k * size) all ++ xs) (slice_lem (suc k) size all)
    ∙ ap (λ (n : ℕ). take (k * size) all ++ take size (drop (n * size) all)) (pred_suc k)
    ∙ take-more (k * size) size all
    ∙ ap (λ (n : ℕ). take n all) (omega arith)
