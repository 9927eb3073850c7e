-- ===== src/ShareLinks/Import.antt =====
-- modules/mail/backend/share_links.go: NewShareLinkStoreWithPersistence, which brings the JSON state
-- of an account into the tables.
use running_tools.Prelude.{
  ℕ, suc, Bool, true, false, not, ◌&&◌, Option, none, some, List, [], ◌∷◌, ◌++◌, arith, ◌≡◌,
  if◌then◌else◌, is_empty, some_of, Option-cases, inl, inr,
}
use mathlib.Core.List.{append-nil, append_assoc}
use running_tools.Prelude.Text.{Text, text, text_eq, text_eq_refl, trim_space}
use running_tools.ShareLinks.Types.{
  ShareLink, ShareSession, ShareState, File, unreadable, saved_state, legacy_links,
}
use running_tools.ShareLinks.Store.{load}
use running_tools.ShareLinks.Database.{
  LinkRow, SessionRow, Tables, DbCall, clash, session_clash, row_of, session_row, own, own_sessions,
}
use running_tools.ShareLinks.Views.{view, own-append, own_sessions-append}

-- What os.ReadFile finds at the path of the account.
pub data Disk : Type 0 where
  missing : Disk
  failing : Disk
  holding : File → Disk

-- The rows of running_state that the import reads, its marker and the value at the path, and the
-- file.
pub record Legacy : Type 0 where
  pub imported : Bool
  pub stored : Option File
  pub disk : Disk

unfoldable store_account : Text → Text
store_account id = if is_empty (trim_space id) then text "default" else trim_space id

abbrev pub parse : File → Option ShareState
parse unreadable = none
parse (saved_state st) = some st
parse (legacy_links ls) = some (record { links = ls; sessions = [] })

-- The state to import, none where reading it is an error.
unfoldable pub legacy_state : Legacy → Option ShareState
legacy_state old = elim old.stored [
  | some f ↦ parse f
  | none ↦ elim old.disk [
    | missing ↦ some (record { links = []; sessions = [] })
    | failing ↦ none
    | holding f ↦ parse f
  ]
]

module _ (acc : Text) (ran : ℕ → Bool) where
  -- INSERT ... ON CONFLICT DO NOTHING, from statement `i` on, and the number of the next one.
  unfoldable import_links : ℕ → List ShareLink → List LinkRow → Option (ℕ × List LinkRow)
  import_links i [] rows = some (i, rows)
  import_links i (l ∷ ls) rows = elim (ran i) [
    | false ↦ none
    | true ↦
        import_links (suc i) ls
          (if some_of (clash l) rows then rows else rows ++ (row_of acc l ∷ []))
  ]

  -- A session with no link breaks the foreign key.
  unfoldable import_sessions :
      ℕ → List LinkRow → List ShareSession → List SessionRow → Option (List SessionRow)
  import_sessions i ls [] rows = some rows
  import_sessions i ls (x ∷ xs) rows = elim (ran i) [
    | false ↦ none
    | true ↦ elim (some_of (session_clash x) rows) [
      | true ↦ import_sessions (suc i) ls xs rows
      | false ↦ elim (some_of (λ r. text_eq r.link.id x.link_id) ls) [
        | true ↦ import_sessions (suc i) ls xs (rows ++ (session_row acc x ∷ []))
        | false ↦ none
      ]
    ]
  ]

  unfoldable import_rows : ShareState → Tables → Option Tables
  unfolding import_links import_sessions
  import_rows st t = elim (import_links 6 st.links t.links) [
    | none ↦ none
    | some r ↦ elim (import_sessions r.0 r.1 st.sessions t.sessions) [
      | none ↦ none
      | some xs ↦ some (record { links = r.1; sessions = xs })
    ]
  ]

-- importLegacy, with whether it returns nil. Statements 0 and 1 are the queries, 2 is BEGIN, 3 the
-- marker, 4 the DELETE of the old row and 5 the COMMIT.
unfoldable pub import_legacy : Text → DbCall → Legacy → Tables → (Legacy × Tables) × Bool
unfolding legacy_state import_rows
import_legacy acc c old t =
    if not (c.ran 0)
    then ((old, t), false)
    else if old.imported
    then ((old, t), true)
    else if not (c.ran 1)
    then ((old, t), false)
    else elim (legacy_state old) [
      | none ↦ ((old, t), false)
      | some st ↦ if not (c.ran 2) then ((old, t), false) else elim (import_rows acc c.ran st t) [
        | none ↦ ((old, t), false)
        | some t' ↦
            if c.ran 3 && c.ran 4 && c.ran 5
            then ((record old { imported = true; stored = none }, t'), true)
            else ((old, t), false)
      ]
    ]

-- None of the links is in the table, or twice among them.
unfoldable pub new_links : Text → List ShareLink → List LinkRow → Bool
new_links acc [] rows = true
new_links acc (l ∷ ls) rows =
    let rest = new_links acc ls (rows ++ (row_of acc l ∷ [])) in
    not (some_of (clash l) rows) && rest

unfoldable pub new_sessions : Text → List ShareSession → List SessionRow → Bool
new_sessions acc [] rows = true
new_sessions acc (x ∷ xs) rows =
    let rest = new_sessions acc xs (rows ++ (session_row acc x ∷ [])) in
    not (some_of (session_clash x) rows) && rest

module _ (acc : Text) (ran : ℕ → Bool) where
  import_links-own :
      (i j : ℕ) (ls : List ShareLink) (rs rows : List LinkRow)
      → new_links acc ls rs ≡ true
      → import_links acc ran i ls rs ≡ some (j, rows)
      → own acc rows ≡ own acc rs ++ ls
  unfolding import_links new_links
  import_links-own i j [] rs rows n h = ground (arith, append-nil (own acc rs))
  import_links-own i j (l ∷ ls) rs rows n h = ground (
    arith,
    import_links-own (suc i) j ls (rs ++ (row_of acc l ∷ [])) rows,
    own-append acc rs (row_of acc l ∷ []),
    append_assoc (own acc rs) (l ∷ []) ls,
    text_eq_refl acc,
  )

  import_sessions-own :
      (i : ℕ) (ls : List LinkRow) (xs : List ShareSession) (rs rows : List SessionRow)
      → new_sessions acc xs rs ≡ true
      → import_sessions acc ran i ls xs rs ≡ some rows
      → own_sessions acc rows ≡ own_sessions acc rs ++ xs
  unfolding import_sessions new_sessions
  import_sessions-own i ls [] rs rows n h = ground (arith, append-nil (own_sessions acc rs))
  import_sessions-own i ls (x ∷ xs) rs rows n h = ground (
    arith,
    import_sessions-own (suc i) ls xs (rs ++ (session_row acc x ∷ [])) rows,
    own_sessions-append acc rs (session_row acc x ∷ []),
    append_assoc (own_sessions acc rs) (x ∷ []) xs,
    text_eq_refl acc,
  )

  import_rows-view :
      (st : ShareState) (t t' : Tables)
      → new_links acc st.links t.links ≡ true
      → new_sessions acc st.sessions t.sessions ≡ true
      → import_rows acc ran st t ≡ some t'
      → (own acc t'.links ≡ own acc t.links ++ st.links)
        × (own_sessions acc t'.sessions ≡ own_sessions acc t.sessions ++ st.sessions)
  unfolding import_rows
  import_rows-view st t t' n m h = elim (Option-cases (import_links acc ran 6 st.links t.links)) [
    | inl e ↦ ground arith
    | inr ((j, rows), e) ↦
        elim (Option-cases (import_sessions acc ran j rows st.sessions t.sessions)) [
          | inl f ↦ ground arith
          | inr (xs, f) ↦ ground (
            arith,
            import_links-own 6 j st.links t.links rows n e,
            import_sessions-own j rows st.sessions t.sessions xs m f,
          )
        ]
  ]

-- An import that returns nil gives the account, where the tables hold nothing of it and the keys
-- of the state are new, the rows that the JSON file holds: the tables then show what `load` shows.
pub import_legacy-view :
    (acc : Text) (c : DbCall) (old : Legacy) (t : Tables) (st : ShareState)
    → old.imported ≡ false
    → legacy_state old ≡ some st
    → view acc t ≡ record { links = []; sessions = [] }
    → new_links acc st.links t.links ≡ true
    → new_sessions acc st.sessions t.sessions ≡ true
    → (import_legacy acc c old t).1 ≡ true
    → view acc (import_legacy acc c old t).0.1 ≡ load (record { file = saved_state st })
unfolding import_legacy
import_legacy-view acc c old t st i l v n m h = elim (Option-cases (import_rows acc c.ran st t)) [
  | inl e ↦ ground arith
  | inr (t', e) ↦ ground (arith, import_rows-view acc c.ran st t t' n m e)
]

import_legacy-marks :
    (acc : Text) (c : DbCall) (old : Legacy) (t : Tables)
    → (import_legacy acc c old t).1 ≡ true
    → (import_legacy acc c old t).0.0.imported ≡ true
unfolding import_legacy
import_legacy-marks acc c old t h = elim (Option-cases (legacy_state old)) [
  | inl e ↦ ground arith
  | inr (st, e) ↦ elim (Option-cases (import_rows acc c.ran st t)) [
    | inl f ↦ ground arith
    | inr (t', f) ↦ ground arith
  ]
]

import_legacy-marked :
    (acc : Text) (c : DbCall) (old : Legacy) (t : Tables)
    → old.imported ≡ true
    → (import_legacy acc c old t).0.1 ≡ t
unfolding import_legacy
import_legacy-marked acc c old t h = ground arith

-- After an import that returns nil, another one, whatever file it would find and whichever of its
-- statements fail, leaves the tables.
import_legacy-again :
    (acc : Text) (c c' : DbCall) (old : Legacy) (t : Tables) (disk : Disk)
    → (import_legacy acc c old t).1 ≡ true
    → (import_legacy acc c'
        (record (import_legacy acc c old t).0.0 { disk = disk })
        (import_legacy acc c old t).0.1).0.1
      ≡ (import_legacy acc c old t).0.1
import_legacy-again acc c c' old t disk h =
    import_legacy-marked acc c' (record (import_legacy acc c old t).0.0 { disk = disk })
      (import_legacy acc c old t).0.1 (import_legacy-marks acc c old t h)
