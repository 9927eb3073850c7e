-- ===== src/ShareLinks/Clearing.antt =====
-- modules/mail/backend/share_links.go: ClearInactive removes only what opens nothing.
use running_tools.Prelude.{
  ℕ, ◌≤◌, ◌≡◌, refl, true, false, not, ◌&&◌, none, List, [], ◌∷◌, arith, keep, some_of, All,
}
use running_tools.Prelude.Text.{Text, text_eq, text_eq→eq, trim_space}
use running_tools.Prelude.Clock.{Env}
use running_tools.ShareLinks.Types.{ShareLink, ShareSession, Store}
use running_tools.ShareLinks.Store.{
  load, find_link, live, opens, of_session, session_live, removed_ids, clear_inactive,
}
use running_tools.ShareLinks.Access.{resolve, resolve_sessions, resolve_session}
use running_tools.ShareLinks.Search.{find_link-keep}

live-earlier :
    (now later : ℕ) (l : ShareLink) → now ≤ later → live later l ≡ true → live now l ≡ true
unfolding live
live-earlier now later l h k = ground arith

-- No live link has the id of a link that is removed. The program draws the ids at random.
unfoldable pub Separate : ℕ → List ShareLink → Type 0
Separate now ls = All (λ l. (live now l && some_of (text_eq l.id) (removed_ids now ls)) ≡ false) ls

-- A session whose link is removed finds no link.
no-link :
    (now later : ℕ) (x : ShareSession) (gone : List Text) (ls : List ShareLink)
    → now ≤ later
    → All (λ l. (live now l && some_of (text_eq l.id) gone) ≡ false) ls
    → some_of (text_eq x.link_id) gone ≡ true
    → find_link (of_session later x) ls ≡ none
unfolding find_link
no-link now later x gone [] h a g = refl
no-link now later x gone (l ∷ ls) h (a, b) g = ground (
  arith,
  no-link now later x gone ls h b g,
  live-earlier now later l h,
  text_eq→eq l.id x.link_id,
)

module _ (hash : Text → Text) where
  find-keep :
      (now later : ℕ) (x : ShareSession) (ls : List ShareLink)
      → now ≤ later
      → find_link (of_session later x) (keep (live now) ls) ≡ find_link (of_session later x) ls
  find-keep now later x ls h =
      find_link-keep (of_session later x) (live now) ls
        (λ l k. live-earlier now later l h (ground arith))

  -- ClearInactive changes the answer to no token, then or later, written or not.
  pub clear_inactive-resolve :
      (e e' : Env) (token : Text) (s : Store)
      → e.now ≤ e'.now
      → (resolve hash e' token (clear_inactive e s).0).1 ≡ (resolve hash e' token s).1
  unfolding clear_inactive resolve opens
  clear_inactive-resolve e e' token s h =
      let d = hash (trim_space token) in
      ground (
        arith,
        find_link-keep (opens e'.now d) (live e.now) (load s).links
            (λ l k. live-earlier e.now e'.now l h (ground arith)),
      )

  sessions-keep :
      (now later : ℕ) (digest : Text) (gone : List Text) (ls : List ShareLink)
      (xs : List ShareSession)
      → now ≤ later
      → All (λ l. (live now l && some_of (text_eq l.id) gone) ≡ false) ls
      → resolve_sessions hash later digest
          (keep (live now) ls)
          (keep (λ x. session_live now x && not (some_of (text_eq x.link_id) gone)) xs)
        ≡ resolve_sessions hash later digest ls xs
  unfolding resolve_sessions
  sessions-keep now later digest gone ls [] h a = refl
  sessions-keep now later digest gone ls (x ∷ xs) h a = ground (
    arith,
    sessions-keep now later digest gone ls xs h a,
    find-keep now later x ls h,
    no-link now later x gone ls h a,
  )

  -- Nor to any session, where no live link has the id of a removed one.
  pub clear_inactive-session :
      (e : Env) (now : ℕ) (token : Text) (s : Store)
      → e.now ≤ now
      → Separate e.now (load s).links
      → resolve_session hash now token (clear_inactive e s).0 ≡ resolve_session hash now token s
  unfolding clear_inactive resolve_session Separate
  clear_inactive-session e now token s h a = ground (
    arith,
    sessions-keep e.now now (hash token) (removed_ids e.now (load s).links) (load s).links
        (load s).sessions h a,
  )
