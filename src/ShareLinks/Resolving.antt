-- ===== src/ShareLinks/Resolving.antt =====
-- modules/mail/backend/share_links.go: which tokens open a link, and what they open.
use running_tools.Prelude.{
  ℕ, ◌<◌, ◌≡◌, refl, subst, true, not, ◌&&◌, Option, none, some, List, [], ◌∷◌, arith, is_empty,
  is_some, some_of, All,
}
use mathlib.Core.Option.{some-injective}
use running_tools.Prelude.Text.{Text, text_eq→eq, trim_space}
use running_tools.Prelude.Clock.{Env}
use running_tools.ShareLinks.Types.{ShareLink, ShareSession, Store}
use running_tools.ShareLinks.Store.{load, live, find_link, used, opens, of_session}
use running_tools.ShareLinks.Access.{resolve, resolve_sessions}
use running_tools.ShareLinks.Search.{find_link-some_of, find_link-All}

-- An instant before an expiry, if there is one.
abbrev pub Before : ℕ → Option ℕ → Type 0
Before now none = Unit {0}
Before now (some t) = now < t

-- A link that may be shown at a time: neither revoked nor expired then.
abbrev pub Shown : ℕ → ShareLink → Type 0
Shown now l = (l.revoked_at ≡ none) × Before now l.expires_at

live-Shown : (now : ℕ) (l : ShareLink) → live now l ≡ true → Shown now l
unfolding live
live-Shown now l h = ground arith

-- A property of the stored links that looking a link up leaves as it is.
abbrev pub Stays : (ShareLink → Type 0) → Type 0
Stays P = (now : ℕ) (l : ShareLink) → P l → P (used now l)

module _ (hash : Text → Text) where
  -- A token opens a link exactly when it is not blank and a stored link that is neither revoked nor
  -- expired has its digest.
  pub resolve-opens :
      (e : Env) (token : Text) (s : Store)
      → is_some (resolve hash e token s).1 ≡ (
          not (is_empty (trim_space token))
          && some_of (opens e.now (hash (trim_space token))) (load s).links)
  unfolding resolve
  resolve-opens e token s =
      ground (arith, find_link-some_of (opens e.now (hash (trim_space token))) (load s).links)

  opens-Shown :
      (now : ℕ) (digest : Text) (l : ShareLink)
      → opens now digest l ≡ true
      → (l.token_hash ≡ digest) × Shown now l
  unfolding opens
  opens-Shown now digest l h =
      (text_eq→eq l.token_hash digest (ground arith), live-Shown now l (ground arith))

  pub All-nothing : (ls : List ShareLink) → All (λ l. Unit {0}) ls
  All-nothing [] = tt
  All-nothing (l ∷ ls) = (tt, All-nothing ls)

  found-used :
      (P : ShareLink → Type 0) (now : ℕ) (digest : Text) (ls : List ShareLink) (l : ShareLink)
      → (o : Option ShareLink) → Stays P
      → All P ls
      → find_link (opens now digest) ls ≡ o
      → elim o [ none ↦ none | some m ↦ some (used now m) ] ≡ some l
      → ((l.token_hash ≡ digest) × Shown now l) × P l
  found-used P now digest ls l none k a f h = ground arith
  found-used P now digest ls l (some m) k a f h =
      let (o, v) = find_link-All (opens now digest) P m ls a f in
      subst (λ x. ((x.token_hash ≡ digest) × Shown now x) × P x) (some-injective (used now m) l h)
        (opens-Shown now digest m o, k now m v)

  -- What a token opens has the token's digest and is neither revoked nor expired, and what all
  -- stored links have, if being used leaves it, the link has too.
  pub resolve-found :
      (P : ShareLink → Type 0) (e : Env) (token : Text) (s : Store) (l : ShareLink)
      → Stays P
      → All P (load s).links
      → (resolve hash e token s).1 ≡ some l
      → ((l.token_hash ≡ hash (trim_space token)) × Shown e.now l) × P l
  unfolding resolve
  resolve-found P e token s l k a h =
      found-used P e.now (hash (trim_space token)) (load s).links l _ k a refl (ground arith)

  pub sessions-found :
      (P : ShareLink → Type 0) (now : ℕ) (digest : Text) (ls : List ShareLink)
      (xs : List ShareSession)
      → (l : ShareLink) → All P ls
      → resolve_sessions hash now digest ls xs ≡ some l
      → Shown now l × P l
  unfolding resolve_sessions
  sessions-found P now digest ls [] l a h = ground arith
  sessions-found P now digest ls (x ∷ xs) l a h = ground (
    arith,
    sessions-found P now digest ls xs l a,
    find_link-All (of_session now x) P l ls a,
    live-Shown now l,
  )
