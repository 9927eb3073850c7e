-- ===== src/ShareLinks/Revoking.antt =====
-- modules/mail/backend/share_links.go: a revoked link opens nothing any more.
use running_tools.Prelude.{
  ℕ, ◌≡◌, ◌≢◌, Bool, true, false, ◌&&◌, none, some, List, [], ◌∷◌, arith, ltb, is_none, All,
}
use running_tools.Prelude.Text.{Text, text_eq, text_eq_refl}
use running_tools.Prelude.Clock.{Env}
use running_tools.ShareLinks.Types.{ShareLink, Store}
use running_tools.ShareLinks.Store.{
  load, share_alias, revoke_where, revoke_links, revoke, revoke_for_alias,
}
use running_tools.ShareLinks.Access.{resolve, resolve_session}
use running_tools.ShareLinks.Resolving.{Stays, resolve-found, sessions-found}

module _ (p : ShareLink → Bool) where
  -- A link that a test accepts is revoked.
  abbrev Closed : ShareLink → Type 0
  Closed l = (p l && is_none l.revoked_at) ≡ false

  revoke_where-Closed : (now : ℕ) (ls : List ShareLink) → All Closed (revoke_where p now ls).0
  unfolding revoke_where
  revoke_where-Closed now [] = tt
  revoke_where-Closed now (l ∷ ls) = ground (arith, revoke_where-Closed now ls)

  -- Where no link changes, all of them are closed already.
  unchanged-Closed :
      (now : ℕ) (ls : List ShareLink) → ltb 0 (revoke_where p now ls).1 ≡ false → All Closed ls
  unfolding revoke_where
  unchanged-Closed now [] h = tt
  unchanged-Closed now (l ∷ ls) h = ground (arith, unchanged-Closed now ls)

  revoke_links-Closed :
      (e : Env) (s : Store) → e.saved ≡ true → All Closed (load (revoke_links p e s).0).links
  unfolding revoke_links
  revoke_links-Closed e s h =
      ground
        (arith, revoke_where-Closed e.now (load s).links, unchanged-Closed e.now (load s).links)

  Closed-refused : (l : ShareLink) → l.revoked_at ≡ none → Closed l → p l ≡ false
  Closed-refused l h k = ground arith

module _ (hash : Text → Text) (p : ShareLink → Bool) where
  -- Where all links that a test accepts are revoked, no token and no session shows such a link.
  Closed-resolve :
      (e : Env) (token : Text) (s : Store) (l : ShareLink)
      → Stays (Closed p)
      → All (Closed p) (load s).links
      → (resolve hash e token s).1 ≡ some l
      → p l ≡ false
  Closed-resolve e token s l k a h =
      let v = resolve-found hash (Closed p) e token s l k a h in Closed-refused p l v.0.1.0 v.1

  Closed-session :
      (now : ℕ) (token : Text) (s : Store) (l : ShareLink)
      → All (Closed p) (load s).links
      → resolve_session hash now token s ≡ some l
      → p l ≡ false
  unfolding resolve_session
  Closed-session now token s l a h =
      let v =
        sessions-found hash (Closed p) now (hash token) (load s).links (load s).sessions l a
          (ground arith) in
      Closed-refused p l v.0.0 v.1

unequal : (s t : Text) → text_eq s t ≡ false → s ≢ t
unequal s t h e = ground (arith, text_eq_refl t)

module _ (hash : Text → Text) (e : Env) (s : Store) where
  -- After a Revoke that is written, no token opens the link, at any time: what a token opens has
  -- another id.
  pub revoke-resolve :
      (id : Text) (e' : Env) (token : Text) (l : ShareLink)
      → e.saved ≡ true
      → (resolve hash e' token (revoke e id s).0).1 ≡ some l
      → l.id ≢ id
  unfolding revoke
  revoke-resolve id e' token l h r =
      let p = (λ (m : ShareLink). text_eq m.id id) in
      unequal l.id id (
        Closed-resolve hash p e' token (revoke e id s).0 l (λ n m c. c)
          (revoke_links-Closed p e s h) r)

  -- After a Revoke whose write of the file succeeds, no session shows the link, at any time: what a
  -- session shows has another id.
  pub revoke-session :
      (id : Text) (now : ℕ) (token : Text) (l : ShareLink)
      → e.saved ≡ true
      → resolve_session hash now token (revoke e id s).0 ≡ some l
      → l.id ≢ id
  unfolding revoke
  revoke-session id now token l h r =
      let p = (λ (m : ShareLink). text_eq m.id id) in
      unequal l.id id
        (Closed-session hash p now token (revoke e id s).0 l (revoke_links-Closed p e s h) r)

  -- After a RevokeForAlias that is written, no session shows a link of the alias.
  pub alias-session :
      (alias : Text) (now : ℕ) (token : Text) (l : ShareLink)
      → e.saved ≡ true
      → resolve_session hash now token (revoke_for_alias e alias s).0 ≡ some l
      → l.alias ≢ share_alias alias
  unfolding revoke_for_alias
  alias-session alias now token l h r =
      let p = (λ (m : ShareLink). text_eq m.alias (share_alias alias)) in
      unequal l.alias (share_alias alias) (
        Closed-session hash p now token (revoke_for_alias e alias s).0 l
          (revoke_links-Closed p e s h) r)
