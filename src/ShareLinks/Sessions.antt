-- ===== src/ShareLinks/Sessions.antt =====
-- modules/mail/backend/share_links.go: a session that CreateSession opens is one that ResolveSession
-- finds, until it expires, and it expires no later than its link.
use running_tools.Prelude.{
  ℕ, ◌+◌, ◌*◌, ◌≤◌, ◌<◌, ◌≡◌, refl, subst, Bool, true, false, ◌&&◌, Option, none, some,
  Option-cases, inl, inr, List, [], ◌∷◌, ◌++◌, arith, is_empty, is_some, keep, some_of,
}
use running_tools.Prelude.Int.{ℤ, pos_part}
use running_tools.Prelude.Text.{Text, text_eq, text_eq_refl, trim_space}
use running_tools.Prelude.Clock.{second, Env}
use running_tools.ShareLinks.Types.{ShareLink, ShareSession, Store}
use running_tools.ShareLinks.Store.{
  load, live, find_link, mark_used, used, opens, session_live, of_session, session_expiry,
}
use running_tools.ShareLinks.Access.{
  resolve, create_session, open_session, new_session, resolve_sessions, resolve_session,
}
use running_tools.ShareLinks.Search.{find_link-some_of}
use running_tools.ShareLinks.Resolving.{Shown, resolve-found, All-nothing}

module _ (q : ShareLink → Bool) (p : ShareLink → Bool) (m : ShareLink) where
  find_link-has : (ls : List ShareLink) → find_link p ls ≡ some m → q m ≡ true → some_of q ls ≡ true
  unfolding find_link
  find_link-has [] f h = ground arith
  find_link-has (l ∷ ls) f h = ground (arith, find_link-has ls)

  mark_used-has :
      (now : ℕ) (ls : List ShareLink)
      → ((l : ShareLink) → q (used now l) ≡ q l)
      → find_link p ls ≡ some m
      → q m ≡ true
      → some_of q (mark_used p now ls) ≡ true
  unfolding find_link mark_used
  mark_used-has now [] k f h = ground arith
  mark_used-has now (l ∷ ls) k f h = ground (arith, mark_used-has now ls k, k l)

-- No later than an expiry, if there is one.
abbrev pub AtMost : ℕ → Option ℕ → Type 0
AtMost n none = Unit {0}
AtMost n (some t) = n ≤ t

session_expiry-bounds :
    (now max_age : ℕ) (at : Option ℕ)
    → (session_expiry now max_age at ≤ now + max_age * second)
      × AtMost (session_expiry now max_age at) at
unfolding session_expiry
session_expiry-bounds now max_age none = ground arith
session_expiry-bounds now max_age (some u) = ground arith

module _ (hash : Text → Text) where
  resolve_sessions-last :
      (now : ℕ) (digest : Text) (ls : List ShareLink) (x : ShareSession) (xs : List ShareSession)
      → text_eq x.token_hash digest ≡ true
      → session_live now x ≡ true
      → some_of (of_session now x) ls ≡ true
      → is_some (resolve_sessions hash now digest ls (xs ++ (x ∷ []))) ≡ true
  unfolding resolve_sessions
  resolve_sessions-last now digest ls x [] h k o =
      ground (arith, find_link-some_of (of_session now x) ls)
  resolve_sessions-last now digest ls x (y ∷ ys) h k o =
      ground (arith, resolve_sessions-last now digest ls x ys h k o)

  -- The link that a token opened stands in the file afterwards, written or not.
  resolve-has :
      (q : ShareLink → Bool) (e : Env) (token : Text) (s : Store) (l : ShareLink)
      → ((m : ShareLink) → q (used e.now m) ≡ q m)
      → (resolve hash e token s).1 ≡ some l
      → q l ≡ true
      → some_of q (load (resolve hash e token s).0).links ≡ true
  unfolding resolve
  resolve-has q e token s l k h v =
      let p = opens e.now (hash (trim_space token)) in
      elim (Option-cases (find_link p (load s).links)) [
        | inl f ↦ ground arith
        | inr (m, f) ↦ ground (
          arith,
          k m,
          find_link-has q p m (load s).links,
          mark_used-has q p m e.now (load s).links k,
        )
      ]

  -- What `open_session` gives, when it gives a session.
  open_session-saves :
      (e : Env) (max_age : ℕ) (t u : Text) (l m : ShareLink) (s : Store)
      → (open_session hash e max_age t l s).1 ≡ some (u, m)
      → (u ≡ t) × (m ≡ l) × (e.now < session_expiry e.now max_age l.expires_at) × (e.saved ≡ true)
  unfolding open_session
  open_session-saves e max_age t u l m s h = ground arith

  session_found :
      (e : Env) (max_age : ℕ) (t : Text) (l : ShareLink) (s : Store) (now : ℕ)
      → (open_session hash e max_age t l s).1 ≡ some (t, l)
      → some_of (λ m. text_eq m.id l.id && live now m) (load s).links ≡ true
      → is_empty (trim_space t) ≡ false
      → now < session_expiry e.now max_age l.expires_at
      → is_some (resolve_session hash now t (open_session hash e max_age t l s).0) ≡ true
  unfolding open_session resolve_session
  session_found e max_age t l s now h o b k =
      let expires = session_expiry e.now max_age l.expires_at in
      let x = new_session hash t l.id expires in
      ground (
        arith,
        open_session-saves e max_age t t l l s h,
        resolve_sessions-last now (hash t) (load s).links x
            (keep (session_live e.now) (load s).sessions),
        text_eq_refl (hash t),
      )

  -- An opened session has a link that its token resolved to, the drawn token, a positive age and a
  -- written file.
  created-open :
      (e e' : Env) (drawn : Option Text) (token : Text) (max_age : ℤ) (s : Store)
      → (t : Text) (l : ShareLink)
      → (create_session hash e e' drawn token max_age s).1 ≡ some (t, l)
      → ((resolve hash e token s).1 ≡ some l)
        × (create_session hash e e' drawn token max_age s
            ≡ open_session hash e' (pos_part max_age) t l (resolve hash e token s).0)
  unfolding create_session
  created-open e e' none token max_age s t l h = elim (Option-cases (resolve hash e token s).1) [
    | inl f ↦ ground arith
    | inr (m, f) ↦ ground arith
  ]
  created-open e e' (some u) token max_age s t l h =
      elim (Option-cases (resolve hash e token s).1) [
        | inl f ↦ ground arith
        | inr (m, f) ↦
            ground
              (arith, open_session-saves e' (pos_part max_age) u t m l (resolve hash e token s).0)
      ]

  still-live :
      (now max_age later : ℕ) (l : ShareLink)
      → l.revoked_at ≡ none
      → later < session_expiry now max_age l.expires_at
      → live later l ≡ true
  unfolding live session_expiry
  still-live now max_age later l r h = ground arith

  -- A session that is opened ends after the instant it is opened, no later than the age asked for
  -- and no later than its link, and its link was neither revoked nor expired.
  pub create_session-bounds :
      (e e' : Env) (drawn : Option Text) (token : Text) (max_age : ℤ) (s : Store)
      → (t : Text) (l : ShareLink)
      → (create_session hash e e' drawn token max_age s).1 ≡ some (t, l)
      → let expires = session_expiry e'.now (pos_part max_age) l.expires_at in
        (e'.now < expires)
        × (expires ≤ e'.now + pos_part max_age * second)
        × AtMost expires l.expires_at
        × Shown e.now l
        × (l.token_hash ≡ hash (trim_space token))
  create_session-bounds e e' drawn token max_age s t l h =
      let (r, o) = created-open e e' drawn token max_age s t l h in
      let v = resolve-found hash (λ m. Unit {0}) e token s l (λ n m u. tt) (All-nothing hash _) r in
      let n = pos_part max_age in
      let i =
        open_session-saves e' n t t l l (resolve hash e token s).0
          (subst (λ x. x.1 ≡ some (t, l)) o h) in
      let b = session_expiry-bounds e'.now n l.expires_at in (i.2, b.0, b.1, v.0.1, v.0.0)

  -- The session that CreateSession returns shows a link until it expires: no write of the lookup, no
  -- other session and no session swept out on the way keeps it from that. The drawn token is not blank.
  pub create_session-opens :
      (e e' : Env) (drawn : Option Text) (token : Text) (max_age : ℤ) (s : Store)
      → (t : Text) (l : ShareLink) (now : ℕ)
      → (create_session hash e e' drawn token max_age s).1 ≡ some (t, l)
      → is_empty (trim_space t) ≡ false
      → now < session_expiry e'.now (pos_part max_age) l.expires_at
      → is_some (resolve_session hash now t (create_session hash e e' drawn token max_age s).0)
        ≡ true
  unfolding live
  create_session-opens e e' drawn token max_age s t l now h b k =
      let (r, o) = created-open e e' drawn token max_age s t l h in
      let v = create_session-bounds e e' drawn token max_age s t l h in
      let n = pos_part max_age in
      let q = (λ (m : ShareLink). text_eq m.id l.id && live now m) in
      let a = still-live e'.now n now l v.3.0 k in
      let has = resolve-has q e token s l (λ m. refl) r (rw (text_eq_refl l.id, a) refl) in
      rw o (
        session_found e' n t l (resolve hash e token s).0 now (subst (λ x. x.1 ≡ some (t, l)) o h)
          has b k)
