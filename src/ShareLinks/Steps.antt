-- ===== src/ShareLinks/Steps.antt =====
-- modules/mail/backend/share_links.go: each operation on the tables beside the same operation on
-- the JSON file, where every write succeeds and the two clocks agree.
use running_tools.Prelude.{
  ℕ, Bool, true, false, not, ◌&&◌, Option, List, [], ◌∷◌, keep, some_of, find, arith, ◌≡◌, refl,
  Result, ok, err, ltb, is_some, map, Result-cases, Option-cases, inl, inr,
}
use running_tools.Prelude.Clock.{Env}
use running_tools.Prelude.Int.{ℤ}
use running_tools.Prelude.Text.{Text, text_eq, text_eq_refl, trim_space}
use running_tools.ShareLinks.Types.{ShareLink, Store, Input, ShareError}
use running_tools.ShareLinks.Store.{
  load, revoke_where, revoke_links, opens, clear_inactive, session_expiry,
}
use running_tools.ShareLinks.Access.{
  make_links, expiry, new_session, create_batch, resolve, open_session, resolve_session,
}
use running_tools.ShareLinks.Database.{
  Tables, DbCall, session_clash, opening, inactive, own, own_sessions, stale_session, session_row,
  insert_links, db_revoke_where, db_clear_inactive, db_create_batch, db_resolve, db_open_session,
  db_resolve_session,
}
use running_tools.ShareLinks.Views.{
  view, own_sessions-append, own-revoke, find-own, own-use, own_sessions-live, own-live,
  removed-ids, length-ids, cascade-own, insert-own, join-own,
}
use running_tools.ShareLinks.Integrity.{Refers}
use running_tools.ShareLinks.Keys.{IsKeyed}

-- A call at one time whose writes all succeed, with the file and with the database.
abbrev pub env_at : ℕ → Env
env_at now = record { now = now; saved = true }

abbrev pub call_at : ℕ → DbCall
call_at now = record { now = now; db_now = now; ran = λ _. true }

-- Every INSERT of the links made finds its keys free.
unfoldable pub no_clash : Result ShareError (List (ShareLink × Text)) → Text → Tables → Bool
no_clash (err x) acc t = true
no_clash (ok ls) acc t = is_some (insert_links acc (λ _. true) 1 (map (λ p. p.0) ls) t.links)

some_of-keep-false :
    {A : Type 0} (p q : A → Bool) (xs : List A)
    → some_of p xs ≡ false
    → some_of p (keep q xs) ≡ false
some_of-keep-false p q [] h = refl
some_of-keep-false p q (x ∷ xs) h = ground (arith, some_of-keep-false p q xs)

some_of_weaken :
    {A : Type 0} (p q : A → Bool) (xs : List A)
    → ((x : A) → p x ≡ true → q x ≡ true)
    → some_of p xs ≡ true
    → some_of q xs ≡ true
some_of_weaken p q [] k h = h
some_of_weaken p q (x ∷ xs) k h = ground (arith, some_of_weaken p q xs k, k x)

unchanged :
    (p : ShareLink → Bool) (now : ℕ) (ls : List ShareLink)
    → ltb 0 (revoke_where p now ls).1 ≡ false
    → (revoke_where p now ls).0 ≡ ls
unfolding revoke_where
unchanged p now [] h = refl
unchanged p now (l ∷ ls) h = ground (arith, unchanged p now ls)

module _ (acc : Text) (now : ℕ) (t : Tables) (s : Store) where
  -- The account's rows are what the file holds.
  abbrev Same : Type 0
  Same = (own acc t.links ≡ (load s).links) × (own_sessions acc t.sessions ≡ (load s).sessions)

  pub revoke-Same :
      (p : ShareLink → Bool)
      → Same
      → (view acc (db_revoke_where acc p (call_at now) t).0
          ≡ load (revoke_links p (env_at now) s).0)
        × ((db_revoke_where acc p (call_at now) t).1 ≡ (revoke_links p (env_at now) s).1)
  unfolding db_revoke_where revoke_links
  revoke-Same p (h, k) =
      ground (arith, own-revoke acc p now t.links, unchanged p now (load s).links)

  pub clear_inactive-Same :
      Same
      → IsKeyed t
      → (view acc (db_clear_inactive acc (call_at now) t).0
          ≡ load (clear_inactive (env_at now) s).0)
        × ((db_clear_inactive acc (call_at now) t).1 ≡ (clear_inactive (env_at now) s).1)
  unfolding db_clear_inactive clear_inactive
  clear_inactive-Same (h, k) (a, b) = ground (
    arith,
    own-live acc now t.links,
    removed-ids acc now t.links a,
    length-ids acc (keep (inactive acc now) t.links),
    cascade-own acc now (keep (inactive acc now) t.links) t.sessions,
  )

  module _ (hash : Text → Text) where
    pub resolve-Same :
        (token : Text)
        → Same
        → IsKeyed t
        → (view acc (db_resolve acc hash (call_at now) token t).0
            ≡ load (resolve hash (env_at now) token s).0)
          × ((db_resolve acc hash (call_at now) token t).1 ≡ (resolve hash (env_at now) token s).1)
    unfolding db_resolve resolve opens
    resolve-Same token (h, k) (a, b) =
        let digest = hash (trim_space token) in
        elim (Option-cases (find (opening acc hash now digest) t.links)) [
          | inl e ↦ ground (arith, find-own acc (opens now digest) t.links)
          | inr (r, e) ↦ ground (
            arith,
            find-own acc (opens now digest) t.links,
            own-use acc (opens now digest) now t.links r a,
          )
        ]

    pub resolve_session-Same :
        (token : Text)
        → Same
        → IsKeyed t
        → db_resolve_session acc hash (call_at now) token t ≡ resolve_session hash now token s
    unfolding db_resolve_session resolve_session
    resolve_session-Same token (h, k) (a, b) =
        ground (arith, join-own acc hash now (hash token) t.links t.sessions a b)

    pub create_batch-Same :
        (token : ℕ → Option Text) (id : ℕ → Text) (inputs : List Input) (expires_in : Option ℤ)
        → Same
        → no_clash (make_links hash now (expiry hash now expires_in) token id 0 inputs) acc t ≡ true
        → (view acc (db_create_batch acc hash (call_at now) token id inputs expires_in t).0
            ≡ load (create_batch hash (env_at now) token id inputs expires_in s).0)
          × ((db_create_batch acc hash (call_at now) token id inputs expires_in t).1
              ≡ (create_batch hash (env_at now) token id inputs expires_in s).1)
    unfolding db_create_batch create_batch no_clash
    create_batch-Same token id inputs expires_in (h, k) f =
        elim (Result-cases (make_links hash now (expiry hash now expires_in) token id 0 inputs)) [
          | inr (x, e) ↦ ground arith
          | inl (ls, e) ↦
              let made = map (λ (p : ShareLink × Text). p.0) ls in
              elim (Option-cases (insert_links acc (λ _. true) 1 made t.links)) [
                | inl g ↦ ground arith
                | inr (rows, g) ↦ ground (arith, insert-own acc (λ _. true) 1 made t.links rows)
              ]
        ]

    -- A drawn token whose digest no session has yet.
    pub open_session-Same :
        (max_age : ℕ) (token : Text) (l : ShareLink)
        → Same
        → Refers acc l t
        → some_of (λ x. text_eq x.session.token_hash (hash token)) t.sessions ≡ false
        → (view acc (db_open_session acc hash (call_at now) max_age token l t).0
            ≡ load (open_session hash (env_at now) max_age token l s).0)
          × ((db_open_session acc hash (call_at now) max_age token l t).1
              ≡ (open_session hash (env_at now) max_age token l s).1)
    unfolding db_open_session open_session
    open_session-Same max_age token l (h, k) r f =
        let x =
          session_row acc (new_session hash token l.id (session_expiry now max_age l.expires_at)) in
        let kept = keep (λ y. not (stale_session acc now y)) t.sessions in
        ground (
          arith,
          own_sessions-live acc now t.sessions,
          own_sessions-append acc kept (x ∷ []),
          text_eq_refl acc,
          some_of-keep-false (session_clash x.session) (λ y. not (stale_session acc now y))
              t.sessions f,
          some_of_weaken (λ y. text_eq y.link.id l.id && text_eq y.account_id acc)
              (λ y. text_eq y.link.id l.id) t.links (λ y. ground arith) r,
        )
