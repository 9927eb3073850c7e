-- ===== src/ShareLinks/Isolation.antt =====
-- modules/mail/backend/share_links.go: the rows of one account under the operations of another.
use running_tools.Prelude.{
  ℕ, Bool, true, false, not, Option, some, List, [], ◌∷◌, ◌++◌, map, keep, some_of, find, modify,
  All, arith, ◌≡◌, refl, ◌∙◌, Result-cases, Option-cases, inl, inr, suc,
}
use mathlib.Core.List.{append-nil}
use running_tools.Prelude.Int.{ℤ, pos_part}
use running_tools.Prelude.Text.{Text, text_eq, text_eq→eq, text_eq_comm, trim_space}
use running_tools.ShareLinks.Types.{ShareLink, Input}
use running_tools.ShareLinks.Store.{share_alias, session_expiry}
use running_tools.ShareLinks.Access.{make_links, expiry, new_session}
use running_tools.ShareLinks.Database.{
  LinkRow, SessionRow, Tables, DbCall, mine, own, own_sessions, to_revoke, revoked, row_of,
  session_row, insert_links, with_id, used_row, stale_session, inactive, opening, db_revoke_where,
  db_revoke, db_revoke_for_alias, db_clear_inactive, db_create_batch, db_resolve, db_open_session,
  db_create_session,
}
use running_tools.ShareLinks.Views.{
  view, Linked, Keyed, own-append, own_sessions-append, linked-foreign, foreign,
}
use running_tools.ShareLinks.Keys.{IsKeyed}
use running_tools.ShareLinks.Operations.{
  Operation, creates, revokes, revokes_alias, resolves, opens_session, clears, operate, operate_all,
  operate-IsKeyed,
}

module _ (acc neighbour : Text) (apart : text_eq acc neighbour ≡ false) where
  apart_mine : (id : Text) → text_eq id acc ≡ true → text_eq id neighbour ≡ false
  apart_mine id h = ground (arith, text_eq→eq id acc)

  own-modify :
      (p : LinkRow → Bool) (f : LinkRow → LinkRow) (rs : List LinkRow)
      → ((r : LinkRow) → p r ≡ true → mine acc r ≡ true)
      → ((r : LinkRow) → (f r).account_id ≡ r.account_id)
      → own neighbour (modify p f rs) ≡ own neighbour rs
  unfolding modify
  own-modify p f [] h k = refl
  own-modify p f (r ∷ rs) h k =
      ground (arith, own-modify p f rs h k, h r, k r, apart_mine r.account_id)

  own-inactive :
      (now : ℕ) (rs : List LinkRow)
      → own neighbour (keep (λ r. not (inactive acc now r)) rs) ≡ own neighbour rs
  own-inactive now [] = refl
  own-inactive now (r ∷ rs) = ground (arith, own-inactive now rs, apart_mine r.account_id)

  own_sessions-stale :
      (now : ℕ) (xs : List SessionRow)
      → own_sessions neighbour (keep (λ x. not (stale_session acc now x)) xs)
        ≡ own_sessions neighbour xs
  own_sessions-stale now [] = refl
  own_sessions-stale now (x ∷ xs) =
      ground (arith, own_sessions-stale now xs, apart_mine x.account_id)

  gone-foreign :
      (now : ℕ) (x : SessionRow) (rs : List LinkRow)
      → All (λ r. foreign neighbour x r ≡ false) rs
      → some_of (λ r. text_eq x.session.link_id r.link.id) (keep (inactive acc now) rs) ≡ false
  gone-foreign now x [] a = refl
  gone-foreign now x (r ∷ rs) (a, b) = ground (
    arith,
    gone-foreign now x rs b,
    apart_mine r.account_id,
    text_eq_comm r.link.id x.session.link_id,
  )

  -- The cascade does not reach a session of another account.
  own_sessions-cascade :
      (now : ℕ) (rs : List LinkRow) (xs : List SessionRow)
      → Keyed rs
      → Linked rs xs
      → own_sessions neighbour (
          keep
            (λ x.
              not (some_of (λ r. text_eq x.session.link_id r.link.id) (keep (inactive acc now) rs)))
            (keep (λ x. not (stale_session acc now x)) xs))
        ≡ own_sessions neighbour xs
  own_sessions-cascade now rs [] k l = refl
  own_sessions-cascade now rs (x ∷ xs) k (a, l) = ground (
    arith,
    own_sessions-cascade now rs xs k l,
    apart_mine x.account_id,
    linked-foreign neighbour x rs k a,
    gone-foreign now x rs,
  )

  own-insert :
      (ran : ℕ → Bool) (i : ℕ) (ls : List ShareLink) (rs rows : List LinkRow)
      → insert_links acc ran i ls rs ≡ some rows
      → own neighbour rows ≡ own neighbour rs
  unfolding insert_links
  own-insert ran i [] rs rows h = ground arith
  own-insert ran i (l ∷ ls) rs rows h = ground (
    arith,
    own-insert ran (suc i) ls (rs ++ (row_of acc l ∷ [])) rows,
    own-append neighbour rs (row_of acc l ∷ []),
    append-nil (own neighbour rs),
  )

  abbrev Untouched : Tables → Tables → Type 0
  Untouched t t' = view neighbour t' ≡ view neighbour t

  revoke-Untouched :
      (p : ShareLink → Bool) (c : DbCall) (t : Tables) → Untouched t (db_revoke_where acc p c t).0
  unfolding db_revoke_where
  revoke-Untouched p c t = ground (
    arith,
    own-modify (to_revoke acc p) (revoked acc c.now) t.links (λ r h. ground arith) (λ r. refl),
  )

  clear-Untouched :
      (c : DbCall) (t : Tables) → IsKeyed t → Untouched t (db_clear_inactive acc c t).0
  unfolding db_clear_inactive
  clear-Untouched c t (k, l) =
      ground
        (arith, own-inactive c.db_now t.links, own_sessions-cascade c.db_now t.links t.sessions k l)

  module _ (hash : Text → Text) where
    create-Untouched :
        (c : DbCall) (token : ℕ → Option Text) (id : ℕ → Text) (inputs : List Input)
        (expires_in : Option ℤ) (t : Tables)
        → Untouched t (db_create_batch acc hash c token id inputs expires_in t).0
    unfolding db_create_batch
    create-Untouched c token id inputs expires_in t =
        elim (Result-cases
          (make_links hash c.now (expiry hash c.now expires_in) token id 0 inputs)) [
            | inr (x, e) ↦ ground arith
            | inl (ls, e) ↦
                elim (Option-cases (insert_links acc c.ran 1 (map (λ p. p.0) ls) t.links)) [
                  | inl g ↦ ground arith
                  | inr (rows, g) ↦
                      ground (arith, own-insert c.ran 1 (map (λ p. p.0) ls) t.links rows)
                ]
          ]

    resolve-Untouched :
        (c : DbCall) (token : Text) (t : Tables) → Untouched t (db_resolve acc hash c token t).0
    unfolding db_resolve
    resolve-Untouched c token t =
        elim (Option-cases (find (opening acc hash c.db_now (hash (trim_space token))) t.links)) [
          | inl e ↦ ground arith
          | inr (r, e) ↦ ground (
            arith,
            own-modify (with_id acc r.link.id) (used_row acc c.now) t.links (λ y h. ground arith)
                (λ y. refl),
          )
        ]

    open_session-Untouched :
        (c : DbCall) (max_age : ℕ) (s : Text) (l : ShareLink) (t : Tables)
        → Untouched t (db_open_session acc hash c max_age s l t).0
    unfolding db_open_session
    open_session-Untouched c max_age s l t =
        let x =
          session_row acc (new_session hash s l.id (session_expiry c.now max_age l.expires_at)) in
        ground (
          arith,
          own_sessions-stale c.db_now t.sessions,
          append-nil (own_sessions neighbour t.sessions),
          own_sessions-append neighbour t.sessions (x ∷ []),
          own_sessions-append neighbour (keep (λ y. not (stale_session acc c.db_now y)) t.sessions)
              (x ∷ []),
        )

    create_session-Untouched :
        (c c' : DbCall) (drawn : Option Text) (token : Text) (max_age : ℤ) (t : Tables)
        → Untouched t (db_create_session acc hash c c' drawn token max_age t).0
    unfolding db_create_session
    create_session-Untouched c c' drawn token max_age t =
        let r = db_resolve acc hash c token t in
        elim (Option-cases r.1) [
          | inl e ↦ ground (arith, resolve-Untouched c token t)
          | inr (l, e) ↦ elim (Option-cases drawn) [
            | inl f ↦ ground (arith, resolve-Untouched c token t)
            | inr (d, f) ↦ ground (
              arith,
              resolve-Untouched c token t,
              open_session-Untouched c' (pos_part max_age) d l r.0,
            )
          ]
        ]

    operate-Untouched :
        (o : Operation) (t : Tables) → IsKeyed t → Untouched t (operate hash acc o t)
    unfolding operate db_revoke db_revoke_for_alias
    operate-Untouched (creates c token id inputs expires_in) t k =
        create-Untouched c token id inputs expires_in t
    operate-Untouched (revokes c id) t k = revoke-Untouched (λ l. text_eq l.id id) c t
    operate-Untouched (revokes_alias c alias) t k =
        revoke-Untouched (λ l. text_eq l.alias (share_alias alias)) c t
    operate-Untouched (resolves c token) t k = resolve-Untouched c token t
    operate-Untouched (opens_session c c' drawn token max_age) t k =
        create_session-Untouched c c' drawn token max_age t
    operate-Untouched (clears c) t k = clear-Untouched c t k

    -- No sequence of CreateBatch, Revoke, RevokeForAlias, Resolve, CreateSession and ClearInactive
    -- for one account changes a link or a session of another account, in tables whose keys hold:
    -- whichever statements fail, and whatever the clocks of the program and of the database read.
    pub operate_all-neighbour :
        (os : List Operation) (t : Tables)
        → IsKeyed t
        → view neighbour (operate_all hash acc os t) ≡ view neighbour t
    unfolding operate_all
    operate_all-neighbour [] t k = refl
    operate_all-neighbour (o ∷ os) t k =
        operate_all-neighbour os (operate hash acc o t) (operate-IsKeyed hash acc o t k)
        ∙ operate-Untouched o t k
