-- ===== src/ShareLinks/Views.antt =====
-- modules/mail/backend/share_links.go: the rows of one account seen as the state that the JSON file
-- would hold, statement by statement.
use running_tools.Prelude.{
  ℕ, suc, Bool, true, false, not, ◌&&◌, none, some, List, [], ◌∷◌, ◌++◌, map, keep, some_of, length,
  find, modify, find-All, All, arith, ◌≡◌, refl, Bool-cases, inl, inr, subst,
}
use running_tools.Prelude.Text.{Text, text_eq, text_eq→eq, text_eq_refl, text_eq_comm}
use mathlib.Core.List.{append-nil, append_assoc}
use running_tools.ShareLinks.Types.{ShareLink, ShareSession, ShareState}
use running_tools.ShareLinks.Store.{
  live, revoke_where, find_link, mark_used, session_live, of_session, removed_ids,
}
use running_tools.ShareLinks.Access.{resolve_sessions}
use running_tools.ShareLinks.Database.{
  LinkRow, SessionRow, Tables, mine, my_session, own, own_sessions, to_revoke, revoked, row_of,
  insert_links, with_id, used_row, stale_session, inactive, join,
}

abbrev pub view : Text → Tables → ShareState
view acc t = record { links = own acc t.links; sessions = own_sessions acc t.sessions }

-- The primary key of mail_share_links: no two rows have one id.
abbrev pub Keyed : List LinkRow → Type 0
Keyed [] = Unit
Keyed (r ∷ rs) = All (λ x. text_eq x.link.id r.link.id ≡ false) rs × Keyed rs

abbrev pub link_of : SessionRow → LinkRow → Bool
link_of x r = text_eq r.link.id x.session.link_id && text_eq r.account_id x.account_id

-- Every session refers to a link of its own account.
abbrev pub Linked : List LinkRow → List SessionRow → Type 0
Linked ls = All (λ x. some_of (link_of x) ls ≡ true)

module _ (acc : Text) where
  pub own-append : (rs ss : List LinkRow) → own acc (rs ++ ss) ≡ own acc rs ++ own acc ss
  own-append [] ss = refl
  own-append (r ∷ rs) ss = ground (arith, own-append rs ss)

  pub own_sessions-append :
      (rs ss : List SessionRow)
      → own_sessions acc (rs ++ ss) ≡ own_sessions acc rs ++ own_sessions acc ss
  own_sessions-append [] ss = refl
  own_sessions-append (r ∷ rs) ss = ground (arith, own_sessions-append rs ss)

  -- UPDATE ... SET revoked_at is the loop over the links.
  pub own-revoke :
      (p : ShareLink → Bool) (now : ℕ) (rs : List LinkRow)
      → (own acc (modify (to_revoke acc p) (revoked acc now) rs)
          ≡ (revoke_where p now (own acc rs)).0)
        × (length (keep (to_revoke acc p) rs) ≡ (revoke_where p now (own acc rs)).1)
  unfolding modify revoke_where
  own-revoke p now [] = (refl, refl)
  own-revoke p now (r ∷ rs) = ground (arith, own-revoke p now rs)

  -- The row that a query finds is the link that the loop finds.
  pub find-own :
      (p : ShareLink → Bool) (rs : List LinkRow)
      → find_link p (own acc rs)
        ≡ elim (find (λ r. mine acc r && p r.link) rs) [ none ↦ none | some r ↦ some r.link ]
  unfolding find find_link
  find-own p [] = refl
  find-own p (r ∷ rs) = ground (arith, find-own p rs)

  -- An UPDATE of rows of which none passes leaves the table.
  modify_none :
      (p : LinkRow → Bool) (f : LinkRow → LinkRow) (rs : List LinkRow)
      → All (λ r. p r ≡ false) rs
      → modify p f rs ≡ rs
  unfolding modify
  modify_none p f [] h = refl
  modify_none p f (r ∷ rs) (h, k) = ground (arith, modify_none p f rs k)

  others-with_id :
      (id : Text) (rs : List LinkRow)
      → All (λ r. text_eq r.link.id id ≡ false) rs
      → All (λ r. with_id acc id r ≡ false) rs
  others-with_id id [] h = tt
  others-with_id id (r ∷ rs) (h, k) = ground (arith, others-with_id id rs k)

  -- UPDATE ... SET last_used_at by the id of the row found is the change of the link found.
  pub own-use :
      (p : ShareLink → Bool) (now : ℕ) (rs : List LinkRow) (r : LinkRow)
      → Keyed rs
      → find (λ x. mine acc x && p x.link) rs ≡ some r
      → own acc (modify (with_id acc r.link.id) (used_row acc now) rs)
        ≡ mark_used p now (own acc rs)
  unfolding modify mark_used find
  own-use p now [] r k h = refl
  own-use p now (x ∷ rs) r (a, k) h = ground (
    arith,
    own-use p now rs r k,
    text_eq_refl x.link.id,
    modify_none (with_id acc x.link.id) (used_row acc now) rs (others-with_id x.link.id rs a),
    find-All (λ (y : LinkRow). mine acc y && p y.link)
        (λ (y : LinkRow). text_eq y.link.id x.link.id ≡ false) r rs a,
    text_eq_comm r.link.id x.link.id,
  )

  pub own_sessions-live :
      (now : ℕ) (xs : List SessionRow)
      → own_sessions acc (keep (λ x. not (stale_session acc now x)) xs)
        ≡ keep (session_live now) (own_sessions acc xs)
  own_sessions-live now [] = refl
  own_sessions-live now (x ∷ xs) = ground (arith, own_sessions-live now xs)

  pub own-live :
      (now : ℕ) (rs : List LinkRow)
      → own acc (keep (λ r. not (inactive acc now r)) rs) ≡ keep (live now) (own acc rs)
  unfolding live
  own-live now [] = refl
  own-live now (r ∷ rs) = ground (arith, own-live now rs)

  fresh-removed :
      (now : ℕ) (id : Text) (rs : List LinkRow)
      → All (λ r. text_eq r.link.id id ≡ false) rs
      → some_of (text_eq id) (map (λ (r : LinkRow). r.link.id) (keep (inactive acc now) rs)) ≡ false
  fresh-removed now id [] h = refl
  fresh-removed now id (r ∷ rs) (h, k) =
      ground (arith, fresh-removed now id rs k, text_eq_comm r.link.id id)

  -- The ids that the loop collects are those of the rows that DELETE removes.
  pub removed-ids :
      (now : ℕ) (rs : List LinkRow)
      → Keyed rs
      → removed_ids now (own acc rs) ≡ map (λ (r : LinkRow). r.link.id) (keep (inactive acc now) rs)
  unfolding removed_ids live
  removed-ids now [] k = refl
  removed-ids now (r ∷ rs) (a, k) =
      ground (arith, removed-ids now rs k, fresh-removed now r.link.id rs a)

  some_of-ids :
      (id : Text) (rs : List LinkRow)
      → some_of (text_eq id) (map (λ (r : LinkRow). r.link.id) rs)
        ≡ some_of (λ (r : LinkRow). text_eq id r.link.id) rs
  some_of-ids id [] = refl
  some_of-ids id (r ∷ rs) = ground (arith, some_of-ids id rs)

  pub length-ids : (rs : List LinkRow) → length (map (λ (r : LinkRow). r.link.id) rs) ≡ length rs
  length-ids [] = refl
  length-ids (r ∷ rs) = ground (arith, length-ids rs)

  -- The cascade removes the sessions of the account that the loop removes.
  pub cascade-own :
      (now : ℕ) (gone : List LinkRow) (xs : List SessionRow)
      → own_sessions acc (
          keep
            (λ x. not (some_of (λ r. text_eq x.session.link_id r.link.id) gone))
            (keep (λ x. not (stale_session acc now x)) xs))
        ≡ keep
            (λ (x : ShareSession).
              session_live now x
              && not (some_of (text_eq x.link_id) (map (λ (r : LinkRow). r.link.id) gone)))
            (own_sessions acc xs)
  cascade-own now gone [] = refl
  cascade-own now gone (x ∷ xs) =
      ground (arith, cascade-own now gone xs, some_of-ids x.session.link_id gone)

  -- The rows inserted come after those of the account.
  pub insert-own :
      (ran : ℕ → Bool) (i : ℕ) (ls : List ShareLink) (rs rows : List LinkRow)
      → insert_links acc ran i ls rs ≡ some rows
      → own acc rows ≡ own acc rs ++ ls
  unfolding insert_links
  insert-own ran i [] rs rows h = ground (arith, append-nil (own acc rs))
  insert-own ran i (l ∷ ls) rs rows h = ground (
    arith,
    insert-own ran (suc i) ls (rs ++ (row_of acc l ∷ [])) rows,
    own-append rs (row_of acc l ∷ []),
    append_assoc (own acc rs) (l ∷ []) ls,
    text_eq_refl acc,
  )

  -- No row of another account has the id that a session of the account refers to.
  abbrev pub foreign : SessionRow → LinkRow → Bool
  foreign x r = text_eq r.link.id x.session.link_id && not (mine acc r)

  absent-foreign :
      (x : SessionRow) (rs : List LinkRow)
      → All (λ r. text_eq r.link.id x.session.link_id ≡ false) rs
      → All (λ r. foreign x r ≡ false) rs × (some_of (link_of x) rs ≡ false)
  absent-foreign x [] h = (tt, refl)
  absent-foreign x (r ∷ rs) (h, k) = ground (arith, absent-foreign x rs k)

  pub linked-foreign :
      (x : SessionRow) (rs : List LinkRow)
      → Keyed rs
      → some_of (link_of x) rs ≡ true
      → my_session acc x ≡ true
      → All (λ r. foreign x r ≡ false) rs
  linked-foreign x [] k h m = tt
  linked-foreign x (r ∷ rs) (a, k) h m = elim (Bool-cases (text_eq r.link.id x.session.link_id)) [
    | inl e ↦
        let v = absent-foreign x rs (
          subst (λ (i : Text). All (λ (y : LinkRow). text_eq y.link.id i ≡ false) rs)
            (text_eq→eq r.link.id x.session.link_id e) a) in
        (
          ground (
            arith,
            v.1,
            text_eq→eq r.account_id x.account_id,
            text_eq→eq x.account_id acc,
            text_eq_refl acc,
          ),
          v.0,
        )
    | inr e ↦ ground (arith, linked-foreign x rs k)
  ]

  find-foreign :
      (x : SessionRow) (now : ℕ) (rs : List LinkRow)
      → All (λ r. foreign x r ≡ false) rs
      → find (λ r. text_eq r.link.id x.session.link_id && live now r.link) rs
        ≡ find (λ r. mine acc r && of_session now x.session r.link) rs
  unfolding find live
  find-foreign x now [] h = refl
  find-foreign x now (r ∷ rs) (h, k) = ground (arith, find-foreign x now rs k)

  -- The JOIN is the two loops of ResolveSession.
  pub join-own :
      (hash : Text → Text) (now : ℕ) (digest : Text) (rs : List LinkRow) (xs : List SessionRow)
      → Keyed rs
      → Linked rs xs
      → join acc hash now digest rs xs
        ≡ resolve_sessions hash now digest (own acc rs) (own_sessions acc xs)
  unfolding join resolve_sessions
  join-own hash now digest rs [] k h = refl
  join-own hash now digest rs (x ∷ xs) k (h, hs) = ground (
    arith,
    join-own hash now digest rs xs k hs,
    linked-foreign x rs k h,
    find-foreign x now rs,
    find-own (of_session now x.session) rs,
  )
