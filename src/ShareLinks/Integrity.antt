-- ===== src/ShareLinks/Integrity.antt =====
-- modules/mail/backend/share_links.go: the keys of the two tables under every operation.
use running_tools.Prelude.{
  ℕ, Bool, true, not, ◌&&◌, Option, some, List, [], ◌∷◌, ◌++◌, keep, some_of, find, modify, arith,
  ◌≡◌, refl, map, Result-cases, Option-cases, Bool-cases, inl, inr,
}
use running_tools.Prelude.Int.{ℤ, pos_part}
use running_tools.Prelude.Text.{Text, text_eq, text_eq_refl, trim_space}
use running_tools.ShareLinks.Types.{ShareLink, Input}
use running_tools.ShareLinks.Store.{live, session_expiry}
use running_tools.ShareLinks.Access.{make_links, expiry, new_session}
use running_tools.ShareLinks.Database.{
  LinkRow, SessionRow, Tables, DbCall, mine, to_revoke, revoked, session_row, insert_links, with_id,
  used_row, stale_session, inactive, opening, db_revoke_where, db_clear_inactive, db_create_batch,
  db_resolve, db_open_session, db_create_session,
}
use running_tools.ShareLinks.Views.{link_of, Linked}
use running_tools.ShareLinks.Keys.{
  IsKeyed, modify-Keyed, link_of-modify, modify-Linked, keep-All, keep-Keyed, cascade-Linked,
  insert_links-IsKeyed,
}

module _ (acc : Text) where
  -- RevokeForAlias, Revoke.
  pub revoke_where-IsKeyed :
      (p : ShareLink → Bool) (c : DbCall) (t : Tables)
      → IsKeyed t
      → IsKeyed (db_revoke_where acc p c t).0
  unfolding db_revoke_where
  revoke_where-IsKeyed p c t (k, l) =
      let f = revoked acc c.now in
      let q = to_revoke acc p in
      ground (
        arith,
        modify-Keyed q f (λ r. (refl, refl)) t.links k,
        modify-Linked q f (λ r. (refl, refl)) t.links t.sessions l,
      )

  pub clear_inactive-IsKeyed :
      (c : DbCall) (t : Tables) → IsKeyed t → IsKeyed (db_clear_inactive acc c t).0
  unfolding db_clear_inactive
  clear_inactive-IsKeyed c t (k, l) =
      let q = inactive acc c.db_now in
      let live_ones = keep (λ x. not (stale_session acc c.db_now x)) t.sessions in
      ground (
        arith,
        keep-Keyed (λ r. not (q r)) t.links k,
        cascade-Linked q t.links live_ones (
            keep-All (λ x. some_of (link_of x) t.links ≡ true)
              (λ x. not (stale_session acc c.db_now x)) t.sessions l),
      )

  pub create_batch-IsKeyed :
      (hash : Text → Text) (c : DbCall) (token : ℕ → Option Text) (id : ℕ → Text)
      (inputs : List Input) (expires_in : Option ℤ) (t : Tables)
      → IsKeyed t
      → IsKeyed (db_create_batch acc hash c token id inputs expires_in t).0
  unfolding db_create_batch
  create_batch-IsKeyed hash c token id inputs expires_in t k =
      elim (Result-cases (make_links hash c.now (expiry hash c.now expires_in) token id 0 inputs)) [
        | inl (ls, e) ↦ elim (Option-cases (insert_links acc c.ran 1 (map (λ p. p.0) ls) t.links)) [
          | inl f ↦ ground arith
          | inr (rows, f) ↦ ground (
            arith,
            insert_links-IsKeyed acc c.ran 1 (map (λ p. p.0) ls) t.links rows t.sessions k,
          )
        ]
        | inr (x, e) ↦ ground arith
      ]

  -- A row that a query finds for the account is there for a session to refer to.
  find-link_of :
      (p : LinkRow → Bool) (rs : List LinkRow) (r : LinkRow)
      → find (λ y. mine acc y && p y) rs ≡ some r
      → some_of (λ y. text_eq y.link.id r.link.id && text_eq y.account_id acc) rs ≡ true
  unfolding find
  find-link_of p [] r h = ground arith
  find-link_of p (y ∷ rs) r h = ground (arith, find-link_of p rs r, text_eq_refl y.link.id)

  use-IsKeyed :
      (now : ℕ) (t : Tables) (id : Text)
      → IsKeyed t
      → IsKeyed (record t { links = modify (with_id acc id) (used_row acc now) t.links })
  use-IsKeyed now t id (k, l) =
      let f = used_row acc now in
      let q = with_id acc id in
      (
        modify-Keyed q f (λ r. (refl, refl)) t.links k,
        modify-Linked q f (λ r. (refl, refl)) t.links t.sessions l,
      )

  abbrev pub Refers : ShareLink → Tables → Type 0
  Refers l t = some_of (λ y. text_eq y.link.id l.id && text_eq y.account_id acc) t.links ≡ true

  -- What Resolve finds stays a row of the account.
  pub resolve-Refers :
      (hash : Text → Text) (c : DbCall) (token : Text) (t : Tables) (l : ShareLink)
      → (db_resolve acc hash c token t).1 ≡ some l
      → Refers l (db_resolve acc hash c token t).0
  unfolding db_resolve
  resolve-Refers hash c token t l h =
      let digest = hash (trim_space token) in
      elim (Option-cases (find (opening acc hash c.db_now digest) t.links)) [
        | inl e ↦ ground arith
        | inr (r, e) ↦
            let x : SessionRow = record {
              account_id = acc;
              session = record { token_hash = []; link_id = r.link.id; expires_at = 0 };
            } in
            ground (
              arith,
              find-link_of (λ y. text_eq y.link.token_hash digest && live c.db_now y.link) t.links
                  r,
              link_of-modify (with_id acc r.link.id) (used_row acc c.now) (λ y. (refl, refl)) x
                  t.links,
            )
      ]

  pub resolve-IsKeyed :
      (hash : Text → Text) (c : DbCall) (token : Text) (t : Tables)
      → IsKeyed t
      → IsKeyed (db_resolve acc hash c token t).0
  unfolding db_resolve
  resolve-IsKeyed hash c token t k =
      elim (Option-cases (find (opening acc hash c.db_now (hash (trim_space token))) t.links)) [
        | inl e ↦ ground arith
        | inr (r, e) ↦ ground (arith, use-IsKeyed c.now t r.link.id k)
      ]

  append_session-Linked :
      (rs : List LinkRow) (xs : List SessionRow) (x : SessionRow)
      → Linked rs xs
      → some_of (link_of x) rs ≡ true
      → Linked rs (xs ++ (x ∷ []))
  append_session-Linked rs [] x l h = (h, tt)
  append_session-Linked rs (y ∷ xs) x (a, l) h = (a, append_session-Linked rs xs x l h)

  open_session-IsKeyed :
      (hash : Text → Text) (c : DbCall) (max_age : ℕ) (s : Text) (l : ShareLink) (t : Tables)
      → IsKeyed t
      → Refers l t
      → IsKeyed (db_open_session acc hash c max_age s l t).0
  unfolding db_open_session
  open_session-IsKeyed hash c max_age s l t (k, v) h =
      let q = (λ (x : SessionRow). not (stale_session acc c.db_now x)) in
      let x =
        session_row acc (new_session hash s l.id (session_expiry c.now max_age l.expires_at)) in
      let kept : Linked t.links (keep q t.sessions) =
        keep-All (λ y. some_of (link_of y) t.links ≡ true) q t.sessions v in
      elim (Bool-cases (c.ran 0)) [
        | inl e ↦ ground (arith, kept, append_session-Linked t.links (keep q t.sessions) x kept h)
        | inr e ↦ ground (arith, append_session-Linked t.links t.sessions x v h)
      ]

  pub create_session-IsKeyed :
      (hash : Text → Text) (c c' : DbCall) (drawn : Option Text) (token : Text) (max_age : ℤ)
      (t : Tables)
      → IsKeyed t
      → IsKeyed (db_create_session acc hash c c' drawn token max_age t).0
  unfolding db_create_session
  create_session-IsKeyed hash c c' drawn token max_age t k =
      let r = db_resolve acc hash c token t in
      elim (Option-cases r.1) [
        | inl e ↦ ground (arith, resolve-IsKeyed hash c token t k)
        | inr (l, e) ↦ elim (Option-cases drawn) [
          | inl f ↦ ground (arith, resolve-IsKeyed hash c token t k)
          | inr (s, f) ↦ ground (
            arith,
            open_session-IsKeyed hash c' (pos_part max_age) s l r.0
                (resolve-IsKeyed hash c token t k) (resolve-Refers hash c token t l e),
          )
        ]
      ]
