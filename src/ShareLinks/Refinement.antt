-- ===== src/ShareLinks/Refinement.antt =====
-- modules/mail/backend/share_links.go: sequences of calls on the tables and on the JSON file.
use running_tools.Prelude.{
  ℕ, Bool, true, not, ◌&&◌, Option, none, some, List, [], ◌∷◌, arith, ◌≡◌, refl, Result, some_of,
  find, Option-cases, inl, inr, ap,
}
use running_tools.Prelude.Int.{ℤ, pos_part}
use running_tools.Prelude.Text.{Text, text_eq, trim_space}
use running_tools.ShareLinks.Types.{ShareLink, Store, Input, Created, ShareError}
use running_tools.ShareLinks.Store.{load, revoke, revoke_for_alias, clear_inactive, share_alias}
use running_tools.ShareLinks.Access.{
  make_links, expiry, create_batch, resolve, create_session, resolve_session,
}
use running_tools.ShareLinks.Database.{
  Tables, opening, db_revoke, db_revoke_for_alias, db_clear_inactive, db_create_batch, db_resolve,
  db_create_session, db_resolve_session,
}
use running_tools.ShareLinks.Views.{view}
use running_tools.ShareLinks.Integrity.{
  revoke_where-IsKeyed, clear_inactive-IsKeyed, create_batch-IsKeyed, resolve-IsKeyed,
  create_session-IsKeyed, resolve-Refers,
}
use running_tools.ShareLinks.Keys.{IsKeyed}
use running_tools.ShareLinks.Steps.{
  env_at, call_at, no_clash, revoke-Same, clear_inactive-Same, resolve-Same, resolve_session-Same,
  create_batch-Same, open_session-Same,
}

-- A call of a method, with what the clock and the random source give it.
pub data Call : Type 0 where
  creating : ℕ → (ℕ → Option Text) → (ℕ → Text) → List Input → Option ℤ → Call
  revoking : ℕ → Text → Call
  revoking_alias : ℕ → Text → Call
  resolving : ℕ → Text → Call
  opening_session : ℕ → Option Text → Text → ℤ → Call
  showing : ℕ → Text → Call
  clearing : ℕ → Call

pub data Answer : Type 0 where
  created : Result ShareError (List Created) → Answer
  changed : Bool → Answer
  counted : ℕ → Answer
  link : Option ShareLink → Answer
  session : Option (Text × ShareLink) → Answer
  cleared : Result ShareError ℕ → Answer

module _ (hash : Text → Text) where
  unfoldable file_call : Call → Store → Store × Answer
  file_call (creating now token id inputs expires_in) s =
      let r = create_batch hash (env_at now) token id inputs expires_in s in (r.0, created r.1)
  file_call (revoking now id) s = let r = revoke (env_at now) id s in (r.0, changed r.1)
  file_call (revoking_alias now alias) s =
      let r = revoke_for_alias (env_at now) alias s in (r.0, counted r.1)
  file_call (resolving now token) s = let r = resolve hash (env_at now) token s in (r.0, link r.1)
  file_call (opening_session now drawn token max_age) s =
      let r = create_session hash (env_at now) (env_at now) drawn token max_age s in
      (r.0, session r.1)
  file_call (showing now token) s = (s, link (resolve_session hash now token s))
  file_call (clearing now) s = let r = clear_inactive (env_at now) s in (r.0, cleared r.1)

  unfoldable pub file_calls : List Call → Store → Store × List Answer
  unfolding file_call
  file_calls [] s = (s, [])
  file_calls (q ∷ qs) s =
      let r = file_call q s in let rest = file_calls qs r.0 in (rest.0, r.1 ∷ rest.1)

  module _ (acc : Text) where
    unfoldable pub db_call : Call → Tables → Tables × Answer
    db_call (creating now token id inputs expires_in) t =
        let r = db_create_batch acc hash (call_at now) token id inputs expires_in t in
        (r.0, created r.1)
    db_call (revoking now id) t = let r = db_revoke acc (call_at now) id t in (r.0, changed r.1)
    db_call (revoking_alias now alias) t =
        let r = db_revoke_for_alias acc (call_at now) alias t in (r.0, counted r.1)
    db_call (resolving now token) t =
        let r = db_resolve acc hash (call_at now) token t in (r.0, link r.1)
    db_call (opening_session now drawn token max_age) t =
        let r = db_create_session acc hash (call_at now) (call_at now) drawn token max_age t in
        (r.0, session r.1)
    db_call (showing now token) t = (t, link (db_resolve_session acc hash (call_at now) token t))
    db_call (clearing now) t = let r = db_clear_inactive acc (call_at now) t in (r.0, cleared r.1)

    unfoldable pub db_calls : List Call → Tables → Tables × List Answer
    unfolding db_call
    db_calls [] t = (t, [])
    db_calls (q ∷ qs) t =
        let r = db_call q t in let rest = db_calls qs r.0 in (rest.0, r.1 ∷ rest.1)

    -- The ids and digests drawn are new in the tables.
    unfoldable pub fresh : Call → Tables → Bool
    fresh (creating now token id inputs expires_in) t =
        no_clash (make_links hash now (expiry hash now expires_in) token id 0 inputs) acc t
    fresh (opening_session now none token max_age) t = true
    fresh (opening_session now (some drawn) token max_age) t =
        not (some_of (λ x. text_eq x.session.token_hash (hash drawn)) t.sessions)
    fresh (revoking now id) t = true
    fresh (revoking_alias now alias) t = true
    fresh (resolving now token) t = true
    fresh (showing now token) t = true
    fresh (clearing now) t = true

    unfoldable pub all_fresh : List Call → Tables → Bool
    unfolding fresh db_call
    all_fresh [] t = true
    all_fresh (q ∷ qs) t = let rest = all_fresh qs (db_call q t).0 in fresh q t && rest

    call-IsKeyed : (q : Call) (t : Tables) → IsKeyed t → IsKeyed (db_call q t).0
    unfolding db_call db_revoke db_revoke_for_alias
    call-IsKeyed (creating now token id inputs expires_in) t k =
        create_batch-IsKeyed acc hash (call_at now) token id inputs expires_in t k
    call-IsKeyed (revoking now id) t k =
        revoke_where-IsKeyed acc (λ l. text_eq l.id id) (call_at now) t k
    call-IsKeyed (revoking_alias now alias) t k =
        revoke_where-IsKeyed acc (λ l. text_eq l.alias (share_alias alias)) (call_at now) t k
    call-IsKeyed (resolving now token) t k = resolve-IsKeyed acc hash (call_at now) token t k
    call-IsKeyed (opening_session now drawn token max_age) t k =
        create_session-IsKeyed acc hash (call_at now) (call_at now) drawn token max_age t k
    call-IsKeyed (showing now token) t k = k
    call-IsKeyed (clearing now) t k = clear_inactive-IsKeyed acc (call_at now) t k

    -- From any tables whose keys hold, every sequence of calls leaves tables whose keys hold.
    calls-IsKeyed : (qs : List Call) (t : Tables) → IsKeyed t → IsKeyed (db_calls qs t).0
    unfolding db_calls
    calls-IsKeyed [] t k = k
    calls-IsKeyed (q ∷ qs) t k = calls-IsKeyed qs (db_call q t).0 (call-IsKeyed q t k)

    abbrev Agree : Tables × Answer → Store × Answer → Type 0
    Agree r v = (view acc r.0 ≡ load v.0) × (r.1 ≡ v.1)

    sessions-resolve :
        (now : ℕ) (token : Text) (t : Tables)
        → (db_resolve acc hash (call_at now) token t).0.sessions ≡ t.sessions
    unfolding db_resolve
    sessions-resolve now token t =
        let digest = hash (trim_space token) in
        elim (Option-cases (find (opening acc hash now digest) t.links)) [
          | inl e ↦ ground arith
          | inr (r, e) ↦ ground arith
        ]

    db_session-file_session :
        (now : ℕ) (drawn : Option Text) (token : Text) (max_age : ℤ) (t : Tables) (s : Store)
        → IsKeyed t
        → view acc t ≡ load s
        → fresh (opening_session now drawn token max_age) t ≡ true
        → Agree
            (db_call (opening_session now drawn token max_age) t)
            (file_call (opening_session now drawn token max_age) s)
    unfolding db_call file_call fresh db_create_session create_session
    db_session-file_session now none token max_age t s k h f =
        let v =
          resolve-Same acc now t s hash token (ap (λ st. st.links) h, ap (λ st. st.sessions) h) k in
        elim (Option-cases (db_resolve acc hash (call_at now) token t).1) [
          | inl e ↦ ground arith
          | inr (l, e) ↦ ground arith
        ]
    db_session-file_session now (some d) token max_age t s k h f =
        let r = db_resolve acc hash (call_at now) token t in
        let v =
          resolve-Same acc now t s hash token (ap (λ st. st.links) h, ap (λ st. st.sessions) h) k in
        elim (Option-cases r.1) [
          | inl e ↦ ground arith
          | inr (l, e) ↦ ground (
            arith,
            sessions-resolve now token t,
            open_session-Same acc now r.0 (resolve hash (env_at now) token s).0 hash
                (pos_part max_age) d l,
            resolve-Refers acc hash (call_at now) token t l e,
          )
        ]

    db_call-file_call :
        (q : Call) (t : Tables) (s : Store)
        → IsKeyed t
        → view acc t ≡ load s
        → fresh q t ≡ true
        → Agree (db_call q t) (file_call q s)
    unfolding db_call file_call fresh db_revoke revoke db_revoke_for_alias revoke_for_alias
    db_call-file_call (creating now token id inputs expires_in) t s k h f =
        ground (arith, create_batch-Same acc now t s hash token id inputs expires_in)
    db_call-file_call (revoking now id) t s k h f =
        ground (arith, revoke-Same acc now t s (λ l. text_eq l.id id))
    db_call-file_call (revoking_alias now alias) t s k h f =
        ground (arith, revoke-Same acc now t s (λ l. text_eq l.alias (share_alias alias)))
    db_call-file_call (resolving now token) t s k h f =
        ground (arith, resolve-Same acc now t s hash token)
    db_call-file_call (opening_session now drawn token max_age) t s k h f =
        db_session-file_session now drawn token max_age t s k h f
    db_call-file_call (showing now token) t s k h f =
        ground (arith, resolve_session-Same acc now t s hash token)
    db_call-file_call (clearing now) t s k h f = ground (arith, clear_inactive-Same acc now t s)

    -- Whatever sequence of calls of CreateBatch, Revoke, RevokeForAlias, Resolve, CreateSession,
    -- ResolveSession and ClearInactive is made, the tables give the answers that the JSON file
    -- gives, and in the end the rows of the account are what the file holds: where they are so at
    -- first, the keys of the tables hold, every write succeeds, the two clocks agree, and the ids
    -- and digests that the calls draw are new in the tables.
    pub db_calls-file_calls :
        (qs : List Call) (t : Tables) (s : Store)
        → IsKeyed t
        → view acc t ≡ load s
        → all_fresh qs t ≡ true
        → (view acc (db_calls qs t).0 ≡ load (file_calls qs s).0)
          × ((db_calls qs t).1 ≡ (file_calls qs s).1)
    unfolding db_calls file_calls all_fresh
    db_calls-file_calls [] t s k h f = (h, refl)
    db_calls-file_calls (q ∷ qs) t s k h f = ground (
      arith,
      db_call-file_call q t s k h,
      db_calls-file_calls qs (db_call q t).0 (file_call q s).0 (call-IsKeyed q t k),
    )
