-- ===== src/ShareLinks/Database.antt =====
-- modules/mail/backend/share_links.go: what ShareLinkStore does with a database, for the account
-- `acc`. A table is the list of its rows in the order of their insertion. A statement reads the
-- clock of the database, `NOW()`, where the program writes its own.
use running_tools.Prelude.{
  ℕ, suc, Bool, true, false, not, ◌&&◌, ◌||◌, Option, none, some, List, [], ◌∷◌, ◌++◌, map, ltb,
  leb, if◌then◌else◌, is_none, is_empty, keep, some_of, length, Result, ok, err, find, modify,
}
use running_tools.Prelude.Int.{ℤ, pos_part, above}
use running_tools.Prelude.Text.{Text, text_eq, trim_space}
use running_tools.ShareLinks.Types.{
  ShareLink, ShareSession, Input, Created, PublicLink, ShareError, no_alias, bad_expiry,
  not_written,
}
use running_tools.ShareLinks.Store.{
  share_alias, live, public_share_link, used, session_live, session_expiry,
}
use running_tools.ShareLinks.Access.{
  make_links, bad_lifetime, expiry, answers, new_session, first_item,
}

-- A row of mail_share_links.
pub record LinkRow : Type 0 where
  pub account_id : Text
  pub link : ShareLink

-- A row of mail_share_sessions.
pub record SessionRow : Type 0 where
  pub account_id : Text
  pub session : ShareSession

pub record Tables : Type 0 where
  pub links : List LinkRow
  pub sessions : List SessionRow

-- One call: the clock of the program, the clock of the database, and whether the statement number
-- i of the call runs.
pub record DbCall : Type 0 where
  pub now : ℕ
  pub db_now : ℕ
  pub ran : ℕ → Bool

-- ORDER BY created_at DESC
unfoldable pub insert_newest : ShareLink → List ShareLink → List ShareLink
insert_newest l [] = l ∷ []
insert_newest l (x ∷ xs) =
    let rest = insert_newest l xs in if leb x.created_at l.created_at then l ∷ x ∷ xs else x ∷ rest

unfoldable pub newest_first : List ShareLink → List ShareLink
unfolding insert_newest
newest_first [] = []
newest_first (l ∷ ls) = insert_newest l (newest_first ls)

-- A row that breaks a unique constraint: the primary key `id`, or `token_hash`.
abbrev pub clash : ShareLink → LinkRow → Bool
clash l r = text_eq r.link.id l.id || text_eq r.link.token_hash l.token_hash

abbrev pub session_clash : ShareSession → SessionRow → Bool
session_clash x r = text_eq r.session.token_hash x.token_hash

module _ (acc : Text) where
  abbrev pub mine : LinkRow → Bool
  mine r = text_eq r.account_id acc

  abbrev pub my_session : SessionRow → Bool
  my_session r = text_eq r.account_id acc

  -- The links of the account.
  abbrev pub own : List LinkRow → List ShareLink
  own [] = []
  own (r ∷ rs) = if mine r then r.link ∷ own rs else own rs

  abbrev pub own_sessions : List SessionRow → List ShareSession
  own_sessions [] = []
  own_sessions (r ∷ rs) = if my_session r then r.session ∷ own_sessions rs else own_sessions rs

  unfoldable pub db_list : DbCall → Text → Tables → List PublicLink
  unfolding newest_first
  db_list c alias t =
      if c.ran 0
      then map (public_share_link c.now)
          (newest_first (keep (λ l. text_eq l.alias (share_alias alias)) (own t.links)))
      else []

  abbrev pub to_revoke : (ShareLink → Bool) → LinkRow → Bool
  to_revoke p r = mine r && p r.link && is_none r.link.revoked_at

  abbrev pub revoked : ℕ → LinkRow → LinkRow
  revoked now r = record r { link = record r.link { revoked_at = some now } }

  -- The UPDATE of Revoke and RevokeForAlias, and the number of rows that it affects.
  unfoldable pub db_revoke_where : (ShareLink → Bool) → DbCall → Tables → Tables × ℕ
  db_revoke_where p c t =
      if c.ran 0
      then (
        record t { links = modify (to_revoke p) (revoked c.now) t.links },
        length (keep (to_revoke p) t.links),
      )
      else (t, 0)

  unfoldable pub db_revoke : DbCall → Text → Tables → Tables × Bool
  unfolding db_revoke_where
  db_revoke c id t = let r = db_revoke_where (λ l. text_eq l.id id) c t in (r.0, ltb 0 r.1)

  unfoldable pub db_revoke_for_alias : DbCall → Text → Tables → Tables × ℕ
  unfolding db_revoke_where
  db_revoke_for_alias c alias t = db_revoke_where (λ l. text_eq l.alias (share_alias alias)) c t

  abbrev pub row_of : ShareLink → LinkRow
  row_of l = record { account_id = acc; link = l }

  abbrev pub session_row : ShareSession → SessionRow
  session_row x = record { account_id = acc; session = x }

  -- The INSERT statements of CreateBatch in their transaction, from statement `i` on.
  unfoldable pub insert_links :
      (ℕ → Bool) → ℕ → List ShareLink → List LinkRow → Option (List LinkRow)
  insert_links ran i [] rows = some rows
  insert_links ran i (l ∷ ls) rows = elim (not (ran i) || some_of (clash l) rows) [
    | true ↦ none
    | false ↦ insert_links ran (suc i) ls (rows ++ (row_of l ∷ []))
  ]

  -- The rows that UPDATE ... SET last_used_at changes.
  abbrev pub with_id : Text → LinkRow → Bool
  with_id id r = mine r && text_eq r.link.id id

  abbrev pub used_row : ℕ → LinkRow → LinkRow
  used_row now r = record r { link = used now r.link }

  abbrev pub stale_session : ℕ → SessionRow → Bool
  stale_session now r = my_session r && not (session_live now r.session)

  abbrev pub inactive : ℕ → LinkRow → Bool
  inactive now r = mine r && not (live now r.link)

  -- The links that DELETE removes, and the sessions that ON DELETE CASCADE removes with them.
  unfoldable pub db_clear_inactive : DbCall → Tables → Tables × Result ShareError ℕ
  db_clear_inactive c t =
      let gone = keep (inactive c.db_now) t.links in
      if c.ran 0 && c.ran 1 && c.ran 2
      then (
        record {
          links = keep (λ r. not (inactive c.db_now r)) t.links;
          sessions =
              keep (λ x. not (some_of (λ r. text_eq x.session.link_id r.link.id) gone))
                (keep (λ x. not (stale_session c.db_now x)) t.sessions);
        },
        ok (length gone),
      )
      else (t, err not_written)

  module _ (hash : Text → Text) where
    -- Statement 0 is the COMMIT.
    unfoldable pub db_create_batch :
        DbCall
        → (ℕ → Option Text)
        → (ℕ → Text)
        → List Input
        → Option ℤ
        → Tables
        → Tables × Result ShareError (List Created)
    unfolding insert_links
    db_create_batch c token id inputs expires_in t =
        let made = make_links hash c.now (expiry hash c.now expires_in) token id 0 inputs in
        if is_empty inputs
        then (t, err no_alias)
        else if bad_lifetime hash expires_in
        then (t, err bad_expiry)
        else elim made [
          | err x ↦ (t, err x)
          | ok ls ↦ elim (insert_links c.ran 1 (map (λ p. p.0) ls) t.links) [
            | none ↦ (t, err not_written)
            | some rows ↦
                if c.ran 0
                then (record t { links = rows }, ok (answers hash inputs ls))
                else (t, err not_written)
          ]
        ]

    unfoldable db_create :
        DbCall
        → (ℕ → Option Text)
        → (ℕ → Text)
        → Text
        → Option ℤ
        → Tables
        → Tables × Result ShareError Created
    db_create c token id alias expires_in t =
        let inputs : List Input = record { alias = alias; alias_created_at = 0 } ∷ [] in
        let r = db_create_batch c token id inputs expires_in t in (r.0, first_item hash r.1)

    -- The WHERE clause of resolveLocked.
    abbrev pub opening : ℕ → Text → LinkRow → Bool
    opening db_now digest r = mine r && text_eq r.link.token_hash digest && live db_now r.link

    unfoldable pub db_resolve : DbCall → Text → Tables → Tables × Option ShareLink
    db_resolve c token t =
        if is_empty (trim_space token) || not (c.ran 0)
        then (t, none)
        else elim (find (opening c.db_now (hash (trim_space token))) t.links) [
          | none ↦ (t, none)
          | some r ↦ (
            if c.ran 1
                then record t { links = modify (with_id r.link.id) (used_row c.now) t.links }
                else t,
            some (used c.now r.link),
          )
        ]

    -- The DELETE and the INSERT of CreateSession: a session needs a link (REFERENCES) and a
    -- digest of its own (PRIMARY KEY).
    unfoldable pub db_open_session :
        DbCall → ℕ → Text → ShareLink → Tables → Tables × Option (Text × ShareLink)
    db_open_session c max_age t l tables =
        let expires = session_expiry c.now max_age l.expires_at in
        let x = new_session hash t l.id expires in
        let kept =
          if c.ran 0
          then keep (λ r. not (stale_session c.db_now r)) tables.sessions
          else tables.sessions in
        if not (ltb c.now expires)
        then (tables, none)
        else if c.ran 1
            && not (some_of (session_clash x) kept)
            && some_of (λ r. text_eq r.link.id l.id) tables.links
        then (record tables { sessions = kept ++ (session_row x ∷ []) }, some (t, l))
        else (record tables { sessions = kept }, none)

    -- `c` is the part of resolveLocked, `c'` what comes after it.
    unfoldable pub db_create_session :
        DbCall → DbCall → Option Text → Text → ℤ → Tables → Tables × Option (Text × ShareLink)
    unfolding db_resolve db_open_session
    db_create_session c c' drawn token max_age t =
        let r = db_resolve c token t in
        if not (above max_age 0) then (t, none) else elim r.1 [
          | none ↦ (r.0, none)
          | some l ↦ elim drawn [
            | none ↦ (r.0, none)
            | some s ↦ db_open_session c' (pos_part max_age) s l r.0
          ]
        ]

    -- The first row of the JOIN of ResolveSession.
    unfoldable pub join : ℕ → Text → List LinkRow → List SessionRow → Option ShareLink
    join now digest ls [] = none
    join now digest ls (x ∷ xs) =
        let rest = join now digest ls xs in
        if my_session x && text_eq x.session.token_hash digest && session_live now x.session
        then elim (find (λ r. text_eq r.link.id x.session.link_id && live now r.link) ls) [
          | none ↦ rest
          | some r ↦ some r.link
        ]
        else rest

    unfoldable pub db_resolve_session : DbCall → Text → Tables → Option ShareLink
    unfolding join
    db_resolve_session c token t =
        if is_empty (trim_space token) || not (c.ran 0)
        then none
        else join c.db_now (hash token) t.links t.sessions
