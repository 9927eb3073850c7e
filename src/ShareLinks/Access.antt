-- ===== src/ShareLinks/Access.antt =====
-- modules/mail/backend/share_links.go: what ShareLinkStore does with tokens, with no database.
-- `hash` stands for hashShareToken, the SHA-256 digest of a token in hexadecimal.
use running_tools.Prelude.{
  ℕ, suc, ◌+◌, ◌*◌, Bool, false, not, ◌&&◌, ◌||◌, Option, none, some, List, [], ◌∷◌, ◌++◌, map, ltb,
  if◌then◌else◌, is_empty, keep, Result, ok, err,
}
use running_tools.Prelude.Int.{ℤ, pos_part, below, above}
use running_tools.Prelude.Text.{Text, text_eq, trim_space}
use running_tools.Prelude.Clock.{second, Env}
use running_tools.ShareLinks.Types.{
  ShareLink, ShareSession, Store, Input, Created, ShareError, no_alias, bad_expiry, blank_alias,
  no_token, not_written,
}
use running_tools.ShareLinks.Store.{
  load, save, share_alias, find_link, mark_used, used, opens, session_live, of_session,
  session_expiry,
}

module _ (hash : Text → Text) where
  -- The loop of CreateBatch over its inputs. Its call number i of newShareToken gives `token i`,
  -- none where the random source fails, and its call number i of newID gives `id i`.
  unfoldable pub make_links :
      ℕ
      → Option ℕ
      → (ℕ → Option Text)
      → (ℕ → Text)
      → ℕ
      → List Input
      → Result ShareError (List (ShareLink × Text))
  make_links now expires token id i [] = ok []
  make_links now expires token id i (x ∷ xs) =
      let rest = make_links now expires token id (suc i) xs in
      if is_empty (share_alias x.alias) then err blank_alias else elim (token i) [
        | none ↦ err no_token
        | some t ↦ elim rest [
          | err y ↦ err y
          | ok ls ↦ ok (
              (
                record {
                  id = id i;
                  alias = share_alias x.alias;
                  token_hash = hash t;
                  created_at = now;
                  expires_at = expires;
                  last_used_at = none;
                  revoked_at = none;
                },
                t,
              )
              ∷ ls)
        ]
      ]

  unfoldable pub bad_lifetime : Option ℤ → Bool
  bad_lifetime none = false
  bad_lifetime (some v) = below v (5 * 60) || above v (365 * 24 * 3600)

  unfoldable pub expiry : ℕ → Option ℤ → Option ℕ
  expiry now none = none
  expiry now (some v) = some (now + pos_part v * second)

  unfoldable pub answers : List Input → List (ShareLink × Text) → List Created
  answers (x ∷ xs) ((l, t) ∷ ls) =
      record {
        id = l.id;
        alias = l.alias;
        created_at = l.created_at;
        expires_at = l.expires_at;
        share_email = l.alias;
        share_token = t;
        alias_created_at = if ltb 0 x.alias_created_at then some x.alias_created_at else none;
      }
      ∷ answers xs ls
  answers [] ls = []
  answers (x ∷ xs) [] = []

  unfoldable pub create_batch :
      Env
      → (ℕ → Option Text)
      → (ℕ → Text)
      → List Input
      → Option ℤ
      → Store
      → Store × Result ShareError (List Created)
  create_batch e token id inputs expires_in s =
      let made = make_links e.now (expiry e.now expires_in) token id 0 inputs in
      if is_empty inputs
      then (s, err no_alias)
      else if bad_lifetime expires_in
      then (s, err bad_expiry)
      else elim made [
        | err x ↦ (s, err x)
        | ok ls ↦ (
          save e (record (load s) { links = (load s).links ++ map (λ p. p.0) ls }) s,
          if e.saved then ok (answers inputs ls) else err not_written,
        )
      ]

  -- `items[0]`: a batch of one that is made has one item.
  unfoldable pub first_item : Result ShareError (List Created) → Result ShareError Created
  first_item (err x) = err x
  first_item (ok []) = err no_alias
  first_item (ok (x ∷ xs)) = ok x

  unfoldable pub create :
      Env
      → (ℕ → Option Text)
      → (ℕ → Text)
      → Text
      → Option ℤ
      → Store
      → Store × Result ShareError Created
  create e token id alias expires_in s =
      let inputs : List Input = record { alias = alias; alias_created_at = 0 } ∷ [] in
      let r = create_batch e token id inputs expires_in s in (r.0, first_item r.1)

  unfoldable pub resolve : Env → Text → Store → Store × Option ShareLink
  resolve e token s =
      let st = load s in
      let p = opens e.now (hash (trim_space token)) in
      if is_empty (trim_space token) then (s, none) else elim (find_link p st.links) [
        | none ↦ (s, none)
        | some l ↦
            (save e (record st { links = mark_used p e.now st.links }) s, some (used e.now l))
      ]

  abbrev pub new_session : Text → Text → ℕ → ShareSession
  new_session t id expires = record { token_hash = hash t; link_id = id; expires_at = expires }

  -- The part of CreateSession after the token is drawn.
  unfoldable pub open_session :
      Env → ℕ → Text → ShareLink → Store → Store × Option (Text × ShareLink)
  open_session e max_age t l s =
      let expires = session_expiry e.now max_age l.expires_at in
      let x = new_session t l.id expires in
      let st = record (load s) {
        sessions = keep (session_live e.now) (load s).sessions ++ (x ∷ []);
      } in
      if ltb e.now expires then (save e st s, if e.saved then some (t, l) else none) else (s, none)

  -- CreateSession: `e` at the call of resolveLocked, `e'` after it, and `drawn` what newShareToken
  -- gives.
  unfoldable pub create_session :
      Env → Env → Option Text → Text → ℤ → Store → Store × Option (Text × ShareLink)
  create_session e e' drawn token max_age s =
      let r = resolve e token s in
      if not (above max_age 0) then (s, none) else elim r.1 [
        | none ↦ (r.0, none)
        | some l ↦ elim drawn [
          | none ↦ (r.0, none)
          | some t ↦ open_session e' (pos_part max_age) t l r.0
        ]
      ]

  -- The two loops of ResolveSession.
  unfoldable pub resolve_sessions : ℕ → Text → List ShareLink → List ShareSession → Option ShareLink
  resolve_sessions now digest ls [] = none
  resolve_sessions now digest ls (x ∷ xs) =
      let rest = resolve_sessions now digest ls xs in
      if text_eq x.token_hash digest && session_live now x
      then elim (find_link (of_session now x) ls) [ none ↦ rest | some l ↦ some l ]
      else rest

  unfoldable pub resolve_session : ℕ → Text → Store → Option ShareLink
  resolve_session now token s =
      let st = load s in
      if is_empty (trim_space token)
      then none
      else resolve_sessions now (hash token) st.links st.sessions
