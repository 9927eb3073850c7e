-- ===== src/ShareLinks/Store.antt =====
-- modules/mail/backend/share_links.go: the operations of ShareLinkStore on its links, with no
-- database.
use running_tools.Prelude.{
  ℕ, suc, ◌+◌, ◌*◌, Bool, true, not, ◌&&◌, Option, none, some, List, [], ◌∷◌, map, ltb,
  if◌then◌else◌, is_none, keep, some_of, length, Result, ok, err,
}
use running_tools.Prelude.Text.{Text, text_eq, trim_space, to_lower}
use running_tools.Prelude.Clock.{second, Env}
use running_tools.ShareLinks.Types.{
  ShareLink, ShareSession, ShareState, File, unreadable, saved_state, legacy_links, Store,
  PublicLink, ShareError, not_written,
}

abbrev read : File → ShareState
read unreadable = record { links = []; sessions = [] }
read (saved_state st) = st
read (legacy_links ls) = record { links = ls; sessions = [] }

abbrev pub load : Store → ShareState
load s = read s.file

abbrev pub save : Env → ShareState → Store → Store
save e st s = if e.saved then record { file = saved_state st } else s

unfoldable pub share_alias : Text → Text
share_alias value = to_lower (trim_space value)

-- `link.RevokedAt == nil && (link.ExpiresAt == nil || *link.ExpiresAt > now)`
unfoldable pub live : ℕ → ShareLink → Bool
live now l = is_none l.revoked_at && elim l.expires_at [ none ↦ true | some at ↦ ltb now at ]

unfoldable pub public_share_link : ℕ → ShareLink → PublicLink
public_share_link now l = record {
  id = l.id;
  alias = l.alias;
  created_at = l.created_at;
  expires_at = l.expires_at;
  last_used_at = l.last_used_at;
  revoked_at = l.revoked_at;
  active = live now l;
}

unfoldable pub list : ℕ → Text → Store → List PublicLink
list now alias s =
    map (public_share_link now) (keep (λ l. text_eq l.alias (share_alias alias)) (load s).links)

-- The loops of Revoke and RevokeForAlias over the links, with the number of links they change.
unfoldable pub revoke_where : (ShareLink → Bool) → ℕ → List ShareLink → List ShareLink × ℕ
revoke_where p now [] = ([], 0)
revoke_where p now (l ∷ ls) =
    let rest = revoke_where p now ls in
    if p l && is_none l.revoked_at
    then (record l { revoked_at = some now } ∷ rest.0, suc rest.1)
    else (l ∷ rest.0, rest.1)

-- The common part of the two: the file is written where a link has changed.
unfoldable pub revoke_links : (ShareLink → Bool) → Env → Store → Store × ℕ
revoke_links p e s =
    let r = revoke_where p e.now (load s).links in
    (if ltb 0 r.1 then save e (record (load s) { links = r.0 }) s else s, r.1)

unfoldable pub revoke : Env → Text → Store → Store × Bool
revoke e id s = let r = revoke_links (λ l. text_eq l.id id) e s in (r.0, ltb 0 r.1)

unfoldable pub revoke_for_alias : Env → Text → Store → Store × ℕ
revoke_for_alias e alias s = revoke_links (λ l. text_eq l.alias (share_alias alias)) e s

-- The first link that a loop finds.
unfoldable pub find_link : (ShareLink → Bool) → List ShareLink → Option ShareLink
find_link p [] = none
find_link p (l ∷ ls) = let rest = find_link p ls in if p l then some l else rest

abbrev pub used : ℕ → ShareLink → ShareLink
used now l = record l { last_used_at = some now }

-- The links once the first one found has `LastUsedAt = &now`.
unfoldable pub mark_used : (ShareLink → Bool) → ℕ → List ShareLink → List ShareLink
mark_used p now [] = []
mark_used p now (l ∷ ls) =
    let rest = mark_used p now ls in if p l then used now l ∷ ls else l ∷ rest

unfoldable pub opens : ℕ → Text → ShareLink → Bool
opens now digest l = text_eq l.token_hash digest && live now l

abbrev pub session_live : ℕ → ShareSession → Bool
session_live now x = ltb now x.expires_at

abbrev pub of_session : ℕ → ShareSession → ShareLink → Bool
of_session now x l = text_eq l.id x.link_id && live now l

-- `min(now + maxAge, *link.ExpiresAt)`
unfoldable pub session_expiry : ℕ → ℕ → Option ℕ → ℕ
session_expiry now max_age none = now + max_age * second
session_expiry now max_age (some at) =
    if ltb at (now + max_age * second) then at else now + max_age * second

-- The ids of a Go map used as a set.
abbrev add_id : Text → List Text → List Text
add_id id ids = if some_of (text_eq id) ids then ids else id ∷ ids

unfoldable pub removed_ids : ℕ → List ShareLink → List Text
removed_ids now [] = []
removed_ids now (l ∷ ls) =
    let rest = removed_ids now ls in if live now l then rest else add_id l.id rest

unfoldable pub clear_inactive : Env → Store → Store × Result ShareError ℕ
clear_inactive e s =
    let st = load s in
    let gone = removed_ids e.now st.links in
    let st' = record st {
      links = keep (live e.now) st.links;
      sessions =
          keep (λ x. session_live e.now x && not (some_of (text_eq x.link_id) gone)) st.sessions;
    } in
    (save e st' s, if e.saved then ok (length gone) else err not_written)
