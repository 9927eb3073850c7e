-- ===== src/ShareLinks/Operations.antt =====
-- modules/mail/backend/share_links.go: sequences of operations on the tables, each with its clocks
-- and with statements that may fail.
use running_tools.Prelude.{ℕ, Option, List, [], ◌∷◌}
use running_tools.Prelude.Int.{ℤ}
use running_tools.Prelude.Text.{Text, text_eq}
use running_tools.ShareLinks.Types.{Input}
use running_tools.ShareLinks.Store.{share_alias}
use running_tools.ShareLinks.Database.{
  Tables, DbCall, db_revoke, db_revoke_for_alias, db_clear_inactive, db_create_batch, db_resolve,
  db_create_session,
}
use running_tools.ShareLinks.Keys.{IsKeyed}
use running_tools.ShareLinks.Integrity.{
  revoke_where-IsKeyed, clear_inactive-IsKeyed, create_batch-IsKeyed, resolve-IsKeyed,
  create_session-IsKeyed,
}

-- An operation that writes, with what it meets in the database. CreateSession makes two calls:
-- Resolve, and the transaction of the session.
pub data Operation : Type 0 where
  creates : DbCall → (ℕ → Option Text) → (ℕ → Text) → List Input → Option ℤ → Operation
  revokes revokes_alias resolves : DbCall → Text → Operation
  opens_session : DbCall → DbCall → Option Text → Text → ℤ → Operation
  clears : DbCall → Operation

module _ (hash : Text → Text) (acc : Text) where
  unfoldable pub operate : Operation → Tables → Tables
  operate (creates c token id inputs expires_in) t =
      (db_create_batch acc hash c token id inputs expires_in t).0
  operate (revokes c id) t = (db_revoke acc c id t).0
  operate (revokes_alias c alias) t = (db_revoke_for_alias acc c alias t).0
  operate (resolves c token) t = (db_resolve acc hash c token t).0
  operate (opens_session c c' drawn token max_age) t =
      (db_create_session acc hash c c' drawn token max_age t).0
  operate (clears c) t = (db_clear_inactive acc c t).0

  unfoldable pub operate_all : List Operation → Tables → Tables
  unfolding operate
  operate_all [] t = t
  operate_all (o ∷ os) t = operate_all os (operate o t)

  pub operate-IsKeyed : (o : Operation) (t : Tables) → IsKeyed t → IsKeyed (operate o t)
  unfolding operate db_revoke db_revoke_for_alias
  operate-IsKeyed (creates c token id inputs expires_in) t k =
      create_batch-IsKeyed acc hash c token id inputs expires_in t k
  operate-IsKeyed (revokes c id) t k = revoke_where-IsKeyed acc (λ l. text_eq l.id id) c t k
  operate-IsKeyed (revokes_alias c alias) t k =
      revoke_where-IsKeyed acc (λ l. text_eq l.alias (share_alias alias)) c t k
  operate-IsKeyed (resolves c token) t k = resolve-IsKeyed acc hash c token t k
  operate-IsKeyed (opens_session c c' drawn token max_age) t k =
      create_session-IsKeyed acc hash c c' drawn token max_age t k
  operate-IsKeyed (clears c) t k = clear_inactive-IsKeyed acc c t k
