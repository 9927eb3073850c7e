-- ===== src/ShareLinks/TableTests.antt =====
-- The tables of the link store run on small inputs, and the theorems at inputs that meet their
-- hypotheses.
use running_tools.Prelude.{
  ℕ, ◌*◌, ◌%◌, ◌==◌, ◌≡◌, refl, false, none, some, List, [], ◌∷◌, reverse, find, modify,
}
use running_tools.Prelude.Int.{pos}
use running_tools.Prelude.Text.{Text, text_eq, trim_space, to_lower}
use running_tools.Prelude.Clock.{second}
use running_tools.ShareLinks.Types.{ShareLink, saved_state, Store}
use running_tools.ShareLinks.Store.{load, share_alias, list, live, session_expiry}
use running_tools.ShareLinks.Access.{make_links}
use running_tools.ShareLinks.Database.{
  Tables, DbCall, db_resolve, insert_links, db_create_session, row_of, session_row, db_list,
}
use running_tools.ShareLinks.Views.{view}
use running_tools.ShareLinks.Keys.{IsKeyed}
use running_tools.ShareLinks.Steps.{call_at, no_clash}
use running_tools.ShareLinks.Refinement.{
  Call, creating, revoking, revoking_alias, resolving, opening_session, showing, clearing,
  file_calls, db_calls, all_fresh, db_calls-file_calls,
}
use running_tools.ShareLinks.Operations.{
  Operation, creates, revokes, opens_session, clears, operate_all,
}
use running_tools.ShareLinks.Isolation.{operate_all-neighbour}
use running_tools.ShareLinks.Order.{db_list-list}
use running_tools.ShareLinks.Import.{
  holding, Legacy, import_legacy, legacy_state, new_links, new_sessions, import_legacy-view,
}

abbrev digest : Text → Text
digest t = b'#' ∷ t

abbrev ana : Text
ana = b'a' ∷ b'n' ∷ b'a' ∷ []

abbrev bea : Text
bea = b'b' ∷ b'e' ∷ b'a' ∷ []

abbrev link_with : ℕ → ℕ → ShareLink
link_with n at = record {
  id = n ∷ [];
  alias = ana;
  token_hash = digest (n ∷ []);
  created_at = at * second;
  expires_at = some (2000 * second);
  last_used_at = none;
  revoked_at = none;
}

-- Two links and a session of ana's, one link of bea's.
abbrev tables : Tables
tables = record {
  links =
      row_of ana (link_with b'1' 1)
      ∷ row_of bea (link_with b'2' 2)
      ∷ row_of ana (link_with b'3' 3)
      ∷ [];
  sessions =
      session_row ana
        (record { token_hash = digest bea; link_id = b'1' ∷ []; expires_at = 1500 * second })
      ∷ [];
}

abbrev file_of_ana : Store
file_of_ana = record { file = saved_state (view ana tables) }

abbrev calls : List Call
calls =
    resolving (1000 * second) (b'1' ∷ [])
    ∷ opening_session (1000 * second) (some ana) (b'3' ∷ []) (pos 60)
    ∷ showing (1001 * second) ana
    ∷ creating (1002 * second) (λ i. some (b'9' ∷ [])) (λ i. b'9' ∷ [])
        (record { alias = bea; alias_created_at = 0 } ∷ []) none
    ∷ revoking (1003 * second) (b'1' ∷ [])
    ∷ clearing (1004 * second)
    ∷ revoking_alias (1005 * second) ana
    ∷ []

tables-IsKeyed : IsKeyed tables
unfolding text_eq
tables-IsKeyed = (((refl, (refl, tt)), ((refl, tt), (tt, tt))), (refl, tt))

db_calls-file_calls_example :
    (view ana (db_calls digest ana calls tables).0 ≡ load (file_calls digest calls file_of_ana).0)
    × ((db_calls digest ana calls tables).1 ≡ (file_calls digest calls file_of_ana).1)
unfolding all_fresh db_resolve trim_space find text_eq live no_clash make_links share_alias to_lower
    insert_links db_create_session modify session_expiry
db_calls-file_calls_example =
    db_calls-file_calls digest ana calls tables file_of_ana tables-IsKeyed refl refl

-- A database whose clock is an hour ahead, and where only every second statement runs.
abbrev shaky : DbCall
shaky = record { now = 1000 * second; db_now = 4600 * second; ran = λ i. i % 2 == 1 }

abbrev operations : List Operation
operations =
    creates shaky (λ i. some (b'9' ∷ [])) (λ i. b'9' ∷ [])
      (record { alias = bea; alias_created_at = 0 } ∷ []) none
    ∷ opens_session shaky shaky (some ana) (b'3' ∷ []) (pos 60)
    ∷ revokes shaky (b'1' ∷ [])
    ∷ clears shaky
    ∷ []

operate_all-neighbour_example :
    view bea (operate_all digest ana operations tables) ≡ view bea tables
unfolding text_eq
operate_all-neighbour_example =
    operate_all-neighbour ana bea refl digest operations tables tables-IsKeyed

db_list-list_example :
    db_list ana (call_at (1000 * second)) ana tables
    ≡ reverse (list (1000 * second) ana file_of_ana)
unfolding text_eq share_alias trim_space to_lower
db_list-list_example = db_list-list ana (1000 * second) ana tables file_of_ana refl refl

abbrev before_import : Legacy
before_import = record {
  imported = false;
  stored = none;
  disk = holding (saved_state (view ana tables));
}

abbrev bea_only : Tables
bea_only = record { links = row_of bea (link_with b'2' 2) ∷ []; sessions = [] }

import_legacy-view_example :
    view ana (import_legacy ana (call_at 0) before_import bea_only).0.1
    ≡ load (record { file = saved_state (view ana tables) })
unfolding import_legacy legacy_state new_links new_sessions text_eq
import_legacy-view_example =
    import_legacy-view ana (call_at 0) before_import bea_only (view ana tables) refl refl refl refl
      refl refl
