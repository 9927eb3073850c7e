-- ===== src/ShareLinks/Tests.antt =====
-- The link store run on small inputs, and the theorems at inputs that meet their hypotheses.
use running_tools.Prelude.{
  ℕ, ◌*◌, ◌≡◌, ◌≢◌, refl, true, false, Option, none, some, List, [], ◌∷◌, arith, is_empty, is_some,
  length, All, Result, subst,
}
use mathlib.Core.Option.{some-injective}
use running_tools.Prelude.Int.{pos}
use running_tools.Prelude.Text.{Text, trim_space, to_lower, text_eq}
use running_tools.Prelude.Clock.{second, Env}
use running_tools.ShareLinks.Types.{ShareLink, saved_state, Store, Input, Created, ShareError}
use running_tools.ShareLinks.Store.{
  share_alias, revoke, live, opens, session_expiry, find_link, mark_used, revoke_links,
  revoke_where,
}
use running_tools.ShareLinks.Access.{
  make_links, bad_lifetime, answers, open_session, resolve_sessions, expiry, create_batch, resolve,
  create_session, resolve_session,
}
use running_tools.ShareLinks.Sessions.{create_session-opens}
use running_tools.ShareLinks.Creating.{Tokens, create_batch-opens}
use running_tools.ShareLinks.Revoking.{revoke-session}

abbrev marked : Text → Text
marked t = b'#' ∷ t

abbrev ana : Text
ana = b'a' ∷ b'n' ∷ b'a' ∷ []

abbrev key : Text
key = b'k' ∷ []

abbrev noon : Env
noon = record { now = 1000 * second; saved = true }

-- A link that expires at second 2000, and one that expired at 500.
abbrev open_link : ShareLink
open_link = record {
  id = b'1' ∷ [];
  alias = ana;
  token_hash = marked key;
  created_at = 0;
  expires_at = some (2000 * second);
  last_used_at = none;
  revoked_at = none;
}

abbrev past_link : ShareLink
past_link = record open_link {
  id = b'2' ∷ [];
  token_hash = marked ana;
  expires_at = some (500 * second);
}

abbrev two_links : Store
two_links = record {
  file = saved_state (record { links = past_link ∷ open_link ∷ []; sessions = [] });
}

expired_refused : is_some (resolve marked noon ana two_links).1 ≡ false
unfolding resolve trim_space find_link opens text_eq live
expired_refused = refl

-- A visitor asks for a session of an hour; the link ends it after a thousand seconds.
abbrev visit : Store × Option (Text × ShareLink)
visit = create_session marked noon noon (some ana) key (pos 3600) two_links

abbrev seen : ShareLink
seen = record open_link { last_used_at = some noon.now }

create_session-opens_example : is_some (resolve_session marked (1999 * second) ana visit.0) ≡ true
unfolding create_session open_session session_expiry mark_used resolve trim_space find_link opens
    text_eq live
create_session-opens_example =
    create_session-opens marked noon noon (some ana) key (pos 3600) two_links ana seen
      (1999 * second) refl refl (omega arith)

abbrev draws : ℕ → Option Text
draws i = some (b't' ∷ [])

draws-Tokens : Tokens draws
unfolding Tokens trim_space
draws-Tokens i t h =
    subst (λ x. (trim_space x ≡ x) × (is_empty x ≡ false)) (some-injective _ _ h) (refl, refl)

abbrev asked : List Input
asked = record { alias = ana; alias_created_at = 0 } ∷ []

abbrev batch : Store × Result ShareError (List Created)
batch = create_batch marked noon draws (λ i. key) asked (some (pos 300)) two_links

abbrev answer : Created
answer = record {
  id = key;
  alias = ana;
  created_at = noon.now;
  expires_at = some (1300 * second);
  share_email = ana;
  share_token = b't' ∷ [];
  alias_created_at = none;
}

create_batch-opens_example :
    (length (answer ∷ []) ≡ length asked)
    × All (λ c. is_some (resolve marked noon c.share_token batch.0).1 ≡ true) (answer ∷ [])
unfolding create_batch make_links bad_lifetime expiry answers share_alias trim_space to_lower
create_batch-opens_example =
    create_batch-opens marked noon noon draws (λ i. key) asked (some (pos 300)) two_links
      (answer ∷ []) draws-Tokens (omega arith) refl

revoke-session_example : open_link.id ≢ past_link.id
unfolding resolve_session resolve_sessions revoke revoke_links revoke_where create_session
    open_session session_expiry mark_used resolve trim_space find_link opens text_eq live
revoke-session_example = revoke-session marked noon visit.0 past_link.id noon.now ana seen refl refl
