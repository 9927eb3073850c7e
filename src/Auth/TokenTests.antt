-- ===== src/Auth/TokenTests.antt =====
-- Password changes, logouts and API tokens run on small inputs, and their theorems at inputs that
-- meet the hypotheses.
use running_tools.Prelude.{
  true, false, ◌+◌, ◌*◌, ◌≡◌, ◌≢◌, refl, none, some, [], ◌∷◌, arith, find, modify, ok,
}
use running_tools.Prelude.Int.{pos}
use running_tools.Prelude.Text.{Text, text, text_eq, trim_space, to_lower, has_prefix, split, cut}
use running_tools.Auth.Types.{UserRecord, Database, session, api_token, Principal, ApiToken}
use running_tools.Auth.Database.{
  bootstrap_user, user_with, day, find_user_by_id, session_row, find_session, revoke_session,
  update_password, create_api_token, token_row, find_api_token, revoke_api_token,
}
use running_tools.Auth.Password.{
  hash_password, verify_decoded, verify_parts, verify_password, validate_new_password,
  character_classes, count_classes,
}
use running_tools.Auth.Login.{normalize_username, matches_username}
use running_tools.Auth.Service.{
  Request, authenticate_token, authenticate_cookie, authenticate, change_password, logout,
  new_token_row, create_token, revoke_token, cleanup,
}
use running_tools.Auth.Revocation.{change_password-authenticate, logout-authenticate}
use running_tools.Auth.ApiTokens.{bearer, Sole, authenticate-create_token}
use running_tools.Auth.Startup.{Config, bootstrap, new_service}
use running_tools.Auth.Restarts.{change_password-new_service}
use running_tools.Auth.Cleaning.{authenticate-cleanup}
use running_tools.Auth.Samples.{
  ana_name, toy, salt, secret, noon, later, ana, script_token, script, tables, by_cookie, ana_here,
  ana_script, new_secret, new_token,
}

abbrev changed : Database
changed = (change_password toy noon (some salt) ana_here secret new_secret tables).0

changes :
    (change_password toy noon (some salt) ana_here secret new_secret tables).1 ≡ ok ana_here.user
unfolding change_password find_user_by_id verify_password verify_parts verify_decoded hash_password
    split text text_eq validate_new_password count_classes character_classes update_password find
    modify
changes = refl

still_here : (authenticate toy later (by_cookie (b'h' ∷ [])) changed).1 ≡ ok ana_here
unfolding authenticate authenticate_cookie find_session session_row change_password find_user_by_id
    verify_password verify_parts verify_decoded hash_password split text text_eq
    validate_new_password count_classes character_classes update_password find modify has_prefix
    to_lower trim_space
still_here = refl

change_password-authenticate_example :
    (ana_here.credential ≡ session) × (ana_here.token_hash ≡ ana_here.token_hash)
change_password-authenticate_example =
    change_password-authenticate toy noon (some salt) ana_here secret new_secret tables
      ana_here.user later (by_cookie (b'h' ∷ [])) ana_here changes still_here refl

leaves : (logout toy noon ana_here tables).1 ≡ ok tt
unfolding logout revoke_session
leaves = refl

abbrev ana_there : Principal
ana_there = record ana_here { token_hash = b'#' ∷ b't' ∷ [] }

other_stays :
    (authenticate toy later (by_cookie (b't' ∷ [])) (logout toy noon ana_here tables).0).1
    ≡ ok ana_there
unfolding authenticate authenticate_cookie find_session session_row logout revoke_session text
    text_eq find modify has_prefix to_lower trim_space
other_stays = refl

logout-authenticate_example : ana_there.token_hash ≢ ana_here.token_hash
logout-authenticate_example =
    logout-authenticate toy noon ana_here tables later (by_cookie (b't' ∷ [])) ana_there leaves
      other_stays refl

abbrev item : ApiToken
item = record {
  id = b't' ∷ b'o' ∷ b'k' ∷ b'_' ∷ b'2' ∷ [];
  name = b'n' ∷ [];
  token_prefix = b'r' ∷ b't' ∷ b'k' ∷ b'_' ∷ b'y' ∷ [];
  created_at = noon.now;
  last_used_at = none;
  expires_at = some (noon.now + 30 * day);
}

makes :
    (create_token toy noon
      (some (b'2' ∷ []))
      (some (b'y' ∷ []))
      ana_here
      (b'n' ∷ [])
      (pos 30)
      tables).1
    ≡ ok (item, new_token)
unfolding create_token new_token_row create_api_token text text_eq trim_space cut
makes = refl

spaceless : (trim_space (bearer new_token) ≡ bearer new_token) × (trim_space new_token ≡ new_token)
unfolding trim_space text
spaceless = (refl, refl)

ana_stored : user_with 7 tables.users ≡ some ana
unfolding find
ana_stored = refl

authenticate-create_token_example :
    (q : Principal) × ((authenticate toy later
        (record { authorization = bearer new_token; cookie = none })
        (create_token toy noon
          (some (b'2' ∷ []))
          (some (b'y' ∷ []))
          ana_here
          (b'n' ∷ [])
          (pos 30)
          tables).0).1
      ≡ ok q)
    × (q.user.id ≡ 7)
    × (q.credential ≡ api_token)
    × (q.token_hash ≡ b'#' ∷ new_token)
authenticate-create_token_example =
    authenticate-create_token toy noon (some (b'2' ∷ [])) (some (b'y' ∷ [])) ana_here (b'n' ∷ [])
      (pos 30) tables item new_token ana later none makes ana_stored refl refl (omega arith) refl
      spaceless.0 spaceless.1

abbrev two_tokens : Database
two_tokens = record tables {
  tokens = script ∷ record script { id = b'2' ∷ []; token_hash = b'#' ∷ new_token } ∷ [];
}

abbrev with_script : Request
with_script = record { authorization = bearer script_token; cookie = none }

revokes : (revoke_token toy noon ana_here (b'2' ∷ []) two_tokens).1 ≡ ok tt
unfolding revoke_token revoke_api_token text_eq trim_space
revokes = refl

script_stays :
    (authenticate toy later with_script (revoke_token toy noon ana_here (b'2' ∷ []) two_tokens).0).1
    ≡ ok ana_script
unfolding authenticate authenticate_token find_api_token token_row revoke_token revoke_api_token
    text text_eq find modify has_prefix to_lower trim_space
script_stays = refl

script-Sole :
    Sole (b'#' ∷ new_token) 7 (trim_space (b'2' ∷ [])) script
    × Sole
        (b'#' ∷ new_token)
        7
        (trim_space (b'2' ∷ []))
        (record script { id = b'2' ∷ []; token_hash = b'#' ∷ new_token })
unfolding text_eq trim_space
script-Sole = (refl, refl)

authenticate-cleanup_example :
    (authenticate toy later with_script (cleanup 3 noon tables)).1
    ≡ (authenticate toy later with_script tables).1
authenticate-cleanup_example =
    authenticate-cleanup 3 noon later tables (omega arith) toy with_script

abbrev site : Config
site = record { admin_username = ana_name; session_ttl = day; trust_proxy = false }

change_password-new_service_example :
    (s : Text) × (w : UserRecord) × (some salt ≡ some s)
    × (user_with 7 (new_service toy later 8 (some salt) (some salt) true site changed).0.users
        ≡ some w)
    × (w.password_hash ≡ hash_password toy s new_secret)
    × (w.must_change_password ≡ false)
change_password-new_service_example =
    change_password-new_service toy noon (some salt) ana_here secret new_secret tables ana_here.user
      later 8 (some salt) (some salt) true site changes

-- The server does start.
restarts :
    (new_service toy later 8 (some salt) (some salt) true site changed).1
    ≡ ok (record {
      config = site;
      dummy_hash = hash_password toy salt (text "running-tools-dummy-password");
    })
unfolding new_service bootstrap bootstrap_user normalize_username matches_username trim_space
    to_lower change_password find_user_by_id verify_password verify_parts verify_decoded
    hash_password split text text_eq validate_new_password count_classes character_classes
    update_password find modify
restarts = refl
