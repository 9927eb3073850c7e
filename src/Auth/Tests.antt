-- ===== src/Auth/Tests.antt =====
-- The login, its limits and the gate run on small inputs, and their theorems at inputs that meet
-- the hypotheses.
use running_tools.Prelude.{
  ◌⊎◌, ℕ, ◌+◌, ◌*◌, ◌<◌, ◌≡◌, refl, true, false, Option, not, ◌&&◌, ◌||◌, none, some, [], ◌∷◌, drop,
  arith, find, modify, ok,
}
use running_tools.Prelude.Clock.{second}
use running_tools.Prelude.Text.{
  Text, text, text_eq, trim_space, to_lower, has_prefix, split, cut, equal_fold,
}
use running_tools.Auth.Types.{UserRecord, session, Principal, SessionResult}
use running_tools.Auth.Database.{
  find_user_by_username, create_session, session_row, find_session, set_last_login, record_login,
}
use running_tools.Auth.Limiter.{key_of, counted, allow, clear}
use running_tools.Auth.Password.{
  argon_memory, argon_key_len, hash_password, verify_decoded, verify_parts, verify_password,
}
use running_tools.Auth.Login.{
  normalize_username, truncate, matches_username, Login, ip_key, user_key, open_login, check_login,
  login_user, login,
}
use running_tools.Auth.Service.{is_session, authenticate_cookie, authenticate}
use running_tools.Auth.Gate.{
  HttpRequest, passes, is_public_auth_route, password_change_allowed, is_safe_method, is_api_path,
  same_origin, admit, protect,
}
use running_tools.Auth.Throttle.{passed, passed_lem}
use running_tools.Auth.PasswordLaws.{verify_password-hash_password}
use running_tools.Auth.LoginSteps.{normalized}
use running_tools.Auth.Logins.{login_sound, authenticate-login}
use running_tools.Auth.Presented.{Presented}
use running_tools.Auth.Gatekeeping.{OwnOrigin, protect-Presented}
use running_tools.Auth.Samples.{
  toy, toy-Documented, salt, secret, wrong, noon, later, ana_name, tables, limiter, auth, by_cookie,
  ana_here,
}

verify_password-hash_password_example :
    (verify_password toy (hash_password toy salt secret) wrong
      ≡ text_eq
          (toy.argon2 wrong salt 3 argon_memory 2 argon_key_len)
          (toy.argon2 secret salt 3 argon_memory 2 argon_key_len))
    × (verify_password toy (hash_password toy salt secret) secret ≡ true)
verify_password-hash_password_example =
    verify_password-hash_password toy toy-Documented salt secret wrong refl

wrong_refused : verify_password toy (hash_password toy salt secret) wrong ≡ false
unfolding verify_password verify_parts verify_decoded hash_password split text text_eq
wrong_refused = refl

abbrev Early : Type 0
Early =
    (noon.redis (key_of toy.digest limiter secret) ≡ none) × (noon.now < noon.now + 900 * second)

at_noon : Early
at_noon = (refl, omega arith)

passed_lem_example :
    passed toy.digest secret (noon ∷ noon ∷ noon ∷ noon ∷ noon ∷ noon ∷ noon ∷ []) limiter ≡ 5
passed_lem_example =
    passed_lem toy.digest secret noon (noon ∷ noon ∷ noon ∷ noon ∷ noon ∷ noon ∷ []) limiter
      (omega arith) (at_noon, (at_noon, (at_noon, (at_noon, (at_noon, (at_noon, (at_noon, tt)))))))

abbrev form : Login
form = record {
  username = b' ' ∷ b'A' ∷ b'n' ∷ b'a' ∷ [];
  password = secret;
  ip = b'1' ∷ [];
  user_agent = [];
}

abbrev day_long : ℕ
day_long = 86400 * second

abbrev opened : SessionResult
opened = record {
  user = record {
    id = 7;
    username = ana_name;
    must_change_password = false;
    created_at = 0;
    last_login_at = some noon.now;
  };
  expires_at = noon.now + day_long;
  token = b'k' ∷ [];
}

logs_in : (login toy noon day_long (some (b'k' ∷ [])) form auth).1 ≡ ok opened
unfolding login login_user check_login open_login allow counted clear normalize_username truncate
    matches_username find_user_by_username verify_password verify_parts verify_decoded hash_password
    split text text_eq create_session set_last_login record_login trim_space to_lower cut find
    modify
logs_in = refl

login_sound_example :
    (u : UserRecord) × (find_user_by_username noon (normalize_username form.username) tables ≡ ok u)
    × (verify_password toy u.password_hash secret ≡ true)
    × (u.disabled ≡ false)
    × (opened.user.id ≡ u.id)
    × (opened.expires_at ≡ noon.now + day_long)
    × ((allow toy.digest noon (ip_key (normalized form)) limiter).1 ≡ true)
    × ((allow toy.digest noon
          (user_key (normalized form))
          (allow toy.digest noon (ip_key (normalized form)) limiter).0).1
        ≡ true)
login_sound_example = login_sound toy noon day_long (some (b'k' ∷ [])) form auth opened logs_in

no_bearer : has_prefix (to_lower (trim_space [])) (text "bearer ") ≡ false
unfolding has_prefix to_lower trim_space text
no_bearer = refl

authenticate-login_example :
    (p : Principal) × ((authenticate toy later
        (by_cookie (b'k' ∷ []))
        (login toy noon day_long (some (b'k' ∷ [])) form auth).0.database).1
      ≡ ok p)
    × (p.user.id ≡ 7)
    × (p.credential ≡ session)
    × (p.token_hash ≡ b'#' ∷ b'k' ∷ [])
authenticate-login_example =
    authenticate-login toy noon day_long (some (b'k' ∷ [])) form auth opened later [] (tt, tt)
      logs_in refl (omega arith) refl no_bearer

-- A changing request of the session, from the server's own page.
abbrev posted : HttpRequest
posted = record {
  method = text "POST";
  path = text "/api/mail/aliases";
  host = text "tools.example";
  origin = text "https://tools.example";
  forwarded_host = [];
  credentials = by_cookie (b'h' ∷ []);
}

abbrev host_after_scheme : Text → Option Text
host_after_scheme origin = some (drop 8 origin)

goes_through : (protect false host_after_scheme toy noon posted tables).1 ≡ passes (some ana_here)
unfolding protect admit is_api_path is_public_auth_route password_change_allowed is_safe_method
    same_origin authenticate authenticate_cookie find_session session_row text text_eq find
    has_prefix to_lower trim_space equal_fold split
goes_through = refl

protect-Presented_example :
    Presented toy noon.now posted.credentials tables ana_here
    × ((not ana_here.user.must_change_password
          || is_session ana_here.credential && password_change_allowed posted.method posted.path)
        ≡ true)
    × ((is_session ana_here.credential ≡ false)
        ⊎ (is_safe_method posted.method ≡ true)
        ⊎ OwnOrigin false host_after_scheme posted)
protect-Presented_example =
    protect-Presented false host_after_scheme toy noon posted tables ana_here goes_through

-- The login form itself.
abbrev login_request : HttpRequest
login_request = record posted { path = text "/api/auth/login"; credentials = by_cookie [] }

let_through : (protect false host_after_scheme toy noon login_request tables).1 ≡ passes none
unfolding protect is_api_path is_public_auth_route text text_eq has_prefix
let_through = refl
