-- ===== src/Auth/Samples.antt =====
-- A small instance of authentication: a cryptography, a user and what is stored of the user.
use running_tools.Prelude.{
  ℕ, zero, suc, ◌+◌, ◌-◌, ◌*◌, ◌≡◌, refl, true, false, none, some, [], ◌∷◌, ◌++◌, arith, map,
  length, take, length-take, length-append,
}
use running_tools.Prelude.Clock.{second}
use running_tools.Prelude.Text.{Text, has_byte}
use running_tools.Auth.Types.{
  UserRecord, SessionRow, TokenRow, Database, Call, session, api_token, Principal, Limiter, Auth,
}
use running_tools.Auth.Limiter.{no_attempt}
use running_tools.Auth.Password.{Crypto, argon_memory, argon_time, argon_threads, hash_password}
use running_tools.Auth.Service.{Request}
use running_tools.Auth.PasswordLaws.{Documented}

abbrev zeros : ℕ → Text
zeros zero = []
zeros (suc n) = 0 ∷ zeros n

length-zeros : (n : ℕ) → length (zeros n) ≡ n
length-zeros zero = refl
length-zeros (suc n) = omega (arith, length-zeros n)

-- A cryptography of shifted and padded texts.
abbrev pub toy : Crypto
toy = record {
  digest = λ t. b'#' ∷ t;
  argon2 = λ p s t m c n. take n (p ++ (s ++ zeros n));
  encode = map (λ c. c + 37);
  decode = λ s. some (map (λ c. c - 37) s);
  scan_costs = λ s. some (argon_memory, argon_time, argon_threads);
}

-- No encoded byte is a `$`.
shifted_plain : (s : Text) → has_byte b'$' (toy.encode s) ≡ false
shifted_plain [] = refl
shifted_plain (x ∷ s) = ground (arith, shifted_plain s)

shifted_back : (s : Text) → map (λ c. c - 37) (map (λ c. c + 37) s) ≡ s
shifted_back [] = refl
shifted_back (x ∷ s) = ground (arith, shifted_back s)

toy_sized : (p s : Text) (n : ℕ) → length (take n (p ++ (s ++ zeros n))) ≡ n
toy_sized p s n = omega (
  arith,
  length-take n (p ++ (s ++ zeros n)),
  length-append p (s ++ zeros n),
  length-append s (zeros n),
  length-zeros n,
)

pub toy-Documented : Documented toy
toy-Documented = record {
  decodes = λ s. rw (shifted_back s) refl;
  plain = shifted_plain;
  scans = refl;
  sized = λ p s t m c n. toy_sized p s n;
}

abbrev pub salt : Text
salt = zeros 16

abbrev pub secret : Text
secret = b's' ∷ b'3' ∷ []

abbrev pub wrong : Text
wrong = b's' ∷ b'4' ∷ []

abbrev pub noon : Call
noon = record {
  now = 1000 * second;
  database_now = 1001 * second;
  reads = true;
  writes = true;
  touches = true;
  records = true;
  redis = λ key. none;
}

abbrev pub later : Call
later = record noon { now = 2000 * second }

abbrev pub ana_name : Text
ana_name = b'a' ∷ b'n' ∷ b'a' ∷ []

abbrev pub ana : UserRecord
ana = record {
  id = 7;
  username = ana_name;
  password_hash = hash_password toy salt secret;
  must_change_password = false;
  disabled = false;
  created_at = 0;
  last_login_at = none;
}

-- Two sessions and an API token of the user.
abbrev here : SessionRow
here = record {
  token_hash = b'#' ∷ b'h' ∷ [];
  user_id = 7;
  ip_address = [];
  user_agent = [];
  last_seen_at = 0;
  expires_at = 5000 * second;
  revoked_at = none;
}

abbrev there : SessionRow
there = record here { token_hash = b'#' ∷ b't' ∷ [] }

abbrev pub script_token : Text
script_token = b'r' ∷ b't' ∷ b'k' ∷ b'_' ∷ b'x' ∷ []

abbrev pub script : TokenRow
script = record {
  id = b'1' ∷ [];
  user_id = 7;
  name = b'n' ∷ [];
  token_hash = b'#' ∷ script_token;
  token_prefix = script_token;
  created_at = 0;
  last_used_at = none;
  expires_at = none;
  revoked_at = none;
}

abbrev pub tables : Database
tables = record {
  users = ana ∷ [];
  sessions = here ∷ there ∷ [];
  tokens = script ∷ [];
  events = [];
}

abbrev pub limiter : Limiter
limiter = record { key_prefix = []; local = λ key. no_attempt }

abbrev pub auth : Auth
auth = record { database = tables; limiter = limiter }

abbrev pub by_cookie : Text → Request
by_cookie value = record { authorization = []; cookie = some value }

abbrev pub ana_here : Principal
ana_here = record {
  user = record {
    id = 7;
    username = ana_name;
    must_change_password = false;
    created_at = 0;
    last_login_at = none;
  };
  token_hash = b'#' ∷ b'h' ∷ [];
  credential = session;
}

abbrev pub ana_script : Principal
ana_script = record ana_here { token_hash = b'#' ∷ script_token; credential = api_token }

abbrev pub new_secret : Text
new_secret = b's' ∷ b'3' ∷ b'c' ∷ b'r' ∷ b'e' ∷ b't' ∷ b'-' ∷ b'k' ∷ b'e' ∷ b'y' ∷ []

abbrev pub new_token : Text
new_token = b'r' ∷ b't' ∷ b'k' ∷ b'_' ∷ b'y' ∷ []
