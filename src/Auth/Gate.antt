-- ===== src/Auth/Gate.antt =====
-- internal/platform/auth/http.go: ProtectAPIs, the gate before every handler of the API, and the
-- check of a request's origin (service.go).
use running_tools.Prelude.{
  Bool, true, false, not, ◌&&◌, ◌||◌, Option, none, some, [], ◌∷◌, if◌then◌else◌, is_empty, ok, err,
}
use running_tools.Prelude.Text.{Text, text, text_eq, trim_space, equal_fold, has_prefix, split}
use running_tools.Auth.Types.{Database, Call, Principal}
use running_tools.Auth.Password.{Crypto}
use running_tools.Auth.Service.{Request, is_session, authenticate}

-- An http.Request as the gate reads it: its method, path, host, and the headers Origin and
-- X-Forwarded-Host.
pub record HttpRequest : Type 0 where
  pub method : Text
  pub path : Text
  pub host : Text
  pub origin : Text
  pub forwarded_host : Text
  pub credentials : Request

-- The handler runs, with the principal that is in its context; or an error is written.
pub data Answer : Type 0 where
  passes : Option Principal → Answer
  unauthorized password_change_required origin_rejected : Answer

-- `strings.Split(value, ",")[0]`
abbrev pub first_field : Text → Text
first_field value = elim (split b',' value) [ [] ↦ [] | s ∷ ss ↦ s ]

unfoldable pub is_public_auth_route : Text → Text → Bool
is_public_auth_route method path =
    text_eq method (text "GET") && text_eq path (text "/api/auth/status")
    || text_eq method (text "POST") && text_eq path (text "/api/auth/login")

unfoldable pub password_change_allowed : Text → Text → Bool
password_change_allowed method path =
    text_eq method (text "GET") && text_eq path (text "/api/auth/me")
    || text_eq method (text "PUT") && text_eq path (text "/api/auth/password")
    || text_eq method (text "POST") && text_eq path (text "/api/auth/logout")

unfoldable pub is_safe_method : Text → Bool
is_safe_method method =
    text_eq method (text "GET") || text_eq method (text "HEAD") || text_eq method (text "OPTIONS")

unfoldable pub is_api_path : Text → Bool
is_api_path path = has_prefix path (text "/api/") || has_prefix path (text "/v1/")

-- `parse_host` is url.Parse and the field Host of its result, `none` for an error.
module _ (trust_proxy : Bool) (parse_host : Text → Option Text) where
  unfoldable pub same_origin : HttpRequest → Bool
  same_origin r =
      let origin = trim_space r.origin in
      let forwarded = trim_space (first_field r.forwarded_host) in
      if is_empty origin then true else elim (parse_host origin) [
        | none ↦ false
        | some host ↦
            not (is_empty host)
            && equal_fold host
                (if trust_proxy && not (is_empty forwarded) then forwarded else r.host)
      ]

  -- What the gate makes of a principal.
  unfoldable pub admit : HttpRequest → Principal → Answer
  admit r p =
      if p.user.must_change_password && not (password_change_allowed r.method r.path)
      then password_change_required
      else if is_session p.credential && not (is_safe_method r.method) && not (same_origin r)
      then origin_rejected
      else passes (some p)

  unfoldable pub protect : Crypto → Call → HttpRequest → Database → Database × Answer
  unfolding admit
  protect k c r d =
      let a = authenticate k c r.credentials d in
      if not (is_api_path r.path) || is_public_auth_route r.method r.path
      then (d, passes none)
      else (a.0, elim a.1 [ err e ↦ unauthorized | ok p ↦ admit r p ])
