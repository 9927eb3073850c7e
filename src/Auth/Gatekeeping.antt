-- ===== src/Auth/Gatekeeping.antt =====
-- internal/platform/auth/http.go: who gets through ProtectAPIs.
use running_tools.Prelude.{
  not, ◌&&◌, ◌||◌, ◌≡◌, Bool, true, false, Option, none, some, arith, ok, Result-cases, Bool-cases,
  inl, inr, ◌⊎◌, Option-cases, is_empty, if◌then◌else◌,
}
use running_tools.Prelude.Text.{Text, trim_space, equal_fold}
use running_tools.Auth.Types.{Database, Call, Principal}
use running_tools.Auth.Backing.{authenticate-settled}
use running_tools.Auth.Presented.{Presented, authenticate-Presented}
use running_tools.Auth.Password.{Crypto}
use running_tools.Auth.Service.{is_session, authenticate}
use running_tools.Auth.Gate.{
  HttpRequest, passes, is_public_auth_route, password_change_allowed, is_safe_method, is_api_path,
  same_origin, first_field, admit, protect,
}

module _ (trust_proxy : Bool) (parse_host : Text → Option Text) (r : HttpRequest) where
  -- The header Origin is empty, or names a host that is the host of the request: the one that a
  -- trusted proxy forwards, if any.
  abbrev pub OwnOrigin : Type 0
  OwnOrigin =
      (is_empty (trim_space r.origin) ≡ true)
      ⊎ ((host : Text) × (parse_host (trim_space r.origin) ≡ some host)
          × (is_empty host ≡ false)
          × (equal_fold host (
                if trust_proxy && not (is_empty (trim_space (first_field r.forwarded_host)))
                then trim_space (first_field r.forwarded_host)
                else r.host)
              ≡ true))

  same_origin-OwnOrigin : same_origin trust_proxy parse_host r ≡ true → OwnOrigin
  unfolding same_origin
  same_origin-OwnOrigin h = elim (Bool-cases (is_empty (trim_space r.origin))) [
    | inl e ↦ inl e
    | inr e ↦ elim (Option-cases (parse_host (trim_space r.origin))) [
      | inl f ↦ absurd (ground arith)
      | inr (host, f) ↦ inr (host, f, ground arith, ground arith)
    ]
  ]

module _ (trust_proxy : Bool) (parse_host : Text → Option Text) (k : Crypto) (c : Call)
    (r : HttpRequest) (d : Database) where
  protect-authenticate :
      (p : Principal)
      → (protect trust_proxy parse_host k c r d).1 ≡ passes (some p)
      → ((authenticate k c r.credentials d).1 ≡ ok p)
        × (admit trust_proxy parse_host r p ≡ passes (some p))
  unfolding protect
  protect-authenticate p h = elim (Result-cases (authenticate k c r.credentials d).1) [
    | inl (q, e) ↦ (ground arith, ground arith)
    | inr (x, e) ↦ absurd (ground arith)
  ]

  admit-rules :
      (p : Principal)
      → admit trust_proxy parse_host r p ≡ passes (some p)
      → ((not p.user.must_change_password || password_change_allowed r.method r.path) ≡ true)
        × ((not (is_session p.credential)
              || is_safe_method r.method
              || same_origin trust_proxy parse_host r)
            ≡ true)
  unfolding admit
  admit-rules p h = (ground arith, ground arith)

  -- Where a handler runs with a principal, the request presented the credential of it: a cookie or a
  -- token whose digest a live row has, of a user who is not disabled and whom the principal shows. A
  -- user who must change the password gets to the three routes for it alone, and with no API token.
  -- And a session's request is a safe one, or has no header Origin, or the host of that header is
  -- the host of the request, the one of X-Forwarded-Host where the proxy is trusted and names one.
  pub protect-Presented :
      (p : Principal)
      → (protect trust_proxy parse_host k c r d).1 ≡ passes (some p)
      → Presented k c.now r.credentials d p
        × ((not p.user.must_change_password
              || is_session p.credential && password_change_allowed r.method r.path)
            ≡ true)
        × ((is_session p.credential ≡ false)
            ⊎ (is_safe_method r.method ≡ true)
            ⊎ OwnOrigin trust_proxy parse_host r)
  protect-Presented p h =
      let (a, m) = protect-authenticate p h in
      let (w, o) = admit-rules p m in
      (
        authenticate-Presented k c d p r.credentials a,
        elim (Bool-cases p.user.must_change_password) [
          | inl e ↦ let i = authenticate-settled k c d p r.credentials a e in ground arith
          | inr e ↦ ground arith
        ],
        elim (Bool-cases (same_origin trust_proxy parse_host r)) [
          | inl e ↦ inr (inr (same_origin-OwnOrigin trust_proxy parse_host r e))
          | inr e ↦ elim (Bool-cases (is_safe_method r.method)) [
            | inl f ↦ inr (inl f)
            | inr f ↦ inl (ground arith)
          ]
        ],
      )

  -- A handler runs with no principal only off the API paths or on the two public routes.
  pub protect_open :
      (protect trust_proxy parse_host k c r d).1 ≡ passes none
      → (is_api_path r.path ≡ false) ⊎ (is_public_auth_route r.method r.path ≡ true)
  unfolding protect admit
  protect_open h = ground arith
