-- ===== src/Errors.antt =====
-- modules/mail/backend/errors.go: the errors of the Apple calls, and what the workers read off them.
use running_tools.Prelude.{
  ℕ, ◌≤◌, Bool, ◌||◌, Option, none, some, List, [], ◌∷◌, ◌++◌, ◌==◌, length,
}
use running_tools.Prelude.Text.{Text, text, contains, replace_all, cut, length-cut}

-- An error value as the callers see it: `errors.Is(err, context.Canceled)`, the status of the
-- `UpstreamError` in its chain, and its message.
pub record ApiError : Type 0 where
  pub canceled : Bool
  pub upstream_status : Option ℕ
  pub message : Text

unfoldable pub is_session_expired : ApiError → Bool
is_session_expired e = elim e.upstream_status [
  | some status ↦ status == 401 || status == 403 || status == 421
  | none ↦
      contains e.message (text "HTTP 401")
      || contains e.message (text "HTTP 403")
      || contains e.message (text "HTTP 421")
]

abbrev secret_names : List Text
secret_names =
    text "X-APPLE-DS-WEB-SESSION-TOKEN"
    ∷ text "X-APPLE-WEBAUTH-TOKEN"
    ∷ text "X-APPLE-WEBAUTH-LOGIN"
    ∷ text "X-APPLE-WEBAUTH-VALIDATE"
    ∷ []

redact : List Text → Text → Text
redact [] s = s
redact (name ∷ names) s = redact names (replace_all s name (name ++ text "<redacted>"))

unfoldable pub safe_error_text : ApiError → Text
unfolding redact
safe_error_text e = cut 500 (redact secret_names e.message)

-- What is stored or shown of an error never exceeds 500 bytes.
pub length-safe_error_text : (e : ApiError) → length (safe_error_text e) ≤ 500
unfolding safe_error_text
length-safe_error_text e = length-cut 500 (redact secret_names e.message)
