-- ===== src/AliasApps/Evidence.antt =====
-- modules/mail/backend/alias_applications.go: what a message proves of an alias, and the next state.
use running_tools.Prelude.{
  ℕ, ◌*◌, ◌/◌, Bool, true, false, ◌&&◌, ◌||◌, Option, none, some, List, [], ◌∷◌, ltb, ◌==◌,
  if◌then◌else◌, is_empty, some_of,
}
use running_tools.Prelude.Text.{Text, text, text_eq, trim_space, to_lower, has_prefix, has_suffix}
use running_tools.Prelude.Fields.{fields, join_by, cut_at, sort_texts, take_runes}
use running_tools.Prelude.Clock.{second}
use running_tools.AliasApps.Types.{
  Status, observed, confirmed, Kind, registration, login, definitive, Evidence, Message,
}

unfoldable pub normalize_subject : Text → Text
normalize_subject subject = to_lower (join_by b' ' (fields subject))

-- `parse` stands for mail.ParseAddress: the address of a header, none where it does not parse.
unfoldable pub trusted_sender : (Text → Option Text) → Text → Bool
trusted_sender parse raw = elim (parse (trim_space raw)) [
  | none ↦ false
  | some address ↦ elim (cut_at b'@' (to_lower address)) [
    | none ↦ false
    | some r ↦
        text_eq r.1 (text "openai.com")
        || has_suffix r.1 (text ".openai.com")
        || (text_eq r.1 (text "icloud.com")
            || text_eq r.1 (text "me.com")
            || text_eq r.1 (text "mac.com"))
          && (has_prefix r.0 (text "otp_at_tm1_openai_com")
              || has_prefix r.0 (text "noreply_at_tm_openai_com")
              || has_prefix r.0 (text "noreply_at_openai_com"))
  ]
]

abbrev subject_kind : Text → Option Kind
subject_kind s =
    if text_eq s (text "your temporary chatgpt verification code")
      || text_eq s (text "your temporary openai verification code")
      || text_eq s (text "chatgpt の一時的な認証コード")
    then some registration
    else if text_eq s (text "your temporary chatgpt login code")
        || text_eq s (text "your temporary openai login code")
    then some login
    else if text_eq s (text "welcome to chatgpt")
        || text_eq s (text "your first chat was just the beginning")
    then some definitive
    else none

unfoldable pub classify : (Text → Option Text) → Message → Option Kind
unfolding normalize_subject trusted_sender
classify parse m =
    if trusted_sender parse m.from then subject_kind (normalize_subject m.subject) else none

-- A date of milliseconds is one above 10^12 seconds. `now` is the clock at the call.
unfoldable pub evidence_time : ℕ → ℕ → ℕ
evidence_time now date =
    if date == 0 then now else if ltb (1000000000000 * second) date then date / 1000 else date

-- truncateText, for a text in valid UTF-8.
unfoldable pub truncate_text : Text → ℕ → Text
truncate_text value max = take_runes max (trim_space value)

abbrev add_alias : Text → List Text → List Text
add_alias alias seen = if is_empty alias || some_of (text_eq alias) seen then seen else alias ∷ seen

abbrev distinct_aliases : List Text → List Text
distinct_aliases [] = []
distinct_aliases (a ∷ rest) = add_alias (to_lower (trim_space a)) (distinct_aliases rest)

-- normalizeAliases of mailbox.go.
unfoldable pub normalize_aliases : List Text → List Text
normalize_aliases aliases = sort_texts (distinct_aliases aliases)

unfoldable pub evidence_follows : Option ℕ → ℕ → Evidence → Bool
evidence_follows none uid e = false
evidence_follows (some at) uid e = if ltb at e.at then true else e.at == at && ltb uid e.uid

-- nextApplicationStatus, where `none` is the status "".
unfoldable pub next_status : Option Status → Option ℕ → ℕ → Evidence → Option Status × Bool
unfolding evidence_follows
next_status (some confirmed) at uid e = (some confirmed, false)
next_status none at uid e = elim e.kind [
  | registration ↦ (some observed, true)
  | login ↦ (none, false)
  | definitive ↦ (some confirmed, true)
]
next_status (some observed) at uid e = elim e.kind [
  | registration ↦ (some observed, false)
  | login ↦ if evidence_follows at uid e then (some confirmed, true) else (some observed, false)
  | definitive ↦ (some confirmed, true)
]
