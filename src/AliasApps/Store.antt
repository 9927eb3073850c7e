-- ===== src/AliasApps/Store.antt =====
-- modules/mail/backend/alias_applications.go: postgresAliasApplicationStore for the account `acc`.
use running_tools.Prelude.{
  ℕ, suc, Bool, true, false, not, ◌&&◌, Option, none, some, List, [], ◌∷◌, ◌++◌, map, ltb, ◌==◌,
  if◌then◌else◌, keep, some_of, find, modify,
}
use running_tools.Prelude.Text.{Text, text, text_eq, trim_space, to_lower, equal_fold}
use running_tools.Prelude.Fields.{text_lt}
use running_tools.AliasApps.Types.{
  Status, observed, confirmed, Kind, registration, login, definitive, Evidence, AppState, Message,
  Application, AppError, load_failed, create_failed, update_failed, Attempt,
}
use running_tools.AliasApps.Evidence.{
  classify, evidence_time, truncate_text, normalize_aliases, next_status,
}

-- What observeEvidence writes of the evidence.
abbrev pub detected : Evidence → AppState → AppState
detected e r = record r {
  detected_at = some e.at;
  detected_uid = e.uid;
  detected_subject = e.subject;
  detected_sender = e.sender;
}

abbrev pub confirm : Evidence → AppState → AppState
confirm e r = record r {
  confirmed_at = some e.at;
  confirmed_uid = e.uid;
  confirmed_subject = e.subject;
  confirmed_sender = e.sender;
}

abbrev pub blank : Text → Text → Status → AppState
blank acc alias status = record {
  account_id = acc;
  alias = alias;
  status = status;
  detected_at = none;
  detected_uid = 0;
  detected_subject = [];
  detected_sender = [];
  confirmed_at = none;
  confirmed_uid = 0;
  confirmed_subject = [];
  confirmed_sender = [];
}

-- The row that is created where there is none, `none` where nothing is.
unfoldable pub created_row : Text → Evidence → Option AppState
unfolding next_status
created_row acc e =
    let v = next_status none none 0 e in
    if not v.1 then none else elim v.0 [
      | none ↦ none
      | some status ↦ some (elim e.kind [
        | registration ↦ detected e (blank acc e.alias status)
        | login ↦ confirm e (blank acc e.alias status)
        | definitive ↦ confirm e (blank acc e.alias status)
      ])
    ]

-- The cases of the two later kinds of evidence.
abbrev confirmed_row : Evidence → AppState → Option AppState
confirmed_row e r =
    let v = next_status (some r.status) r.detected_at r.detected_uid e in
    if not v.1
    then none
    else elim v.0 [ none ↦ none | some status ↦ some (confirm e (record r { status = status })) ]

-- `status == confirmed`
abbrev is_confirmed : Status → Bool
is_confirmed observed = false
is_confirmed confirmed = true

-- The row as it is updated, `none` where it is left.
unfoldable pub updated_row : Evidence → AppState → Option AppState
unfolding next_status
updated_row e r = elim e.kind [
  | registration ↦ if is_confirmed r.status then none else elim r.detected_at [
    | none ↦ some (detected e r)
    | some at ↦ if not (ltb e.at at) then none else some (detected e r)
  ]
  | login ↦ confirmed_row e r
  | definitive ↦ confirmed_row e r
]

-- What a try of observeEvidence comes to; the last is a constraint error.
pub data Outcome : Type 0 where
  done : Outcome
  broken : AppError → Outcome
  conflict : Outcome

module _ (acc : Text) where
  -- The row of an alias: the unique key is the account, the alias and the app.
  abbrev pub of_alias : Text → AppState → Bool
  of_alias alias r = text_eq r.account_id acc && text_eq r.alias alias

  -- One try of observeEvidence.
  unfoldable pub attempt : Attempt → Evidence → List AppState → List AppState × Outcome
  unfolding created_row updated_row
  attempt a e t =
      if not a.loads then (t, broken load_failed) else elim (find (of_alias e.alias) t) [
        | none ↦ elim (created_row acc e) [
          | none ↦ (t ++ a.rivals, done)
          | some r ↦
              if some_of (of_alias e.alias) (t ++ a.rivals)
              then (t ++ a.rivals, conflict)
              else if a.saves
              then (t ++ a.rivals ++ (r ∷ []), done)
              else (t ++ a.rivals, broken create_failed)
        ]
        | some old ↦ elim (updated_row e old) [
          | none ↦ (t ++ a.rivals, done)
          | some r ↦
              if a.saves
              then (modify (of_alias e.alias) (λ _. r) (t ++ a.rivals), done)
              else (t ++ a.rivals, broken update_failed)
        ]
      ]

  -- observeEvidence, whose second try follows a constraint error of the first.
  unfoldable pub observe_evidence :
      Attempt → Attempt → Evidence → List AppState → List AppState × Option AppError
  unfolding attempt
  observe_evidence a b e t =
      let r = attempt a e t in
      let v = attempt b e r.0 in
      elim r.1 [
        | done ↦ (r.0, none)
        | broken x ↦ (r.0, some x)
        | conflict ↦
            (v.0, elim v.1 [ done ↦ none | broken x ↦ some x | conflict ↦ some create_failed ])
      ]

  -- The loop of ObserveMessages over the evidence, whose number i meets the tries `tries i`. It
  -- stops at an error.
  unfoldable pub observe_all :
      (ℕ → Attempt × Attempt) → ℕ → List Evidence → List AppState → List AppState × Option AppError
  unfolding observe_evidence
  observe_all tries i [] t = (t, none)
  observe_all tries i (e ∷ es) t =
      let r = observe_evidence (tries i).0 (tries i).1 e t in
      elim r.1 [ some x ↦ (r.0, some x) | none ↦ observe_all tries (suc i) es r.0 ]

  -- DeleteAlias.
  unfoldable delete_alias : Text → List AppState → List AppState
  delete_alias alias t = keep (λ r. not (of_alias (to_lower (trim_space alias)) r)) t

-- The order of sort.Slice in ObserveMessages.
unfoldable pub message_before : Message → Message → Bool
message_before m n = if m.date == n.date then ltb m.uid n.uid else ltb m.date n.date

unfoldable pub insert_message : Message → List Message → List Message
unfolding message_before
insert_message m [] = m ∷ []
insert_message m (n ∷ ns) =
    let rest = insert_message m ns in if message_before n m then n ∷ rest else m ∷ n ∷ ns

unfoldable pub sort_messages : List Message → List Message
unfolding insert_message
sort_messages [] = []
sort_messages (m ∷ ms) = insert_message m (sort_messages ms)

abbrev pub evidence_for : ℕ → Message → Kind → Text → Evidence
evidence_for now m kind alias = record {
  kind = kind;
  alias = alias;
  uid = m.uid;
  at = evidence_time now m.date;
  subject = truncate_text m.subject 500;
  sender = truncate_text m.from 1000;
}

-- The evidence of the messages, in the order of the two loops. The clock stands at `now`.
unfoldable pub evidence_of : (Text → Option Text) → ℕ → List Message → List Evidence
evidence_of parse now [] = []
evidence_of parse now (m ∷ ms) =
    let rest = evidence_of parse now ms in
    elim (classify parse m) [
      | none ↦ rest
      | some kind ↦ map (evidence_for now m kind) (normalize_aliases m.aliases) ++ rest
    ]

unfoldable pub observe_messages :
    Text
    → (Text → Option Text)
    → ℕ
    → (ℕ → Attempt × Attempt)
    → List Message
    → List AppState
    → List AppState × Option AppError
unfolding sort_messages evidence_of
observe_messages acc parse now tries messages t =
    observe_all acc tries 0 (evidence_of parse now (sort_messages messages)) t

-- The subjects of gptEvidenceSubjects.
abbrev evidence_subjects : List Text
evidence_subjects =
    text "Your temporary ChatGPT verification code"
    ∷ text "Your temporary OpenAI verification code"
    ∷ text "ChatGPT の一時的な認証コード"
    ∷ text "Your temporary ChatGPT login code"
    ∷ text "Your temporary OpenAI login code"
    ∷ text "Welcome to ChatGPT"
    ∷ text "Your first chat was just the beginning"
    ∷ []

-- Backfill on the messages of the account that the table of messages holds, ordered by date and
-- uid, or none where the query fails.
unfoldable backfill :
    Text
    → (Text → Option Text)
    → ℕ
    → (ℕ → Attempt × Attempt)
    → Option (List Message)
    → List AppState
    → List AppState × Option AppError
unfolding observe_messages
backfill acc parse now tries none t = (t, some load_failed)
backfill acc parse now tries (some messages) t =
    observe_messages acc parse now tries
      (keep (λ m. some_of (equal_fold m.subject) evidence_subjects) messages) t

unfoldable insert_row : AppState → List AppState → List AppState
insert_row r [] = r ∷ []
insert_row r (x ∷ xs) =
    let rest = insert_row r xs in if text_lt x.alias r.alias then x ∷ rest else r ∷ x ∷ xs

-- ORDER BY alias.
unfoldable sort_rows : List AppState → List AppState
unfolding insert_row
sort_rows [] = []
sort_rows (r ∷ rs) = insert_row r (sort_rows rs)

-- `result[alias] = append(result[alias], item)` on a map with its keys in the order of their
-- first use.
abbrev add_item :
    Text → Application → List (Text × List Application) → List (Text × List Application)
add_item alias item [] = (alias, item ∷ []) ∷ []
add_item alias item ((a, items) ∷ rest) =
    if text_eq a alias
    then (a, items ++ (item ∷ [])) ∷ rest
    else (a, items) ∷ add_item alias item rest

abbrev application : AppState → Application
application r = record {
  key = text "gpt";
  label = text "GPT";
  status = r.status;
  detected_at = r.detected_at;
  confirmed_at = r.confirmed_at;
}

abbrev list_rows : List AppState → List (Text × List Application) → List (Text × List Application)
list_rows [] found = found
list_rows (r ∷ rs) found =
    list_rows rs (add_item (to_lower (trim_space r.alias)) (application r) found)

-- List of the account.
unfoldable list_applications : Text → List AppState → List (Text × List Application)
unfolding sort_rows
list_applications acc t = list_rows (sort_rows (keep (λ r. text_eq r.account_id acc) t)) []
