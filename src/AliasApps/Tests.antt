-- ===== src/AliasApps/Tests.antt =====
-- The store of application states on small inputs, and the theorems at inputs that meet their
-- hypotheses.
use running_tools.Prelude.{ℕ, ◌*◌, ◌≡◌, refl, true, false, none, some, List, [], ◌∷◌, find, keep}
use running_tools.Prelude.Text.{
  Text, text, text_eq, trim_space, to_lower, has_prefix, has_suffix, space_width,
}
use running_tools.Prelude.Fields.{fields, join_by, cut_at}
use running_tools.Prelude.Clock.{second}
use running_tools.AliasApps.Types.{
  Kind, confirmed, registration, login, definitive, Evidence, AppState, Attempt, Message,
}
use running_tools.AliasApps.Evidence.{normalize_subject, trusted_sender, classify}
use running_tools.AliasApps.Store.{of_alias, observe_all, observe_messages, blank, confirm}
use running_tools.AliasApps.Progress.{status_of, verdict}
use running_tools.AliasApps.Rows.{calm, of_evidence, observe_all-verdict, observe_all-confirmed}
use running_tools.AliasApps.Messages.{observe_messages-again}
use running_tools.AliasApps.Valid.{all_valid, observe_all-valid}

abbrev ana : Text
ana = b'a' ∷ []

abbrev mail_of : Text → ℕ → ℕ → Message
mail_of subject uid date = record {
  uid = uid;
  aliases = text " A" ∷ [];
  from = text "x@openai.com";
  subject = subject;
  date = date * second;
}

abbrev welcome : Message
welcome = mail_of (text "Welcome  to ChatGPT") 3 30

abbrev evidence : Kind → ℕ → ℕ → Evidence
evidence kind uid at = record {
  kind = kind;
  alias = ana;
  uid = uid;
  at = at;
  subject = [];
  sender = [];
}

abbrev three : List Evidence
three = evidence login 1 10 ∷ evidence registration 2 20 ∷ evidence login 3 30 ∷ []

-- A process that inserts a confirmed row, and statements that fail.
abbrev rival : ℕ → Attempt × Attempt
rival i = (
  record {
    loads = true;
    rivals = confirm (evidence definitive 9 90) (blank ana ana confirmed) ∷ [];
    saves = false;
  },
  record { loads = false; rivals = []; saves = true },
)

classify_test : classify some welcome ≡ some definitive
unfolding classify trusted_sender normalize_subject text trim_space to_lower fields join_by cut_at
    text_eq has_suffix has_prefix space_width
classify_test = refl

observe_all-verdict_example :
    ((observe_all [] calm 0 three []).1 ≡ none)
    × (status_of (find (of_alias [] ana) (observe_all [] calm 0 three []).0)
        ≡ verdict (keep (of_evidence ana) three))
unfolding find
observe_all-verdict_example = observe_all-verdict [] ana three [] refl refl

verdict_test : verdict (keep (of_evidence ana) three) ≡ some confirmed
unfolding verdict text_eq
verdict_test = refl

abbrev confirmed_row : AppState
confirmed_row = confirm (evidence definitive 1 5) (blank [] ana confirmed)

observe_all-confirmed_example :
    find (of_alias [] ana) (observe_all [] rival 0 three (confirmed_row ∷ [])).0
    ≡ some confirmed_row
unfolding find text_eq
observe_all-confirmed_example =
    observe_all-confirmed [] rival 0 three ana (confirmed_row ∷ []) confirmed_row refl refl

observe_messages-again_example :
    observe_messages [] some 0 calm
      (welcome ∷ [])
      (observe_messages [] some 0 calm (welcome ∷ []) []).0
    ≡ ((observe_messages [] some 0 calm (welcome ∷ []) []).0, none)
observe_messages-again_example = observe_messages-again some 0 [] (welcome ∷ []) [] refl

observe_all-valid_example : all_valid (observe_all [] rival 0 three (confirmed_row ∷ [])).0 ≡ true
observe_all-valid_example =
    observe_all-valid [] rival 0 three (confirmed_row ∷ []) (λ i. (refl, refl)) refl
