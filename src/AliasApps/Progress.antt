-- ===== src/AliasApps/Progress.antt =====
-- modules/mail/backend/alias_applications.go: the row of one alias under a sequence of evidence.
use running_tools.Prelude.{
  ℕ, Bool, true, false, ◌&&◌, ◌||◌, Option, none, some, List, [], ◌∷◌, arith, ◌≡◌, refl, ltb, leb,
  ◌==◌, if◌then◌else◌, some_of,
}
use running_tools.Prelude.Text.{Text}
use running_tools.AliasApps.Types.{
  Status, observed, confirmed, Kind, registration, login, definitive, Evidence, AppState,
}
use running_tools.AliasApps.Evidence.{next_status, evidence_follows}
use running_tools.AliasApps.Store.{created_row, updated_row, detected, blank}

-- All the evidence is as late as a time and a uid: by the time, and by the uid where the times are
-- one.
abbrev pub all_from : ℕ → ℕ → List Evidence → Bool
all_from at uid [] = true
all_from at uid (x ∷ xs) = (ltb at x.at || at == x.at && leb uid x.uid) && all_from at uid xs

-- The order of the messages that ObserveMessages sorts.
abbrev pub in_order : List Evidence → Bool
in_order [] = true
in_order (e ∷ es) = all_from e.at e.uid es && in_order es

abbrev is_kind : Kind → Evidence → Bool
is_kind k e = elim e.kind [
  | registration ↦ elim k [ registration ↦ true | login ↦ false | definitive ↦ false ]
  | login ↦ elim k [ registration ↦ false | login ↦ true | definitive ↦ false ]
  | definitive ↦ elim k [ registration ↦ false | login ↦ false | definitive ↦ true ]
]

-- A login that comes after a time and a uid.
abbrev login_from : ℕ → ℕ → Evidence → Bool
login_from at uid x = is_kind login x && (ltb at x.at || x.at == at && ltb uid x.uid)

-- Some registration has a login after it.
abbrev login_follows : List Evidence → Bool
login_follows [] = false
login_follows (e ∷ es) =
    is_kind registration e && some_of (login_from e.at e.uid) es || login_follows es

-- What the evidence of an alias proves.
unfoldable pub verdict : List Evidence → Option Status
verdict es =
    if some_of (is_kind definitive) es || login_follows es
    then some confirmed
    else if some_of (is_kind registration) es
    then some observed
    else none

abbrev pub status_of : Option AppState → Option Status
status_of none = none
status_of (some r) = some r.status

module _ (acc : Text) where
  -- The row of an alias after one piece of evidence.
  unfoldable pub advance : Option AppState → Evidence → Option AppState
  unfolding created_row updated_row
  advance none e = created_row acc e
  advance (some r) e = elim (updated_row e r) [ none ↦ some r | some r' ↦ some r' ]

  unfoldable pub advance_all : Option AppState → List Evidence → Option AppState
  unfolding advance
  advance_all s [] = s
  advance_all s (e ∷ es) = advance_all (advance s e) es

  -- A confirmed row stays as it is.
  advance_all-confirmed :
      (r : AppState) (es : List Evidence) → r.status ≡ confirmed → advance_all (some r) es ≡ some r
  unfolding advance_all advance updated_row next_status
  advance_all-confirmed r [] h = refl
  advance_all-confirmed r (e ∷ es) h = ground (arith, advance_all-confirmed r es h)

  status-confirmed :
      (s : Option AppState) (es : List Evidence)
      → status_of s ≡ some confirmed
      → status_of (advance_all s es) ≡ some confirmed
  status-confirmed none es h = ground arith
  status-confirmed (some r) es h = ground (arith, advance_all-confirmed r es)

  -- A later registration shows no login that the first one does not.
  login_follows-first :
      (at uid : ℕ) (e : Evidence) (es : List Evidence)
      → (ltb at e.at || at == e.at && leb uid e.uid) ≡ true
      → some_of (login_from e.at e.uid) es ≡ true
      → some_of (login_from at uid) es ≡ true
  login_follows-first at uid e [] h k = ground arith
  login_follows-first at uid e (x ∷ xs) h k = ground (arith, login_follows-first at uid e xs h)

  -- What one piece of evidence does to an observed row.
  observed-step :
      (r : AppState) (e : Evidence) (d u : ℕ)
      → r.status ≡ observed
      → r.detected_at ≡ some d
      → r.detected_uid ≡ u
      → (ltb d e.at || d == e.at && leb u e.uid) ≡ true
      → if is_kind definitive e || login_from d u e
        then (status_of (advance (some r) e) ≡ some confirmed)
        else (advance (some r) e ≡ some r)
  unfolding advance updated_row next_status evidence_follows
  observed-step r e d u o a b h = ground arith

  -- From an observed row, and evidence that is all as late as its registration.
  observed-status :
      (r : AppState) (d u : ℕ) (es : List Evidence)
      → r.status ≡ observed
      → r.detected_at ≡ some d
      → r.detected_uid ≡ u
      → all_from d u es ≡ true
      → status_of (advance_all (some r) es) ≡ (
          if some_of (is_kind definitive) es || some_of (login_from d u) es
          then some confirmed
          else some observed)
  unfolding advance_all advance updated_row next_status evidence_follows
  observed-status r d u [] o a b h = ground arith
  observed-status r d u (e ∷ es) o a b h = ground (
    arith,
    observed-step r e d u o a b,
    observed-status r d u es o a b,
    status-confirmed (advance (some r) e) es,
  )

  all_from-later :
      (at uid : ℕ) (e : Evidence) (es : List Evidence)
      → (ltb at e.at || at == e.at && leb uid e.uid) ≡ true
      → all_from e.at e.uid es ≡ true
      → all_from at uid es ≡ true
  all_from-later at uid e [] h k = refl
  all_from-later at uid e (x ∷ xs) h k = ground (arith, all_from-later at uid e xs h)

  -- A registration in evidence that begins with another one adds nothing.
  login_follows-from :
      (at uid : ℕ) (es : List Evidence)
      → all_from at uid es ≡ true
      → login_follows es ≡ true
      → some_of (login_from at uid) es ≡ true
  login_follows-from at uid [] h k = ground arith
  login_follows-from at uid (e ∷ es) h k =
      ground (arith, login_follows-from at uid es, login_follows-first at uid e es)

  created-step : (e : Evidence) → elim e.kind as (λ (k : Kind). Type 0) [
    | registration ↦ advance none e ≡ some (detected e (blank acc e.alias observed))
    | login ↦ advance none e ≡ none
    | definitive ↦ status_of (advance none e) ≡ some confirmed
  ]
  unfolding advance created_row next_status
  created-step e = ground arith

  -- From no row, evidence in the order of ObserveMessages leaves the status that it proves.
  pub advance_all-verdict :
      (es : List Evidence) → in_order es ≡ true → status_of (advance_all none es) ≡ verdict es
  unfolding advance_all verdict
  advance_all-verdict [] h = refl
  advance_all-verdict (e ∷ es) h = ground (
    arith,
    created-step e,
    advance_all-verdict es,
    status-confirmed (advance none e) es,
    login_follows-from e.at e.uid es,
    observed-status (detected e (blank acc e.alias observed)) e.at e.uid es,
  )
