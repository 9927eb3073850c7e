-- ===== src/AliasApps/Valid.antt =====
-- modules/mail/backend/alias_applications.go: the columns that a status needs.
use running_tools.Prelude.{
  ℕ, suc, Bool, true, ◌&&◌, some, List, [], ◌∷◌, ◌++◌, arith, ◌≡◌, refl, is_none, is_some, find,
  modify, Option-cases, inl, inr,
}
use running_tools.Prelude.Text.{Text}
use running_tools.AliasApps.Types.{observed, confirmed, Evidence, AppState, Attempt}
use running_tools.AliasApps.Evidence.{next_status}
use running_tools.AliasApps.Store.{
  created_row, updated_row, of_alias, attempt, observe_evidence, observe_all,
}

-- An observed row has the time of its registration and none of a confirmation; a confirmed row has
-- the time of its confirmation.
abbrev is_valid : AppState → Bool
is_valid r = elim r.status [
  | observed ↦ is_some r.detected_at && is_none r.confirmed_at
  | confirmed ↦ is_some r.confirmed_at
]

abbrev pub all_valid : List AppState → Bool
all_valid [] = true
all_valid (r ∷ rs) = is_valid r && all_valid rs

abbrev ValidRivals : (ℕ → Attempt × Attempt) → Type 0
ValidRivals tries =
    (i : ℕ) → (all_valid (tries i).0.rivals ≡ true) × (all_valid (tries i).1.rivals ≡ true)

created-valid :
    (acc : Text) (e : Evidence) (r : AppState) → created_row acc e ≡ some r → is_valid r ≡ true
unfolding created_row next_status
created-valid acc e r h = ground arith

updated-valid :
    (e : Evidence) (r r' : AppState)
    → is_valid r ≡ true
    → updated_row e r ≡ some r'
    → is_valid r' ≡ true
unfolding updated_row next_status
updated-valid e r r' v h = ground arith

valid-append :
    (t u : List AppState) → all_valid t ≡ true → all_valid u ≡ true → all_valid (t ++ u) ≡ true
valid-append [] u h k = k
valid-append (r ∷ t) u h k = ground (arith, valid-append t u)

valid-modify :
    (p : AppState → Bool) (r : AppState) (t : List AppState)
    → is_valid r ≡ true
    → all_valid t ≡ true
    → all_valid (modify p (λ _. r) t) ≡ true
unfolding modify
valid-modify p r [] h k = refl
valid-modify p r (x ∷ t) h k = ground (arith, valid-modify p r t h)

valid-find :
    (p : AppState → Bool) (t : List AppState) (r : AppState)
    → all_valid t ≡ true
    → find p t ≡ some r
    → is_valid r ≡ true
unfolding find
valid-find p [] r h k = ground arith
valid-find p (x ∷ t) r h k = ground (arith, valid-find p t r)

module _ (acc : Text) where
  attempt-valid :
      (a : Attempt) (e : Evidence) (t : List AppState)
      → all_valid a.rivals ≡ true
      → all_valid t ≡ true
      → all_valid (attempt acc a e t).0 ≡ true
  unfolding attempt
  attempt-valid a e t h k =
      let both = valid-append t a.rivals k h in
      elim (Option-cases (find (of_alias acc e.alias) t)) [
        | inl f ↦ elim (Option-cases (created_row acc e)) [
          | inl g ↦ ground arith
          | inr (x, g) ↦
              ground (arith, created-valid acc e x g, valid-append (t ++ a.rivals) (x ∷ []) both)
        ]
        | inr (old, f) ↦ elim (Option-cases (updated_row e old)) [
          | inl g ↦ ground arith
          | inr (x, g) ↦ ground (
            arith,
            updated-valid e old x (valid-find (of_alias acc e.alias) t old k f) g,
            valid-modify (of_alias acc e.alias) x (t ++ a.rivals),
          )
        ]
      ]

  observe-valid :
      (a b : Attempt) (e : Evidence) (t : List AppState)
      → all_valid a.rivals ≡ true
      → all_valid b.rivals ≡ true
      → all_valid t ≡ true
      → all_valid (observe_evidence acc a b e t).0 ≡ true
  unfolding observe_evidence
  observe-valid a b e t h k v =
      let once = attempt-valid a e t h v in
      ground (arith, once, attempt-valid b e (attempt acc a e t).0 k once)

  -- Every sequence of evidence keeps the columns of each row in line with its status: an observed
  -- row has the time of its registration only, a confirmed row the time of its confirmation. The
  -- rows that other processes insert in between are in line too; statements may fail.
  pub observe_all-valid :
      (tries : ℕ → Attempt × Attempt) (i : ℕ) (es : List Evidence) (t : List AppState)
      → ValidRivals tries
      → all_valid t ≡ true
      → all_valid (observe_all acc tries i es t).0 ≡ true
  unfolding observe_all
  observe_all-valid tries i [] t h v = v
  observe_all-valid tries i (e ∷ es) t h v =
      let r = observe_evidence acc (tries i).0 (tries i).1 e t in
      let once = observe-valid (tries i).0 (tries i).1 e t (h i).0 (h i).1 v in
      elim (Option-cases r.1) [
        | inl f ↦ rw (observe_all, f) (observe_all-valid tries (suc i) es r.0 h once)
        | inr (x, f) ↦ rw (observe_all, f) once
      ]
