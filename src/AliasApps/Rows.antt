-- ===== src/AliasApps/Rows.antt =====
-- modules/mail/backend/alias_applications.go: the table of states under observeEvidence.
use running_tools.Prelude.{
  ℕ, suc, Bool, true, false, none, some, List, [], ◌∷◌, ◌++◌, arith, ◌≡◌, refl, if◌then◌else◌, keep,
  some_of, find, modify, Option-cases, inl, inr,
}
use mathlib.Core.List.{append-nil}
use running_tools.Prelude.Text.{Text, text_eq, text_eq→eq, text_eq_refl}
use running_tools.AliasApps.Types.{confirmed, Evidence, AppState, Attempt}
use running_tools.AliasApps.Evidence.{next_status}
use running_tools.AliasApps.Store.{
  created_row, updated_row, of_alias, attempt, observe_evidence, observe_all, done,
}
use running_tools.AliasApps.Progress.{
  advance, advance_all, status_of, verdict, in_order, all_from, advance_all-verdict,
}

-- Every statement runs, and no other process writes in between.
abbrev pub calm : ℕ → Attempt × Attempt
calm i = (
  record { loads = true; rivals = []; saves = true },
  record { loads = true; rivals = []; saves = true },
)

-- The evidence of one alias.
abbrev pub of_evidence : Text → Evidence → Bool
of_evidence alias e = text_eq e.alias alias

module _ (acc : Text) where
  created-key :
      (e : Evidence) (r : AppState)
      → created_row acc e ≡ some r
      → (r.account_id ≡ acc) × (r.alias ≡ e.alias)
  unfolding created_row next_status
  created-key e r h = ground arith

  updated-key :
      (e : Evidence) (r r' : AppState)
      → updated_row e r ≡ some r'
      → (r'.account_id ≡ r.account_id) × (r'.alias ≡ r.alias)
  unfolding updated_row next_status
  updated-key e r r' h = ground arith

  find-none-some_of :
      (p : AppState → Bool) (t : List AppState) → find p t ≡ none → some_of p t ≡ false
  unfolding find
  find-none-some_of p [] h = refl
  find-none-some_of p (r ∷ t) h = ground (arith, find-none-some_of p t)

  find-key :
      (alias : Text) (t : List AppState) (r : AppState)
      → find (of_alias acc alias) t ≡ some r
      → of_alias acc alias r ≡ true
  unfolding find
  find-key alias [] r h = ground arith
  find-key alias (x ∷ t) r h = ground (arith, find-key alias t r)

  find-append :
      (p : AppState → Bool) (t u : List AppState)
      → find p (t ++ u) ≡ elim (find p t) [ none ↦ find p u | some r ↦ some r ]
  unfolding find
  find-append p [] u = refl
  find-append p (x ∷ t) u = ground (arith, find-append p t u)

  -- An UPDATE of the row of an alias, seen from the same alias and from another.
  find-same :
      (alias : Text) (r : AppState) (t : List AppState)
      → of_alias acc alias r ≡ true
      → find (of_alias acc alias) (modify (of_alias acc alias) (λ _. r) t)
        ≡ elim (find (of_alias acc alias) t) [ none ↦ none | some x ↦ some r ]
  unfolding find modify
  find-same alias r [] h = refl
  find-same alias r (x ∷ t) h = ground (arith, find-same alias r t h)

  find-apart :
      (alias a : Text) (r : AppState) (t : List AppState)
      → of_alias acc alias r ≡ true
      → text_eq alias a ≡ false
      → find (of_alias acc a) (modify (of_alias acc alias) (λ _. r) t) ≡ find (of_alias acc a) t
  unfolding find modify
  find-apart alias a r [] h k = refl
  find-apart alias a r (x ∷ t) h k =
      ground (arith, find-apart alias a r t h k, text_eq→eq r.alias alias, text_eq→eq x.alias alias)

  -- The evidence moves the row of its alias, and no other row.
  pub find-attempt :
      (e : Evidence) (alias : Text) (t : List AppState)
      → ((attempt acc (calm 0).0 e t).1 ≡ done)
        × (find (of_alias acc alias) (attempt acc (calm 0).0 e t).0 ≡ (
            if text_eq e.alias alias
            then advance acc (find (of_alias acc alias) t) e
            else find (of_alias acc alias) t))
  unfolding attempt advance find
  find-attempt e alias t = elim (Option-cases (find (of_alias acc e.alias) t)) [
    | inl h ↦ elim (Option-cases (created_row acc e)) [
      | inl k ↦ ground (arith, append-nil t, text_eq→eq e.alias alias)
      | inr (r, k) ↦ ground (
        arith,
        append-nil t,
        text_eq→eq e.alias alias,
        created-key e r,
        find-none-some_of (of_alias acc e.alias) t,
        find-append (of_alias acc alias) t (r ∷ []),
        text_eq_refl acc,
      )
    ]
    | inr (old, h) ↦ elim (Option-cases (updated_row e old)) [
      | inl k ↦ ground (arith, append-nil t, text_eq→eq e.alias alias)
      | inr (r, k) ↦ ground (
        arith,
        append-nil t,
        text_eq→eq e.alias alias,
        updated-key e old r,
        find-key e.alias t old,
        find-same e.alias r t,
        find-apart e.alias alias r t,
        text_eq_refl acc,
      )
    ]
  ]

  all_from-keep :
      (p : Evidence → Bool) (at uid : ℕ) (es : List Evidence)
      → all_from at uid es ≡ true
      → all_from at uid (keep p es) ≡ true
  all_from-keep p at uid [] h = refl
  all_from-keep p at uid (e ∷ es) h = ground (arith, all_from-keep p at uid es)

  in_order-keep :
      (p : Evidence → Bool) (es : List Evidence) → in_order es ≡ true → in_order (keep p es) ≡ true
  in_order-keep p [] h = refl
  in_order-keep p (e ∷ es) h = ground (arith, in_order-keep p es, all_from-keep p e.at e.uid es)

  -- The row of an alias after a sequence is its row before under the alias's evidence.
  find-observe_all :
      (alias : Text) (i : ℕ) (es : List Evidence) (t : List AppState)
      → ((observe_all acc calm i es t).1 ≡ none)
        × (find (of_alias acc alias) (observe_all acc calm i es t).0
            ≡ advance_all acc (find (of_alias acc alias) t) (keep (of_evidence alias) es))
  unfolding observe_all observe_evidence advance_all
  find-observe_all alias i [] t = (refl, refl)
  find-observe_all alias i (e ∷ es) t = ground (
    arith,
    find-attempt e alias t,
    find-observe_all alias (suc i) es (attempt acc (calm 0).0 e t).0,
  )

  -- Where no other process writes and every statement runs, the evidence of the messages, in the
  -- order in which ObserveMessages sorts them, is stored with no error, and an alias that had no
  -- row then has the status that its evidence proves: confirmed where some evidence is definitive
  -- or a login comes after a registration, else observed where there is a registration, else no
  -- row.
  pub observe_all-verdict :
      (alias : Text) (es : List Evidence) (t : List AppState)
      → in_order es ≡ true
      → find (of_alias acc alias) t ≡ none
      → ((observe_all acc calm 0 es t).1 ≡ none)
        × (status_of (find (of_alias acc alias) (observe_all acc calm 0 es t).0)
            ≡ verdict (keep (of_evidence alias) es))
  observe_all-verdict alias es t h k =
      let own = keep (of_evidence alias) es in
      ground (
        arith,
        find-observe_all alias 0 es t,
        advance_all-verdict acc own (in_order-keep (of_evidence alias) es h),
      )

  -- One try leaves a confirmed row, whatever it meets.
  confirmed-attempt :
      (a : Attempt) (e : Evidence) (alias : Text) (t : List AppState) (r : AppState)
      → find (of_alias acc alias) t ≡ some r
      → r.status ≡ confirmed
      → find (of_alias acc alias) (attempt acc a e t).0 ≡ some r
  unfolding attempt updated_row next_status
  confirmed-attempt a e alias t r h k = elim (Option-cases (find (of_alias acc e.alias) t)) [
    | inl f ↦ elim (Option-cases (created_row acc e)) [
      | inl g ↦ ground (arith, find-append (of_alias acc alias) t a.rivals)
      | inr (x, g) ↦ ground (
        arith,
        find-append (of_alias acc alias) t a.rivals,
        find-append (of_alias acc alias) (t ++ a.rivals) (x ∷ []),
      )
    ]
    | inr (old, f) ↦ elim (Option-cases (updated_row e old)) [
      | inl g ↦ ground (arith, find-append (of_alias acc alias) t a.rivals)
      | inr (x, g) ↦ ground (
        arith,
        text_eq→eq e.alias alias,
        updated-key e old x,
        find-key e.alias t old,
        find-append (of_alias acc alias) t a.rivals,
        find-apart e.alias alias x (t ++ a.rivals),
        text_eq_refl acc,
      )
    ]
  ]

  confirmed-observe :
      (a b : Attempt) (e : Evidence) (alias : Text) (t : List AppState) (r : AppState)
      → find (of_alias acc alias) t ≡ some r
      → r.status ≡ confirmed
      → find (of_alias acc alias) (observe_evidence acc a b e t).0 ≡ some r
  unfolding observe_evidence
  confirmed-observe a b e alias t r h k =
      let once = confirmed-attempt a e alias t r h k in
      ground (arith, once, confirmed-attempt b e alias (attempt acc a e t).0 r once k)

  -- No sequence of evidence changes the row of an alias that is confirmed, whatever other processes
  -- insert in between and whichever statements fail.
  pub observe_all-confirmed :
      (tries : ℕ → Attempt × Attempt) (i : ℕ) (es : List Evidence) (alias : Text)
      (t : List AppState) (r : AppState)
      → find (of_alias acc alias) t ≡ some r
      → r.status ≡ confirmed
      → find (of_alias acc alias) (observe_all acc tries i es t).0 ≡ some r
  unfolding observe_all
  observe_all-confirmed tries i [] alias t r h k = h
  observe_all-confirmed tries i (e ∷ es) alias t r h k =
      let v = observe_evidence acc (tries i).0 (tries i).1 e t in
      let once = confirmed-observe (tries i).0 (tries i).1 e alias t r h k in
      elim (Option-cases v.1) [
        | inl f ↦ rw (observe_all, f) (observe_all-confirmed tries (suc i) es alias v.0 r once k)
        | inr (x, f) ↦ rw (observe_all, f) once
      ]
