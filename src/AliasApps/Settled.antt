-- ===== src/AliasApps/Settled.antt =====
-- modules/mail/backend/alias_applications.go: Backfill reads the same messages at every start.
use running_tools.Prelude.{
  ℕ, suc, Bool, true, ◌&&◌, ◌||◌, Option, none, some, List, [], ◌∷◌, arith, ◌≡◌, refl, ltb, leb,
  ◌==◌, is_none, find, Option-cases, inl, inr,
}
use mathlib.Core.List.{append-nil}
use running_tools.Prelude.Text.{Text, text_eq_refl}
use running_tools.AliasApps.Types.{Evidence, AppState}
use running_tools.AliasApps.Evidence.{next_status, evidence_follows}
use running_tools.AliasApps.Store.{
  created_row, updated_row, of_alias, attempt, observe_evidence, observe_all, done,
}
use running_tools.AliasApps.Progress.{advance, in_order, all_from}
use running_tools.AliasApps.Rows.{calm, find-attempt}

module _ (acc : Text) where
  -- The evidence has nothing to write.
  unfoldable settled : Option AppState → Evidence → Bool
  settled none e = is_none (created_row acc e)
  settled (some r) e = is_none (updated_row e r)

  -- Evidence that is written has nothing more to write.
  advance-settled : (s : Option AppState) (e : Evidence) → settled (advance acc s e) e ≡ true
  unfolding settled advance created_row updated_row next_status evidence_follows
  advance-settled none e = ground arith
  advance-settled (some r) e = ground arith

  -- Later evidence does not unsettle what came before it.
  settled-advance :
      (s : Option AppState) (p e : Evidence)
      → settled s p ≡ true
      → (ltb p.at e.at || p.at == e.at && leb p.uid e.uid) ≡ true
      → settled (advance acc s e) p ≡ true
  unfolding settled advance created_row updated_row next_status evidence_follows
  settled-advance none p e h k = ground arith
  settled-advance (some r) p e h k = ground arith

  abbrev settled_in : List AppState → Evidence → Bool
  settled_in t e = settled (find (of_alias acc e.alias) t) e

  abbrev all_settled : List AppState → List Evidence → Bool
  all_settled t [] = true
  all_settled t (e ∷ es) = settled_in t e && all_settled t es

  attempt-settled_in :
      (t : List AppState) (p e : Evidence)
      → settled_in t p ≡ true
      → (ltb p.at e.at || p.at == e.at && leb p.uid e.uid) ≡ true
      → settled_in (attempt acc (calm 0).0 e t).0 p ≡ true
  attempt-settled_in t p e h k =
      ground (
        arith,
        find-attempt acc e p.alias t,
        settled-advance (find (of_alias acc p.alias) t) p e h k,
      )

  attempt-settled :
      (t : List AppState) (e : Evidence) → settled_in (attempt acc (calm 0).0 e t).0 e ≡ true
  attempt-settled t e = ground (
    arith,
    find-attempt acc e e.alias t,
    text_eq_refl e.alias,
    advance-settled (find (of_alias acc e.alias) t) e,
  )

  -- One evidence stays settled through a sequence that comes after it.
  stays-settled :
      (i : ℕ) (p : Evidence) (es : List Evidence) (t : List AppState)
      → settled_in t p ≡ true
      → all_from p.at p.uid es ≡ true
      → settled_in (observe_all acc calm i es t).0 p ≡ true
  unfolding observe_all observe_evidence
  stays-settled i p [] t h k = h
  stays-settled i p (e ∷ es) t h k = ground (
    arith,
    find-attempt acc e p.alias t,
    attempt-settled_in t p e h,
    stays-settled (suc i) p es (attempt acc (calm 0).0 e t).0,
  )

  observe_all-settled :
      (i : ℕ) (es : List Evidence) (t : List AppState)
      → in_order es ≡ true
      → all_settled (observe_all acc calm i es t).0 es ≡ true
  unfolding observe_all observe_evidence
  observe_all-settled i [] t h = refl
  observe_all-settled i (e ∷ es) t h = ground (
    arith,
    find-attempt acc e e.alias t,
    attempt-settled t e,
    stays-settled (suc i) e es (attempt acc (calm 0).0 e t).0,
    observe_all-settled (suc i) es (attempt acc (calm 0).0 e t).0,
  )

  settled-attempt :
      (t : List AppState) (e : Evidence)
      → settled_in t e ≡ true
      → attempt acc (calm 0).0 e t ≡ (t, done)
  unfolding attempt settled
  settled-attempt t e h = elim (Option-cases (find (of_alias acc e.alias) t)) [
    | inl f ↦ ground (arith, append-nil t)
    | inr (r, f) ↦ ground (arith, append-nil t)
  ]

  settled-observe_all :
      (i : ℕ) (es : List Evidence) (t : List AppState)
      → all_settled t es ≡ true
      → observe_all acc calm i es t ≡ (t, none)
  unfolding observe_all observe_evidence
  settled-observe_all i [] t h = refl
  settled-observe_all i (e ∷ es) t h =
      ground (arith, settled-attempt t e, settled-observe_all (suc i) es t)

  -- Where every statement runs and no other process writes, evidence in the order of the messages
  -- that is observed a second time writes nothing: Backfill at the next start leaves the table.
  pub observe_all-again :
      (es : List Evidence) (t : List AppState)
      → in_order es ≡ true
      → observe_all acc calm 0 es (observe_all acc calm 0 es t).0
        ≡ ((observe_all acc calm 0 es t).0, none)
  observe_all-again es t h =
      settled-observe_all 0 es (observe_all acc calm 0 es t).0 (observe_all-settled 0 es t h)
