-- ===== src/Prelude/Search.antt =====
-- The first element of a list that passes a Boolean test, and the rows that an update changes.
use mathlib.Core.Path.{◌≡◌, refl}
use mathlib.Core.Bool.{Bool, true, false}
use mathlib.Core.Logic.{inl, inr}
use mathlib.Core.List.{List, [], ◌∷◌, ◌++◌}
use mathlib.Core.Option.{Option, none, some}
use native.Mathlib.Omega.{arith}
use running_tools.Prelude.Tests.{if◌then◌else◌, Bool-cases}
use running_tools.Prelude.Lists.{keep, All}

module _ {A : Type 0} where
  unfoldable pub find : (A → Bool) → List A → Option A
  find p [] = none
  find p (x ∷ xs) = let rest = find p xs in if p x then some x else rest

  -- Every element that passes the test is changed, as by UPDATE.
  unfoldable pub modify : (A → Bool) → (A → A) → List A → List A
  modify p f [] = []
  modify p f (x ∷ xs) = (if p x then f x else x) ∷ modify p f xs

  -- What is found passes the test, and has what all the elements have.
  pub find-All :
      (p : A → Bool) (P : A → Type 0) (x : A) (xs : List A)
      → All P xs
      → find p xs ≡ some x
      → (p x ≡ true) × P x
  unfolding find
  find-All p P x [] a h = ground arith
  find-All p P x (y ∷ ys) (a, b) h = ground (arith, find-All p P x ys b)

  -- A filter that keeps all that a test accepts does not change what the test finds first.
  pub find-keep :
      (p q : A → Bool) (xs : List A)
      → ((x : A) → p x ≡ true → q x ≡ true)
      → find p (keep q xs) ≡ find p xs
  unfolding find
  find-keep p q [] h = refl
  find-keep p q (x ∷ xs) h = ground (arith, find-keep p q xs h, h x)

  pub find-keep-none : (p q : A → Bool) (xs : List A) → find p xs ≡ none → find p (keep q xs) ≡ none
  unfolding find
  find-keep-none p q [] h = refl
  find-keep-none p q (x ∷ xs) h = ground (arith, find-keep-none p q xs)

  -- A new last element is found where no other is.
  pub find-append_last :
      (p : A → Bool) (xs : List A) (x : A)
      → find p xs ≡ none
      → p x ≡ true
      → find p (xs ++ (x ∷ [])) ≡ some x
  unfolding find
  find-append_last p [] x h k = ground arith
  find-append_last p (y ∷ ys) x h k = ground (arith, find-append_last p ys x)

  pub find-map_none :
      (p q : A → Bool) (xs : List A)
      → ((x : A) → p x ≡ true → q x ≡ true)
      → find q xs ≡ none
      → find p xs ≡ none
  unfolding find
  find-map_none p q [] h k = refl
  find-map_none p q (x ∷ xs) h k = ground (arith, find-map_none p q xs h, h x)

  -- After an update every row has what the update gives and what the rows that it leaves have.
  pub All-modify :
      (Q : A → Type 0) (p : A → Bool) (f : A → A) (xs : List A)
      → ((x : A) → p x ≡ true → Q (f x))
      → ((x : A) → p x ≡ false → Q x)
      → All Q (modify p f xs)
  unfolding modify
  All-modify Q p f [] h k = tt
  All-modify Q p f (x ∷ xs) h k = (
    elim (Bool-cases (p x)) [ inl e ↦ rw e (h x e) | inr e ↦ rw e (k x e) ],
    All-modify Q p f xs h k,
  )
