-- ===== src/Prelude/Sort.antt =====
-- The sorts of the program, as insertion by a Boolean test, and lists cut at a number.
use Prim.Native.Nat.{ℕ, zero, suc, ◌-◌, ◌≤◌}
use mathlib.Core.Path.{◌≡◌, refl}
use mathlib.Core.Logic.{inl, inr}
use mathlib.Core.Bool.{Bool, true, ◌&&◌}
use mathlib.Core.List.{
  List, [], ◌∷◌, ◌++◌, map, reverse, append-nil, reverse-cons, reverse-reverse, map-append,
}
use native.Mathlib.Omega.{arith}
use running_tools.Prelude.Tests.{if◌then◌else◌, leb, Bool-cases}
use running_tools.Prelude.Lists.{keep, take, drop, length, length-append}

module _ {A : Type 0} (ahead : A → A → Bool) where
  -- `e` stands before the first element that is not ahead of it.
  unfoldable insert_by : A → List A → List A
  insert_by e [] = e ∷ []
  insert_by e (x ∷ xs) = let rest = insert_by e xs in if ahead x e then x ∷ rest else e ∷ x ∷ xs

  unfoldable pub sort_by : List A → List A
  unfolding insert_by
  sort_by [] = []
  sort_by (e ∷ es) = insert_by e (sort_by es)

  -- Every element is behind those after it.
  abbrev pub all_ahead : A → List A → Bool
  all_ahead e [] = true
  all_ahead e (x ∷ xs) = ahead x e && all_ahead e xs

  abbrev pub backwards : List A → Bool
  backwards [] = true
  backwards (e ∷ es) = all_ahead e es && backwards es

  insert_by-last : (e : A) (es : List A) → all_ahead e es ≡ true → insert_by e es ≡ es ++ (e ∷ [])
  unfolding insert_by
  insert_by-last e [] h = refl
  insert_by-last e (x ∷ xs) h = ground (arith, insert_by-last e xs)

  all_ahead-append :
      (e : A) (xs ys : List A)
      → all_ahead e xs ≡ true
      → all_ahead e ys ≡ true
      → all_ahead e (xs ++ ys) ≡ true
  all_ahead-append e [] ys h k = k
  all_ahead-append e (x ∷ xs) ys h k = ground (arith, all_ahead-append e xs ys)

  all_ahead-reverse :
      (e : A) (es : List A) → all_ahead e es ≡ true → all_ahead e (reverse es) ≡ true
  all_ahead-reverse e [] h = refl
  all_ahead-reverse e (x ∷ xs) h = rw (reverse-cons x xs) (
      all_ahead-append e (reverse xs) (x ∷ []) (all_ahead-reverse e xs (ground arith))
        (ground arith))

  -- A list that is backwards is sorted by reversing it.
  pub sort_by-reverse : (es : List A) → backwards es ≡ true → sort_by es ≡ reverse es
  unfolding sort_by
  sort_by-reverse [] h = refl
  sort_by-reverse (e ∷ es) h = ground (
    arith,
    sort_by-reverse es,
    all_ahead-reverse e es,
    insert_by-last e (reverse es),
    reverse-cons e es,
  )

  -- The element is ahead of all of them.
  abbrev pub ahead_all : A → List A → Bool
  ahead_all e [] = true
  ahead_all e (x ∷ xs) = ahead e x && ahead_all e xs

  -- Such an element stands first, though it comes last.
  pub sort_by-latest :
      (e : A) (es : List A) → ahead_all e es ≡ true → sort_by (es ++ (e ∷ [])) ≡ e ∷ sort_by es
  unfolding sort_by insert_by
  sort_by-latest e [] h = refl
  sort_by-latest e (x ∷ xs) h = ground (arith, sort_by-latest e xs)

  pub ahead_all-keep :
      (p : A → Bool) (e : A) (xs : List A) → ahead_all e xs ≡ true → ahead_all e (keep p xs) ≡ true
  ahead_all-keep p e [] h = refl
  ahead_all-keep p e (x ∷ xs) h = ground (arith, ahead_all-keep p e xs)

  pub ahead_all-drop :
      (n : ℕ) (e : A) (xs : List A) → ahead_all e xs ≡ true → ahead_all e (drop n xs) ≡ true
  ahead_all-drop zero e xs h = h
  ahead_all-drop (suc n) e [] h = refl
  ahead_all-drop (suc n) e (x ∷ xs) h = ground (arith, ahead_all-drop n e xs)

module _ {A : Type 0} where
  pub drop-append : (n : ℕ) (xs ys : List A) → n ≤ length xs → drop n (xs ++ ys) ≡ drop n xs ++ ys
  drop-append zero xs ys h = refl
  drop-append (suc n) [] ys h = ground arith
  drop-append (suc n) (x ∷ xs) ys h = ground (arith, drop-append n xs ys)

  pub keep-append : (p : A → Bool) (xs ys : List A) → keep p (xs ++ ys) ≡ keep p xs ++ keep p ys
  keep-append p [] ys = refl
  keep-append p (x ∷ xs) ys = ground (arith, keep-append p xs ys)

  pub keep-reverse : (p : A → Bool) (xs : List A) → keep p (reverse xs) ≡ reverse (keep p xs)
  keep-reverse p [] = refl
  keep-reverse p (x ∷ xs) = ground (
    arith,
    keep-reverse p xs,
    reverse-cons x xs,
    reverse-cons x (keep p xs),
    keep-append p (reverse xs) (x ∷ []),
    append-nil (reverse (keep p xs)),
  )

  length-reverse : (xs : List A) → length (reverse xs) ≡ length xs
  length-reverse [] = refl
  length-reverse (x ∷ xs) =
      ground (arith, length-reverse xs, reverse-cons x xs, length-append (reverse xs) (x ∷ []))

  take-all : (n : ℕ) (xs : List A) → length xs ≤ n → take n xs ≡ xs
  take-all zero [] h = refl
  take-all zero (x ∷ xs) h = ground arith
  take-all (suc n) [] h = refl
  take-all (suc n) (x ∷ xs) h = ground (arith, take-all n xs)

  take-append :
      (n : ℕ) (xs ys : List A)
      → take n (xs ++ ys) ≡ (if leb n (length xs) then take n xs else xs ++ take (n - length xs) ys)
  take-append zero [] ys = refl
  take-append zero (x ∷ xs) ys = ground arith
  take-append (suc n) [] ys = ground arith
  take-append (suc n) (x ∷ xs) ys = ground (arith, take-append n xs ys)

  drop-suc : (k m : ℕ) (x : A) (xs : List A) → k ≡ suc m → drop k (x ∷ xs) ≡ drop m xs
  drop-suc k m x xs h = rw h refl

  drop-zero : (k : ℕ) (xs : List A) → k ≡ 0 → drop k xs ≡ xs
  drop-zero k xs h = rw h refl

  -- The last elements of a list.
  pub reverse-take : (n : ℕ) (xs : List A) → reverse (take n (reverse xs)) ≡ drop (length xs - n) xs
  reverse-take n [] = ground (arith, take-all n [], drop-zero (0 - n) [])
  reverse-take n (x ∷ xs) = elim (Bool-cases (leb n (length xs))) [
    | inl h ↦ ground (
      arith,
      reverse-cons x xs,
      take-append n (reverse xs) (x ∷ []),
      length-reverse xs,
      reverse-take n xs,
      drop-suc (suc (length xs) - n) (length xs - n) x xs (ground arith),
    )
    | inr h ↦ ground (
      arith,
      reverse-cons x xs,
      take-append n (reverse xs) (x ∷ []),
      length-reverse xs,
      take-all (n - length xs) (x ∷ []) (ground arith),
      reverse-reverse (x ∷ xs),
      drop-zero (suc (length xs) - n) (x ∷ xs) (ground arith),
    )
  ]

pub map-reverse : {A B : Type 0} (f : A → B) (xs : List A) → map f (reverse xs) ≡ reverse (map f xs)
map-reverse f [] = refl
map-reverse f (x ∷ xs) = ground (
  arith,
  map-reverse f xs,
  reverse-cons x xs,
  reverse-cons (f x) (map f xs),
  map-append f (reverse xs) (x ∷ []),
)

module _ {A B : Type 0} (f : A → B) where
  pub map-take : (n : ℕ) (xs : List A) → map f (take n xs) ≡ take n (map f xs)
  map-take zero xs = refl
  map-take (suc n) [] = refl
  map-take (suc n) (x ∷ xs) = ground (arith, map-take n xs)

  pub map-drop : (n : ℕ) (xs : List A) → map f (drop n xs) ≡ drop n (map f xs)
  map-drop zero xs = refl
  map-drop (suc n) [] = refl
  map-drop (suc n) (x ∷ xs) = map-drop n xs

  pub length-map : (xs : List A) → length (map f xs) ≡ length xs
  length-map [] = refl
  length-map (x ∷ xs) = ground (arith, length-map xs)
