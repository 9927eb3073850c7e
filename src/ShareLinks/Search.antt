-- ===== src/ShareLinks/Search.antt =====
-- modules/mail/backend/share_links.go: what its loops over the links find.
use running_tools.Prelude.{
  ◌≡◌, refl, Bool, true, ◌||◌, some, List, [], ◌∷◌, ◌++◌, arith, keep, some_of, is_some, All,
}
use running_tools.ShareLinks.Types.{ShareLink}
use running_tools.ShareLinks.Store.{find_link}

module _ (p : ShareLink → Bool) where
  pub find_link-some_of : (ls : List ShareLink) → is_some (find_link p ls) ≡ some_of p ls
  unfolding find_link
  find_link-some_of [] = refl
  find_link-some_of (l ∷ ls) = ground (arith, find_link-some_of ls)

  -- What is found passes the test, and has what all the links have.
  pub find_link-All :
      (P : ShareLink → Type 0) (l : ShareLink) (ls : List ShareLink)
      → All P ls
      → find_link p ls ≡ some l
      → (p l ≡ true) × P l
  unfolding find_link
  find_link-All P l [] a h = ground arith
  find_link-All P l (x ∷ xs) (a, b) h = ground (arith, find_link-All P l xs b)

  pub some_of-append :
      (xs ys : List ShareLink) → some_of p (xs ++ ys) ≡ some_of p xs || some_of p ys
  some_of-append [] ys = refl
  some_of-append (x ∷ xs) ys = ground (arith, some_of-append xs ys)

  -- A filter that keeps all that a test accepts does not change what the test finds first.
  pub find_link-keep :
      (q : ShareLink → Bool) (ls : List ShareLink)
      → ((l : ShareLink) → p l ≡ true → q l ≡ true)
      → find_link p (keep q ls) ≡ find_link p ls
  unfolding find_link
  find_link-keep q [] h = refl
  find_link-keep q (l ∷ ls) h = ground (arith, find_link-keep q ls h, h l)
