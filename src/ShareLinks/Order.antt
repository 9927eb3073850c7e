-- ===== src/ShareLinks/Order.antt =====
-- modules/mail/backend/share_links.go: the order in which List shows the links of an alias.
use running_tools.Prelude.{
  ℕ, Bool, true, ◌&&◌, List, [], ◌∷◌, ◌++◌, reverse, ltb, keep, arith, ◌≡◌, refl,
}
use mathlib.Core.List.{reverse-cons}
use running_tools.Prelude.Sort.{map-reverse}
use running_tools.Prelude.Text.{Text, text_eq}
use running_tools.ShareLinks.Types.{ShareLink, Store}
use running_tools.ShareLinks.Store.{load, list, share_alias, public_share_link}
use running_tools.ShareLinks.Database.{Tables, own, db_list, insert_newest, newest_first}
use running_tools.ShareLinks.Steps.{call_at}

-- Each link is created after those before it.
abbrev pub after : ShareLink → List ShareLink → Bool
after l [] = true
after l (x ∷ xs) = ltb l.created_at x.created_at && after l xs

abbrev increasing : List ShareLink → Bool
increasing [] = true
increasing (l ∷ ls) = after l ls && increasing ls

insert_newest-last :
    (l : ShareLink) (ls : List ShareLink) → after l ls ≡ true → insert_newest l ls ≡ ls ++ (l ∷ [])
unfolding insert_newest
insert_newest-last l [] h = refl
insert_newest-last l (x ∷ xs) h = ground (arith, insert_newest-last l xs)

after-append :
    (l : ShareLink) (xs ys : List ShareLink)
    → after l xs ≡ true
    → after l ys ≡ true
    → after l (xs ++ ys) ≡ true
after-append l [] ys h k = k
after-append l (x ∷ xs) ys h k = ground (arith, after-append l xs ys)

after-reverse :
    (l : ShareLink) (ls : List ShareLink) → after l ls ≡ true → after l (reverse ls) ≡ true
after-reverse l [] h = refl
after-reverse l (x ∷ xs) h =
    rw (reverse-cons x xs)
      (after-append l (reverse xs) (x ∷ []) (after-reverse l xs (ground arith)) (ground arith))

newest_first-reverse : (ls : List ShareLink) → increasing ls ≡ true → newest_first ls ≡ reverse ls
unfolding newest_first
newest_first-reverse [] h = refl
newest_first-reverse (l ∷ ls) h = ground (
  arith,
  newest_first-reverse ls,
  after-reverse l ls,
  insert_newest-last l (reverse ls),
  reverse-cons l ls,
)

-- Where the account's rows are what the file holds, and the links of an alias stand in the order
-- of their creation, List from the database is the reverse of List from the file: the newest link
-- comes first, where the file shows it last.
pub db_list-list :
    (acc : Text) (now : ℕ) (alias : Text) (t : Tables) (s : Store)
    → own acc t.links ≡ (load s).links
    → increasing (keep (λ l. text_eq l.alias (share_alias alias)) (load s).links) ≡ true
    → db_list acc (call_at now) alias t ≡ reverse (list now alias s)
unfolding db_list list
db_list-list acc now alias t s h k =
    let ls = keep (λ (l : ShareLink). text_eq l.alias (share_alias alias)) (load s).links in
    rw h (rw (newest_first-reverse ls k) (map-reverse (public_share_link now) ls))
