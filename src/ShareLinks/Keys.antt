-- ===== src/ShareLinks/Keys.antt =====
-- modules/mail/backend/share_links.go: the keys of the two tables under one statement.
use running_tools.Prelude.{
  ℕ, suc, Bool, true, false, not, some, List, [], ◌∷◌, ◌++◌, keep, some_of, modify, All, arith, ◌≡◌,
  refl, if◌then◌else◌, subst, sym,
}
use running_tools.Prelude.Text.{Text, text_eq, text_eq_comm}
use running_tools.ShareLinks.Types.{ShareLink}
use running_tools.ShareLinks.Database.{LinkRow, SessionRow, Tables, clash, row_of, insert_links}
use running_tools.ShareLinks.Views.{Keyed, link_of, Linked}

-- The keys hold: PRIMARY KEY (id), and every session refers to a link of its own account.
abbrev pub IsKeyed : Tables → Type 0
IsKeyed t = Keyed t.links × Linked t.links t.sessions

-- An UPDATE that leaves the key columns.
abbrev KeepsKeys : (LinkRow → LinkRow) → Type 0
KeepsKeys f = (r : LinkRow) → ((f r).link.id ≡ r.link.id) × ((f r).account_id ≡ r.account_id)

module _ (p : LinkRow → Bool) (f : LinkRow → LinkRow) (h : KeepsKeys f) where
  others-modify :
      (id : Text) (rs : List LinkRow)
      → All (λ r. text_eq r.link.id id ≡ false) rs
      → All (λ r. text_eq r.link.id id ≡ false) (modify p f rs)
  unfolding modify
  others-modify id [] a = tt
  others-modify id (r ∷ rs) (a, b) = ground (arith, others-modify id rs b, h r)

  id-modify : (r : LinkRow) → (if p r then f r else r).link.id ≡ r.link.id
  id-modify r = ground (arith, h r)

  pub modify-Keyed : (rs : List LinkRow) → Keyed rs → Keyed (modify p f rs)
  unfolding modify
  modify-Keyed [] k = tt
  modify-Keyed (r ∷ rs) (a, k) = (
    subst (λ (i : Text). All (λ (y : LinkRow). text_eq y.link.id i ≡ false) (modify p f rs))
        (sym (id-modify r)) (others-modify r.link.id rs a),
    modify-Keyed rs k,
  )

  pub link_of-modify :
      (x : SessionRow) (rs : List LinkRow)
      → some_of (link_of x) (modify p f rs) ≡ some_of (link_of x) rs
  unfolding modify
  link_of-modify x [] = refl
  link_of-modify x (r ∷ rs) = ground (arith, link_of-modify x rs, h r)

  pub modify-Linked :
      (rs : List LinkRow) (xs : List SessionRow) → Linked rs xs → Linked (modify p f rs) xs
  modify-Linked rs [] l = tt
  modify-Linked rs (x ∷ xs) (a, l) = ground (arith, link_of-modify x rs, modify-Linked rs xs l)

-- What a DELETE leaves.
pub keep-All :
    {A : Type 0} (P : A → Type 0) (q : A → Bool) (xs : List A) → All P xs → All P (keep q xs)
keep-All P q [] a = tt
keep-All P q (x ∷ xs) (a, b) = ground (arith, keep-All P q xs b)

pub keep-Keyed : (q : LinkRow → Bool) (rs : List LinkRow) → Keyed rs → Keyed (keep q rs)
keep-Keyed q [] k = tt
keep-Keyed q (r ∷ rs) (a, k) = ground (
  arith,
  keep-All (λ (x : LinkRow). text_eq x.link.id r.link.id ≡ false) q rs a,
  keep-Keyed q rs k,
)

-- A link whose session the cascade leaves is not deleted itself.
link_of-keep :
    (q : LinkRow → Bool) (x : SessionRow) (rs : List LinkRow)
    → some_of (link_of x) rs ≡ true
    → some_of (λ r. text_eq x.session.link_id r.link.id) (keep q rs) ≡ false
    → some_of (link_of x) (keep (λ r. not (q r)) rs) ≡ true
link_of-keep q x [] h k = h
link_of-keep q x (r ∷ rs) h k =
    ground (arith, link_of-keep q x rs, text_eq_comm r.link.id x.session.link_id)

pub cascade-Linked :
    (q : LinkRow → Bool) (rs : List LinkRow) (xs : List SessionRow)
    → Linked rs xs
    → Linked
        (keep (λ r. not (q r)) rs)
        (keep (λ x. not (some_of (λ r. text_eq x.session.link_id r.link.id) (keep q rs))) xs)
cascade-Linked q rs [] l = tt
cascade-Linked q rs (x ∷ xs) (a, l) =
    ground (arith, link_of-keep q x rs a, cascade-Linked q rs xs l)

-- What an INSERT adds.
others-append :
    (id : Text) (rs : List LinkRow) (r : LinkRow)
    → All (λ y. text_eq y.link.id id ≡ false) rs
    → text_eq r.link.id id ≡ false
    → All (λ y. text_eq y.link.id id ≡ false) (rs ++ (r ∷ []))
others-append id [] r a h = ground arith
others-append id (y ∷ rs) r (a, b) h = ground (arith, others-append id rs r b)

append-Keyed :
    (rs : List LinkRow) (r : LinkRow)
    → Keyed rs
    → some_of (clash r.link) rs ≡ false
    → Keyed (rs ++ (r ∷ []))
append-Keyed [] r k h = ground arith
append-Keyed (y ∷ rs) r (a, k) h =
    ground
      (arith, append-Keyed rs r k, others-append y.link.id rs r a, text_eq_comm r.link.id y.link.id)

link_of-append :
    (x : SessionRow) (rs ss : List LinkRow)
    → some_of (link_of x) rs ≡ true
    → some_of (link_of x) (rs ++ ss) ≡ true
link_of-append x [] ss h = ground arith
link_of-append x (r ∷ rs) ss h = ground (arith, link_of-append x rs ss)

append-Linked : (rs ss : List LinkRow) (xs : List SessionRow) → Linked rs xs → Linked (rs ++ ss) xs
append-Linked rs ss [] l = tt
append-Linked rs ss (x ∷ xs) (a, l) =
    ground (arith, link_of-append x rs ss a, append-Linked rs ss xs l)

pub insert_links-IsKeyed :
    (acc : Text) (ran : ℕ → Bool) (i : ℕ) (ls : List ShareLink) (rs rows : List LinkRow)
    (xs : List SessionRow)
    → Keyed rs × Linked rs xs
    → insert_links acc ran i ls rs ≡ some rows
    → Keyed rows × Linked rows xs
unfolding insert_links
insert_links-IsKeyed acc ran i [] rs rows xs (k, l) h = ground arith
insert_links-IsKeyed acc ran i (y ∷ ls) rs rows xs (k, l) h = ground (
  arith,
  insert_links-IsKeyed acc ran (suc i) ls (rs ++ (row_of acc y ∷ [])) rows xs,
  append-Keyed rs (row_of acc y) k,
  append-Linked rs (row_of acc y ∷ []) xs l,
)
