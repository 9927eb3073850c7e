-- ===== src/ShareLinks/Creating.antt =====
-- modules/mail/backend/share_links.go: each token of a batch opens a link of its alias.
use running_tools.Prelude.{
  ℕ, suc, ◌≡◌, refl, true, false, Option, none, some, List, [], ◌∷◌, ◌++◌, map, arith, inl, inr,
  is_empty, is_some, length, some_of, All, Result, ok, err, Option-cases, Bool-cases, Result-cases,
  ap, subst, sym,
}
use running_tools.Prelude.Int.{ℤ}
use running_tools.Prelude.Text.{Text, text_eq_refl, trim_space}
use running_tools.Prelude.Clock.{Env}
use running_tools.ShareLinks.Types.{ShareLink, Store, Input, Created, ShareError}
use running_tools.ShareLinks.Store.{load, live, opens, share_alias}
use running_tools.ShareLinks.Access.{make_links, expiry, answers, create_batch, resolve}
use running_tools.ShareLinks.Search.{some_of-append}
use running_tools.ShareLinks.Resolving.{Before, resolve-opens}

-- What newShareToken gives is not blank and has no space around it: it is base64.
unfoldable pub Tokens : (ℕ → Option Text) → Type 0
Tokens token = (i : ℕ) (t : Text) → token i ≡ some t → (trim_space t ≡ t) × (is_empty t ≡ false)

All-mono :
    {A : Type 0} {P Q : A → Type 0} (xs : List A) → ((x : A) → P x → Q x) → All P xs → All Q xs
All-mono [] f a = tt
All-mono (x ∷ xs) f (a, b) = (f x a, All-mono xs f b)

abbrev links_of : List (ShareLink × Text) → List ShareLink
links_of ls = map (λ p. p.0) ls

module _ (hash : Text → Text) (later : ℕ) where
  -- A drawn token with its link, which it opens.
  abbrev Good : ShareLink × Text → Type 0
  Good (l, t) = (opens later (hash t) l ≡ true) × (trim_space t ≡ t) × (is_empty t ≡ false)

  abbrev Opened : List ShareLink → Text → Type 0
  Opened ls t =
      (some_of (opens later (hash t)) ls ≡ true) × (trim_space t ≡ t) × (is_empty t ≡ false)

  Opened-more :
      (l : ShareLink) (pre ls : List ShareLink) (t : Text)
      → Opened (pre ++ ls) t
      → Opened (pre ++ (l ∷ ls)) t
  Opened-more l pre ls t (o, a, b) =
      let p = opens later (hash t) in
      (ground (arith, some_of-append p pre ls, some_of-append p pre (l ∷ ls)), a, b)

  Good-Opened :
      (pre : List ShareLink) (ls : List (ShareLink × Text))
      → All Good ls
      → All (λ p. Opened (pre ++ links_of ls) p.1) ls
  Good-Opened pre [] a = tt
  Good-Opened pre ((l, t) ∷ ls) ((o, v, w), b) =
      let p = opens later (hash t) in
      (
        (ground (arith, some_of-append p pre (l ∷ links_of ls)), v, w),
        All-mono ls (λ q. Opened-more l pre (links_of ls) q.1) (Good-Opened pre ls b),
      )

  fresh-Good :
      (now : ℕ) (expires : Option ℕ) (t a i : Text)
      → Before later expires
      → (trim_space t ≡ t) × (is_empty t ≡ false)
      → Good (
        record {
          id = i;
          alias = a;
          token_hash = hash t;
          created_at = now;
          expires_at = expires;
          last_used_at = none;
          revoked_at = none;
        },
        t,
      )
  unfolding opens live
  fresh-Good now none t a i b v = (ground (arith, text_eq_refl (hash t)), v.0, v.1)
  fresh-Good now (some u) t a i b v = (ground (arith, text_eq_refl (hash t)), v.0, v.1)

  abbrev Made : ℕ → Result ShareError (List (ShareLink × Text)) → Type 0
  Made n (err x) = Unit {0}
  Made n (ok ls) = All Good ls × (length ls ≡ n)

  -- One more link before those that the rest of the loop makes.
  more-Made :
      (n : ℕ) (p : ShareLink × Text) (r : Result ShareError (List (ShareLink × Text)))
      → Good p
      → Made n r
      → Made (suc n) (elim r [ err y ↦ err y | ok ls ↦ ok (p ∷ ls) ])
  more-Made n p (err x) g m = tt
  more-Made n p (ok ls) g m = ((g, m.0), ap suc m.1)

  make_links-Made :
      (now : ℕ) (expires : Option ℕ) (token : ℕ → Option Text) (id : ℕ → Text) (i : ℕ)
      (xs : List Input)
      → Before later expires
      → Tokens token
      → Made (length xs) (make_links hash now expires token id i xs)
  unfolding make_links Tokens
  make_links-Made now expires token id i [] b v = (tt, refl)
  make_links-Made now expires token id i (x ∷ xs) b v =
      let rest = make_links hash now expires token id (suc i) xs in
      elim (Bool-cases (is_empty (share_alias x.alias))) [
        | inl h ↦ rw h tt
        | inr h ↦ elim (Option-cases (token i)) [
          | inl f ↦ rw (h, f) tt
          | inr (t, f) ↦
              rw (h, f)
                (more-Made (length xs) _ rest
                  (fresh-Good now expires t (share_alias x.alias) (id i) b (v i t f))
                  (make_links-Made now expires token id (suc i) xs b v))
        ]
      ]

module _ (hash : Text → Text) where
  Opened-resolve :
      (e : Env) (t : Text) (s : Store)
      → Opened hash e.now (load s).links t
      → is_some (resolve hash e t s).1 ≡ true
  Opened-resolve e t s (o, a, b) = ground (arith, resolve-opens hash e t s)

  -- The answers carry the tokens of the links, one for each input.
  answers-All :
      (P : Text → Type 0) (xs : List Input) (ls : List (ShareLink × Text))
      → length ls ≡ length xs
      → All (λ p. P p.1) ls
      → All (λ c. P c.share_token) (answers hash xs ls) × (length (answers hash xs ls) ≡ length xs)
  unfolding answers
  answers-All P [] ls h a = (tt, refl)
  answers-All P (x ∷ xs) [] h a = ground arith
  answers-All P (x ∷ xs) ((l, t) ∷ ls) h (a, b) =
      let v = answers-All P xs ls (omega arith) b in ((a, v.0), ap suc v.1)

  -- A batch that is created stands in the file after the links that were there.
  created-shape :
      (e : Env) (token : ℕ → Option Text) (id : ℕ → Text) (inputs : List Input)
      → (expires_in : Option ℤ) (s : Store) (items : List Created)
      → (create_batch hash e token id inputs expires_in s).1 ≡ ok items
      → (ls : List (ShareLink × Text)) × (make_links hash e.now
            (expiry hash e.now expires_in)
            token
            id
            0
            inputs
          ≡ ok ls)
        × ((load (create_batch hash e token id inputs expires_in s).0).links
            ≡ (load s).links ++ links_of ls)
        × (items ≡ answers hash inputs ls)
  unfolding create_batch
  created-shape e token id inputs expires_in s items h =
      elim (Result-cases (make_links hash e.now (expiry hash e.now expires_in) token id 0 inputs)) [
        | inl (ls, f) ↦ (ls, f, ground arith, ground arith)
        | inr (x, f) ↦ ground arith
      ]

  -- A batch that is created has one answer for each input, and every token in it opens a link as
  -- long as the lifetime lasts, beside whatever links the file holds.
  pub create_batch-opens :
      (e e' : Env) (token : ℕ → Option Text) (id : ℕ → Text) (inputs : List Input)
      → (expires_in : Option ℤ) (s : Store) (items : List Created) → Tokens token
      → Before e'.now (expiry hash e.now expires_in)
      → (create_batch hash e token id inputs expires_in s).1 ≡ ok items
      → let s' = (create_batch hash e token id inputs expires_in s).0 in
        (length items ≡ length inputs)
        × All (λ c. is_some (resolve hash e' c.share_token s').1 ≡ true) items
  create_batch-opens e e' token id inputs expires_in s items v b h =
      let (ls, m, l, a) = created-shape e token id inputs expires_in s items h in
      let made =
        make_links-Made hash e'.now e.now (expiry hash e.now expires_in) token id 0 inputs b v in
      let g = subst (Made hash e'.now (length inputs)) m made in
      let s' = (create_batch hash e token id inputs expires_in s).0 in
      let o =
        subst (λ (ks : List ShareLink). All (λ p. Opened hash e'.now ks p.1) ls) (sym l)
          (Good-Opened hash e'.now (load s).links ls g.0) in
      let r =
        answers-All (λ t. is_some (resolve hash e' t s').1 ≡ true) inputs ls g.1
          (All-mono ls (λ p. Opened-resolve e' p.1 s') o) in
      subst
        (λ (cs : List Created).
          (length cs ≡ length inputs)
          × All (λ c. is_some (resolve hash e' c.share_token s').1 ≡ true) cs)
        (sym a) (r.1, r.0)
