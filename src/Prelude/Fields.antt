-- ===== src/Prelude/Fields.antt =====
-- Go's strings.Fields, Join, Cut and the order of strings, on texts.
use Prim.Native.Nat.{ℕ, zero, suc}
use mathlib.Core.Path.{◌≡◌, refl}
use mathlib.Core.Bool.{Bool, true, false, ◌&&◌, ◌||◌}
use mathlib.Core.List.{List, [], ◌∷◌, ◌++◌}
use mathlib.Core.Option.{Option, none, some}
use running_tools.Prelude.Tests.{ltb, leb, ◌==◌, if◌then◌else◌}
use running_tools.Prelude.Lists.{is_empty}
use running_tools.Prelude.Text.{Text, space_width, text}

abbrev close : Text → List Text → List Text
close word rest = if is_empty word then rest else word ∷ rest

-- `word` is the field met so far; `skip` bytes belong to a space.
fields_from : ℕ → Text → Text → List Text
fields_from skip word [] = close word []
fields_from zero word (x ∷ s) = elim (space_width (x ∷ s)) [
  | zero ↦ fields_from zero (word ++ (x ∷ [])) s
  | suc w ↦ close word (fields_from w [] s)
]
fields_from (suc skip) word (x ∷ s) = fields_from skip word s

-- strings.Fields
unfoldable pub fields : Text → List Text
unfolding fields_from
fields s = fields_from 0 [] s

-- strings.Join with a separator of one byte.
unfoldable pub join_by : ℕ → List Text → Text
join_by sep [] = []
join_by sep (s ∷ []) = s
join_by sep (s ∷ t ∷ ts) = let rest = join_by sep (t ∷ ts) in s ++ (sep ∷ rest)

-- strings.Cut at a byte.
unfoldable pub cut_at : ℕ → Text → Option (Text × Text)
cut_at sep [] = none
cut_at sep (x ∷ s) =
    let rest = cut_at sep s in
    if x == sep then some ([], s) else elim rest [ none ↦ none | some r ↦ some (x ∷ r.0, r.1) ]

-- `s < t`
unfoldable pub text_lt : Text → Text → Bool
text_lt s [] = false
text_lt [] (y ∷ t) = true
text_lt (x ∷ s) (y ∷ t) = ltb x y || x == y && text_lt s t

unfoldable insert_text : Text → List Text → List Text
insert_text s [] = s ∷ []
insert_text s (t ∷ ts) = let rest = insert_text s ts in if text_lt t s then t ∷ rest else s ∷ t ∷ ts

-- sort.Strings
unfoldable pub sort_texts : List Text → List Text
unfolding insert_text
sort_texts [] = []
sort_texts (s ∷ ts) = insert_text s (sort_texts ts)

-- The first `n` code points of a text in valid UTF-8: a byte from 128 to 191 continues one.
unfoldable pub take_runes : ℕ → Text → Text
take_runes n [] = []
take_runes zero (x ∷ s) = elim (leb 128 x && ltb x 192) [
  | true ↦ x ∷ take_runes zero s
  | false ↦ []
]
take_runes (suc n) (x ∷ s) = elim (leb 128 x && ltb x 192) [
  | true ↦ x ∷ take_runes (suc n) s
  | false ↦ x ∷ take_runes n s
]

fields_test : fields (text " a\u{3000} bc ") ≡ text "a" ∷ text "bc" ∷ []
unfolding fields fields_from text space_width
fields_test = refl
