-- ===== src/Prelude/Text.antt =====
-- Go strings as their UTF-8 bytes, and the functions of package strings that the program calls.
-- `ToLower` and `EqualFold` act on the ASCII letters: bytes from 128 up stay as they are.
use Prim.Native.Char.{code}
use Prim.Native.String.{String}
use Prim.Native.Nat.{ℕ, zero, suc, ◌+◌, ◌-◌, ◌/◌, ◌%◌, ◌≤◌}
use mathlib.Core.Bool.{Bool, true, false, ◌&&◌, ◌||◌}
use mathlib.Core.Path.{◌≡◌, refl}
use mathlib.Core.Logic.{◌↔◌}
use mathlib.Core.List.{List, [], ◌∷◌, ◌++◌, map, reverse}
use native.Mathlib.Omega.{arith}
use running_tools.Prelude.Tests.{ltb, leb, ◌==◌, if◌then◌else◌}
use running_tools.Prelude.Lists.{length, take, length-take}

abbrev pub Text : Type 0
Text = List ℕ

-- One code point in UTF-8.
encode_rune : ℕ → Text
encode_rune c =
    if ltb c 128
    then c ∷ []
    else if ltb c 2048
    then (192 + c / 64) ∷ (128 + c % 64) ∷ []
    else if ltb c 65536
    then (224 + c / 4096) ∷ (128 + c / 64 % 64) ∷ (128 + c % 64) ∷ []
    else (240 + c / 262144) ∷ (128 + c / 4096 % 64) ∷ (128 + c / 64 % 64) ∷ (128 + c % 64) ∷ []

-- A string constant of the source.
unfoldable pub text : String → Text
unfolding encode_rune
text String.[] = []
text (String.◌∷◌ c s) = encode_rune (code c) ++ text s

unfoldable pub text_eq : Text → Text → Bool
text_eq [] [] = true
text_eq [] (y ∷ ys) = false
text_eq (x ∷ xs) [] = false
text_eq (x ∷ xs) (y ∷ ys) = x == y && text_eq xs ys

pub text_eq_refl : (s : Text) → text_eq s s ≡ true
unfolding text_eq
text_eq_refl [] = refl
text_eq_refl (x ∷ xs) = ground (arith, text_eq_refl xs)

pub text_eq→eq : (s t : Text) → text_eq s t ≡ true → s ≡ t
unfolding text_eq
text_eq→eq [] [] h = refl
text_eq→eq [] (y ∷ ys) h = cc
text_eq→eq (x ∷ xs) [] h = cc
text_eq→eq (x ∷ xs) (y ∷ ys) h = ground (arith, text_eq→eq xs ys)

pub text_eq_iff : (s t : Text) → (text_eq s t ≡ true) ↔ (s ≡ t)
text_eq_iff s t = (text_eq→eq s t, λ e. rw (← e) (text_eq_refl s))

pub text_eq_comm : (s t : Text) → text_eq s t ≡ text_eq t s
unfolding text_eq
text_eq_comm [] [] = refl
text_eq_comm [] (y ∷ ys) = refl
text_eq_comm (x ∷ xs) [] = refl
text_eq_comm (x ∷ xs) (y ∷ ys) = ground (arith, text_eq_comm xs ys)

-- How many bytes the space that a text begins with takes, and 0 where it begins with none: the
-- code points of `unicode.IsSpace`.
unfoldable pub space_width : Text → ℕ
space_width [] = 0
space_width (a ∷ []) = if leb 9 a && leb a 13 || a == 32 then 1 else 0
space_width (a ∷ b ∷ []) =
    if leb 9 a && leb a 13 || a == 32
    then 1
    else if a == 0xc2 && (b == 0x85 || b == 0xa0)
    then 2
    else 0
space_width (a ∷ b ∷ c ∷ s) =
    if leb 9 a && leb a 13 || a == 32
    then 1
    else if a == 0xc2 && (b == 0x85 || b == 0xa0)
    then 2
    else if a == 0xe1 && b == 0x9a && c == 0x80
        || a == 0xe2
          && b == 0x80
          && (leb 0x80 c && leb c 0x8a || c == 0xa8 || c == 0xa9 || c == 0xaf)
        || a == 0xe2 && b == 0x81 && c == 0x9f
        || a == 0xe3 && b == 0x80 && c == 0x80
    then 3
    else 0

-- The same of a reversed text, for the space that a text ends with.
reversed_space_width : Text → ℕ
unfolding space_width
reversed_space_width [] = 0
reversed_space_width (c ∷ []) = space_width (c ∷ [])
reversed_space_width (c ∷ b ∷ []) =
    if space_width (c ∷ []) == 1 then 1 else if space_width (b ∷ c ∷ []) == 2 then 2 else 0
reversed_space_width (c ∷ b ∷ a ∷ s) =
    if space_width (c ∷ []) == 1
    then 1
    else if space_width (b ∷ c ∷ []) == 2
    then 2
    else if space_width (a ∷ b ∷ c ∷ []) == 3
    then 3
    else 0

-- Drops spaces, after `skip` bytes that belong to a space already met.
strip : (Text → ℕ) → ℕ → Text → Text
strip width skip [] = []
strip width zero (x ∷ s) = elim (width (x ∷ s)) [ zero ↦ x ∷ s | suc w ↦ strip width w s ]
strip width (suc skip) (x ∷ s) = strip width skip s

-- strings.TrimSpace
unfoldable pub trim_space : Text → Text
unfolding strip space_width reversed_space_width
trim_space s = reverse (strip reversed_space_width 0 (reverse (strip space_width 0 s)))

-- strings.ToLower
abbrev lower_byte : ℕ → ℕ
lower_byte c = if leb b'A' c && leb c b'Z' then c + 32 else c

unfoldable pub to_lower : Text → Text
to_lower = map lower_byte

pub to_lower-to_lower : (s : Text) → to_lower (to_lower s) ≡ to_lower s
unfolding to_lower
to_lower-to_lower [] = refl
to_lower-to_lower (c ∷ s) = ground (arith, to_lower-to_lower s)

-- strings.EqualFold
unfoldable pub equal_fold : Text → Text → Bool
unfolding text_eq to_lower
equal_fold s t = text_eq (to_lower s) (to_lower t)

pub equal_fold_comm : (s t : Text) → equal_fold s t ≡ true → equal_fold t s ≡ true
unfolding equal_fold
equal_fold_comm s t h = rw (text_eq→eq (to_lower s) (to_lower t) h) (text_eq_refl (to_lower t))

-- strings.HasPrefix, strings.HasSuffix and strings.Contains
unfoldable pub has_prefix : Text → Text → Bool
has_prefix s [] = true
has_prefix [] (p ∷ ps) = false
has_prefix (x ∷ s) (p ∷ ps) = x == p && has_prefix s ps

unfoldable pub has_suffix : Text → Text → Bool
unfolding has_prefix
has_suffix s p = has_prefix (reverse s) (reverse p)

unfoldable pub contains : Text → Text → Bool
unfolding has_prefix
contains [] p = has_prefix [] p
contains (x ∷ s) p = has_prefix (x ∷ s) p || contains s p

-- strings.ReplaceAll for an `old` that is not empty. `skip` bytes belong to an occurrence.
replace_from : Text → Text → ℕ → Text → Text
unfolding has_prefix
replace_from old new skip [] = []
replace_from old new zero (x ∷ s) = elim (has_prefix (x ∷ s) old) [
  | true ↦ new ++ replace_from old new (length old - 1) s
  | false ↦ x ∷ replace_from old new 0 s
]
replace_from old new (suc skip) (x ∷ s) = replace_from old new skip s

unfoldable pub replace_all : Text → Text → Text → Text
unfolding replace_from
replace_all s old new = replace_from old new 0 s

-- `if len(s) > n { s = s[:n] }`
unfoldable pub cut : ℕ → Text → Text
cut n s = if ltb n (length s) then take n s else s

pub length-cut : (n : ℕ) (s : Text) → length (cut n s) ≤ n
unfolding cut
length-cut n s = ground (arith, length-take n s)

-- strings.Split by a separator of one byte.
abbrev prepend : ℕ → List Text → List Text
prepend x [] = (x ∷ []) ∷ []
prepend x (p ∷ ps) = (x ∷ p) ∷ ps

unfoldable pub split : ℕ → Text → List Text
split sep [] = [] ∷ []
split sep (x ∷ s) = let rest = split sep s in if x == sep then [] ∷ rest else prepend x rest

abbrev pub has_byte : ℕ → Text → Bool
has_byte b [] = false
has_byte b (x ∷ s) = x == b || has_byte b s

-- A separator closes the field before it.
pub split-append :
    (sep : ℕ) (s rest : Text)
    → has_byte sep s ≡ false
    → split sep (s ++ (sep ∷ rest)) ≡ s ∷ split sep rest
unfolding split
split-append sep [] rest h = ground arith
split-append sep (x ∷ s) rest h = ground (arith, split-append sep s rest)

pub split_single : (sep : ℕ) (s : Text) → has_byte sep s ≡ false → split sep s ≡ s ∷ []
unfolding split
split_single sep [] h = refl
split_single sep (x ∷ s) h = ground (arith, split_single sep s)

trim_tests :
    map trim_space (text "  a b\n" ∷ text " " ∷ text "\u{3000}x\u{a0}" ∷ [])
    ≡ text "a b" ∷ [] ∷ text "x" ∷ []
unfolding trim_space text
trim_tests = refl

replace_test : replace_all (text "abcab") (text "ab") (text "ab!") ≡ text "ab!cab!"
unfolding replace_all text
replace_test = refl
