-- ===== src/EnvFile.antt =====
-- internal/platform/config/envfile.go: LoadEnvFile, on the environment of the process as a list of
-- variables.
mod Tests
use running_tools.Prelude.{
  ℕ, suc, ◌-◌, Bool, true, false, not, ◌&&◌, ◌||◌, Option, none, some, List, [], ◌∷◌, ◌++◌, reverse,
  arith, ◌≡◌, refl, leb, ltb, ◌==◌, if◌then◌else◌, is_empty, take, drop, length, Option-cases, ◌⊎◌,
  inl, inr,
}
use running_tools.Prelude.Text.{Text, text, text_eq, text_eq→eq, trim_space, has_prefix, has_byte}
use running_tools.Prelude.Fields.{cut_at}

abbrev Environment : Type 0
Environment = List (Text × Text)

-- os.LookupEnv
unfoldable pub lookup : Text → Environment → Option Text
lookup name [] = none
lookup name ((k, v) ∷ env) = let rest = lookup name env in if text_eq k name then some v else rest

-- What a line of the file says.
pub data Line : Type 0 where
  nothing_set malformed : Line
  setting : Text → Text → Line

pub data LoadError : Type 0 where
  not_opened not_scanned not_set : LoadError
  invalid_line : ℕ → LoadError

-- The file as bufio.Scanner gives it: its lines, and whether the scanner ends with an error.
pub data EnvFile : Type 0 where
  missing failing : EnvFile
  holding : List Text → Bool → EnvFile

abbrev is_letter : ℕ → Bool
is_letter c = c == b'_' || leb b'A' c && leb c b'Z' || leb b'a' c && leb c b'z'

abbrev name_rest : Text → Bool
name_rest [] = true
name_rest (c ∷ s) = (is_letter c || leb b'0' c && leb c b'9') && name_rest s

unfoldable pub valid_env_name : Text → Bool
valid_env_name [] = false
valid_env_name (c ∷ s) = is_letter c && name_rest s

-- strings.TrimPrefix
abbrev trim_prefix : Text → Text → Text
trim_prefix s p = if has_prefix s p then drop (length p) s else s

abbrev ends_with : ℕ → Text → Bool
ends_with b s = elim (reverse s) [ [] ↦ false | ◌∷◌ c rest ↦ c == b ]

-- A value of two bytes or more between two quotes of one kind loses them.
unfoldable pub unquote : Text → Text
unquote [] = []
unquote (c ∷ s) =
    if (c == b'\'' || c == b'"') && ends_with c s then take (length s - 1) s else c ∷ s

unfoldable pub parse_line : Text → Line
unfolding unquote valid_env_name
parse_line raw =
    let line = trim_space raw in
    if is_empty line || has_prefix line (text "#")
    then nothing_set
    else elim (cut_at b'=' (trim_space (trim_prefix line (text "export ")))) [
      | none ↦ malformed
      | some r ↦
          if valid_env_name (trim_space r.0)
          then setting (trim_space r.0) (unquote (trim_space r.1))
          else malformed
    ]

-- The loop of LoadEnvFile from line `n` on. os.Setenv refuses a value with a byte 0.
unfoldable load_lines : ℕ → List Text → Environment → Environment × Option LoadError
unfolding lookup
load_lines n [] env = (env, none)
load_lines n (l ∷ ls) env = elim (parse_line l) [
  | nothing_set ↦ load_lines (suc n) ls env
  | malformed ↦ (env, some (invalid_line n))
  | setting name value ↦ elim (lookup name env) [
    | some old ↦ load_lines (suc n) ls env
    | none ↦ elim (has_byte 0 value) [
      | true ↦ (env, some not_set)
      | false ↦ load_lines (suc n) ls (env ++ ((name, value) ∷ []))
    ]
  ]
]

unfoldable pub load_env_file : EnvFile → Environment → Environment × Option LoadError
unfolding load_lines
load_env_file missing env = (env, none)
load_env_file failing env = (env, some not_opened)
load_env_file (holding ls failed) env =
    let r = load_lines 1 ls env in
    elim r.1 [ some x ↦ (r.0, some x) | none ↦ (r.0, if failed then some not_scanned else none) ]

-- The value of the first line that names a variable, before any line that is malformed.
unfoldable pub first_value : Text → List Text → Option Text
first_value name [] = none
first_value name (l ∷ ls) =
    let rest = first_value name ls in
    elim (parse_line l) [
      | nothing_set ↦ rest
      | malformed ↦ none
      | setting k v ↦ if text_eq k name then some v else rest
    ]

abbrev settable : Line → Bool
settable nothing_set = true
settable malformed = true
settable (setting k v) = not (has_byte 0 v)

abbrev all_settable : List Text → Bool
all_settable [] = true
all_settable (l ∷ ls) = settable (parse_line l) && all_settable ls

lookup-append :
    (name k v : Text) (env : Environment)
    → lookup name (env ++ ((k, v) ∷ [])) ≡ elim (lookup name env) [
      | some old ↦ some old
      | none ↦ if text_eq k name then some v else none
    ]
unfolding lookup
lookup-append name k v [] = refl
lookup-append name k v ((k', v') ∷ env) = ground (arith, lookup-append name k v env)

Line-cases :
    (l : Line) → (l ≡ nothing_set) ⊎ ((l ≡ malformed) ⊎ ((p : Text × Text) × (l ≡ setting p.0 p.1)))
Line-cases nothing_set = inl refl
Line-cases malformed = inr (inl refl)
Line-cases (setting k v) = inr (inr ((k, v), refl))

lookup-load_lines :
    (name : Text) (n : ℕ) (ls : List Text) (env : Environment)
    → all_settable ls ≡ true
    → lookup name (load_lines n ls env).0
      ≡ elim (lookup name env) [ some old ↦ some old | none ↦ first_value name ls ]
unfolding load_lines first_value
lookup-load_lines name n [] env h = ground arith
lookup-load_lines name n (l ∷ ls) env h = elim (Line-cases (parse_line l)) [
  | inl e ↦ ground (arith, lookup-load_lines name (suc n) ls env)
  | inr (inl e) ↦ ground arith
  | inr (inr ((k, v), e)) ↦ ground (
    arith,
    lookup-load_lines name (suc n) ls env,
    lookup-load_lines name (suc n) ls (env ++ ((k, v) ∷ [])),
    lookup-append name k v env,
    text_eq→eq k name,
  )
]

-- After LoadEnvFile, with an error or with none, a variable of the process has the value that it
-- had, and one that was not set has the value of the first line that names it, up to a line that is
-- malformed. No value has a byte 0.
pub lookup-load_env_file :
    (name : Text) (ls : List Text) (failed : Bool) (env : Environment)
    → all_settable ls ≡ true
    → lookup name (load_env_file (holding ls failed) env).0
      ≡ elim (lookup name env) [ some old ↦ some old | none ↦ first_value name ls ]
unfolding load_env_file
lookup-load_env_file name ls failed env h = elim (Option-cases (load_lines 1 ls env).1) [
  | inl e ↦ ground (arith, lookup-load_lines name 1 ls env h)
  | inr (x, e) ↦ ground (arith, lookup-load_lines name 1 ls env h)
]
