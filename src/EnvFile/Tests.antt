-- ===== src/EnvFile/Tests.antt =====
-- Lines of an environment file, and the theorem at an input that meets its hypothesis.
use running_tools.Prelude.{◌≡◌, refl, false, none, some, List, [], ◌∷◌}
use running_tools.Prelude.Text.{Text, text, trim_space, has_prefix}
use running_tools.Prelude.Fields.{cut_at}
use running_tools.EnvFile.{
  setting, parse_line, unquote, valid_env_name, lookup, load_env_file, holding, first_value,
  lookup-load_env_file,
}

abbrev lines : List Text
lines = text "# c" ∷ text "export A='b c'" ∷ text "A=d" ∷ text "B = e" ∷ text "no" ∷ []

lookup-load_env_file_example :
    lookup (text "B") (load_env_file (holding lines false) ((text "A", text "x") ∷ [])).0
    ≡ elim (lookup (text "B") ((text "A", text "x") ∷ [])) [
      | some old ↦ some old
      | none ↦ first_value (text "B") lines
    ]
unfolding parse_line text trim_space has_prefix cut_at unquote valid_env_name
lookup-load_env_file_example =
    lookup-load_env_file (text "B") lines false ((text "A", text "x") ∷ []) refl

parse_test : parse_line (text "export A='b c'") ≡ setting (text "A") (text "b c")
unfolding parse_line text trim_space has_prefix cut_at unquote valid_env_name
parse_test = refl
