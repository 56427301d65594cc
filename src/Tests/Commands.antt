-- ===== src/Tests/Commands.antt =====
-- src/shell/commands.rs: commands of its unit tests, and the theorems at them.
use dsql_cli.Prelude.{◌≡◌, refl, true, false, some, [], ◌∷◌, ◌++◌, codes}
use dsql_cli.Shell
use dsql_cli.Shell.Commands
use dsql_cli.Shell.Commands.{
  MetaParse, command, refused, panicked, metadata_command, tables, timing, parse,
}
use dsql_cli.Shell.Commands.Total.{is_panicked, parse-is_panicked}
use dsql_cli.Shell.Commands.Printed.{parse-print}

parses_commands :
    (parse (codes "\\timing on") false ≡ command (timing Shell.toggle_on))
    × (parse (codes "SELECT 1") false ≡ Commands.no_command)
    × (parse (codes "\\q") true ≡ Commands.no_command)
    × (parse (codes "\\q now") false ≡ refused (codes "\\q does not accept arguments"))
unfolding parse Commands.parse_named Shell.parse_toggle Commands.trim
parses_commands = (refl, refl, refl, refl)

-- The slice behind the name counts from the backslash, not from the name: white space between
-- them makes a pattern of the command's own letters, and a slice inside a character a panic.
slices_behind_space :
    (parse (codes "\\ d") false
      ≡ command (metadata_command (Commands.relations (some (codes "d")))))
    × (parse (codes "\\ " ++ (233 ∷ 233 ∷ [])) false ≡ panicked)
unfolding parse Commands.parse_named Shell.parse_pattern Commands.trim
slices_behind_space = (refl, refl)

parse-is_panicked_example : is_panicked (parse (codes "\\dt name") false) ≡ false
parse-is_panicked_example = parse-is_panicked (codes "\\dt name") false refl

parse-print_example :
    parse (codes "\\dt \"my \"\"table\"") false
    ≡ command (metadata_command (tables (some (codes "my \"table"))))
parse-print_example = parse-print (metadata_command (tables (some (codes "my \"table")))) refl
