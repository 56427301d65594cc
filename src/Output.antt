-- ===== src/Output.antt =====
-- src/output/mod.rs: text for a terminal.
pub mod Escape
pub mod Columns
pub mod Delimited
pub mod Table
pub mod Expanded
pub mod Jsonl
use dsql_cli.Prelude.{
  ℕ, Bool, List, [], ◌∷◌, ◌++◌, Chars, codes, ◌==◌, is_control, unicode_escape, if◌then◌else◌,
}

abbrev pub escape_character : ℕ → Chars
escape_character c =
    if c == 10
    then codes "\\n"
    else if c == 13
    then codes "\\r"
    else if c == 9
    then codes "\\t"
    else if is_control c
    then unicode_escape c
    else c ∷ []

unfoldable pub escape_terminal_text : Chars → Chars
escape_terminal_text [] = []
escape_terminal_text (c ∷ s) = escape_character c ++ escape_terminal_text s
