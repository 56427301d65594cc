-- ===== src/Output/Delimited/Cell.antt =====
-- The encoding of null is reversible.
use dsql_cli.Prelude.{
  ◌≡◌, refl, arith, Bool, Option, none, some, [], ◌∷◌, Chars, codes, ◌==◌, text_eq, if◌then◌else◌,
}
use dsql_cli.Output.{escape_terminal_text}
use dsql_cli.Output.Delimited.{encode_value, encode_cell}

-- The reader's side: `\N` is null, and a leading backslash is taken off.
abbrev pub decode_cell : Chars → Option Chars
decode_cell [] = some []
decode_cell (c ∷ s) =
    if text_eq (c ∷ s) (codes "\\N") then none else if c == b'\\' then some s else some (c ∷ s)

-- The value as it is shown.
abbrev pub shown : Bool → Option Chars → Option Chars
shown escape none = none
shown escape (some value) = some (if escape then escape_terminal_text value else value)

decode-encode_value : (s : Chars) → decode_cell (encode_value s) ≡ some s
decode-encode_value [] = refl
decode-encode_value (c ∷ s) = ground arith

-- A cell is read back as the value that was shown, and null as null: no text, whatever it begins
-- with, is taken for null.
pub decode_cell-encode_cell :
    (cell : Option Chars) (escape : Bool)
    → decode_cell (encode_cell cell escape) ≡ shown escape cell
unfolding encode_cell
decode_cell-encode_cell none escape = refl
decode_cell-encode_cell (some value) escape =
    decode-encode_value (if escape then escape_terminal_text value else value)
