-- ===== src/Sql/Lexer/Boundary.antt =====
-- A statement is scanned alike wherever it starts: behind a semicolon the scanner sees of the text
-- in front of it no more than at the start of the input.
use dsql_cli.Prelude.{Option, none, some, false, true, ℕ, ◌≡◌, refl, [], ◌∷◌, ◌++◌, Bytes, arith}
use dsql_cli.Sql.Lexer.{
  LexicalState, normal, single_quoted_string, follows_identifier, is_identifier_continue,
  is_escape_string_prefix, dollar_quote_delimiter, step_normal, step, open_dollar, step_escape,
  step_quoted, step_dollar, step_comment,
}

-- The text in front of a statement: nothing, or text that ends in a semicolon.
abbrev pub Boundary : Bytes → Type 0
Boundary [] = Unit
Boundary (p ∷ before) = p ≡ b';'

follows_identifier-Boundary :
    (before b : Bytes) → Boundary b → follows_identifier (before ++ b) ≡ follows_identifier before
unfolding follows_identifier is_identifier_continue
follows_identifier-Boundary [] [] h = refl
follows_identifier-Boundary [] (p ∷ b) h = ground arith
follows_identifier-Boundary (c ∷ before) b h = refl

is_escape_string_prefix-Boundary :
    (before b : Bytes)
    → Boundary b
    → is_escape_string_prefix (before ++ b) ≡ is_escape_string_prefix before
is_escape_string_prefix-Boundary [] [] h = refl
is_escape_string_prefix-Boundary [] (p ∷ b) h = unfold is_escape_string_prefix in ground arith
is_escape_string_prefix-Boundary (c ∷ before) b h =
    unfold is_escape_string_prefix in ground (arith, follows_identifier-Boundary before b h)

step_normal-Boundary :
    (before b : Bytes) (c : ℕ) (r : Bytes)
    → Boundary b
    → step_normal (before ++ b) c r ≡ step_normal before c r
unfolding step_normal dollar_quote_delimiter
step_normal-Boundary before b c r h =
    rw (is_escape_string_prefix-Boundary before b h, follows_identifier-Boundary before b h)

pub step-Boundary :
    (st : LexicalState) (before b : Bytes) (c : ℕ) (r : Bytes)
    → Boundary b
    → step st (before ++ b) c r ≡ step st before c r
unfolding step
step-Boundary normal before b c r h = step_normal-Boundary before b c r h
step-Boundary single_quoted_string before b c r h = refl
step-Boundary _ before b c r h = refl

open_dollar-terminated : (d : Option Bytes) → (open_dollar d).terminated ≡ false
unfolding open_dollar
open_dollar-terminated none = refl
open_dollar-terminated (some d) = refl

step_normal-terminated :
    (before : Bytes) (c : ℕ) (r : Bytes)
    → (step_normal before c r).terminated ≡ true
    → (c ≡ b';') × (step_normal before c r ≡ record { next = normal; skip = 0; terminated = true })
unfolding step_normal
step_normal-terminated before c r h =
    ground (arith, open_dollar-terminated (dollar_quote_delimiter before r))

-- Only a semicolon in plain SQL ends a statement, and the scanner is in plain SQL behind it.
pub step_terminated :
    (st : LexicalState) (before : Bytes) (c : ℕ) (r : Bytes)
    → (step st before c r).terminated ≡ true
    → (c ≡ b';') × (step st before c r ≡ record { next = normal; skip = 0; terminated = true })
unfolding step step_escape step_quoted step_dollar step_comment
step_terminated normal before c r h = step_normal-terminated before c r h
step_terminated single_quoted_string before c r h = ground arith
step_terminated _ before c r h = ground arith

pub step-terminated :
    (st : LexicalState) (before : Bytes) (c : ℕ) (r : Bytes)
    → (step st before c r).terminated ≡ true
    → c ≡ b';'
step-terminated st before c r h = (step_terminated st before c r h).0
