-- ===== src/Sql/Lexer.antt =====
-- src/sql/scanner.rs, `scan` and its helpers. The index into `bytes` is a cursor: `before` holds
-- the bytes in front of the index, the nearest first, and `rest` those from the index on. So
-- `bytes[index - 1]` is the head of `before` and `bytes.get(index + 1)` that of the tail of `rest`.
pub mod Boundary
pub mod Tags
pub mod Lookahead
use dsql_cli.Prelude.{
  ℕ, zero, suc, ◌+◌, ◌-◌, Bool, true, false, not, ◌&&◌, ◌||◌, Option, none, some, List, [], ◌∷◌,
  length, Bytes, leb, ◌==◌, if◌then◌else◌, starts_with, is_ascii_alphabetic, is_ascii_digit,
}

pub data LexicalState : Type 0 where
  normal single_quoted_string escape_string double_quoted_identifier : LexicalState
  dollar_quoted_string : Bytes → LexicalState
  line_comment : LexicalState
  block_comment : ℕ → LexicalState

unfoldable pub is_identifier_start : ℕ → Bool
is_identifier_start c = is_ascii_alphabetic c || c == b'_' || leb 128 c

unfoldable pub is_identifier_continue : ℕ → Bool
unfolding is_identifier_start
is_identifier_continue c = is_identifier_start c || is_ascii_digit c || c == b'$'

-- `bytes.get(index + 1) == Some(&b)`, at the bytes behind the index.
abbrev pub next_is : Bytes → ℕ → Bool
next_is [] b = false
next_is (c ∷ r) b = c == b

-- Whether the byte in front of the cursor continues an identifier.
unfoldable pub follows_identifier : Bytes → Bool
follows_identifier [] = false
follows_identifier (p ∷ before) = is_identifier_continue p

unfoldable pub is_escape_string_prefix : Bytes → Bool
is_escape_string_prefix [] = false
is_escape_string_prefix (p ∷ before) = (p == b'e' || p == b'E') && not (follows_identifier before)

-- The loop of `dollar_quote_delimiter`: the bytes up to the closing `$`.
unfoldable pub tag_end : Bytes → Option Bytes
tag_end [] = none
tag_end (c ∷ r) =
    if c == b'$'
    then some (b'$' ∷ [])
    else if not (is_identifier_continue c)
    then none
    else mathlib.Core.Option.map (λ tag. c ∷ tag) (tag_end r)

unfoldable pub dollar_tag : Bytes → Option Bytes
dollar_tag [] = none
dollar_tag (c ∷ r) =
    if c == b'$'
    then some (b'$' ∷ b'$' ∷ [])
    else if not (is_identifier_start c)
    then none
    else mathlib.Core.Option.map (λ tag. b'$' ∷ c ∷ tag) (tag_end r)

-- At a `$` with `before` in front of it and `r` behind it.
unfoldable pub dollar_quote_delimiter : Bytes → Bytes → Option Bytes
dollar_quote_delimiter before r = if follows_identifier before then none else dollar_tag r

-- One round of the loop: the next state, the bytes skipped behind the first one, and whether
-- `terminated` is called.
pub record Step : Type 0 where
  pub next : LexicalState
  pub skip : ℕ
  pub terminated : Bool

abbrev pub go : LexicalState → ℕ → Step
go st k = record { next = st; skip = k; terminated = false }

unfoldable pub open_dollar : Option Bytes → Step
open_dollar none = go normal 0
open_dollar (some delimiter) = go (dollar_quoted_string delimiter) (length delimiter - 1)

unfoldable pub step_normal : Bytes → ℕ → Bytes → Step
step_normal before c r =
    if c == b'\''
    then go (if is_escape_string_prefix before then escape_string else single_quoted_string) 0
    else if c == b'"'
    then go double_quoted_identifier 0
    else if c == b'-' && next_is r b'-'
    then go line_comment 1
    else if c == b'/' && next_is r b'*'
    then go (block_comment 1) 1
    else if c == b'$'
    then open_dollar (dollar_quote_delimiter before r)
    else if c == b';'
    then record { next = normal; skip = 0; terminated = true }
    else go normal 0

-- Inside quotes a doubled quote stays inside.
unfoldable pub step_quoted : LexicalState → ℕ → ℕ → Bytes → Step
step_quoted st quote c r =
    if c == quote then (if next_is r quote then go st 1 else go normal 0) else go st 0

abbrev at_end : Bytes → Bool
at_end [] = true
at_end (c ∷ r) = false

unfoldable pub step_escape : ℕ → Bytes → Step
unfolding step_quoted
step_escape c r =
    if c == b'\\'
    then go escape_string (if at_end r then 0 else 1)
    else step_quoted escape_string b'\'' c r

unfoldable pub step_dollar : Bytes → ℕ → Bytes → Step
step_dollar delimiter c r =
    if starts_with (c ∷ r) delimiter
    then go normal (length delimiter - 1)
    else go (dollar_quoted_string delimiter) 0

-- `*depth -= 1`, and back to `Normal` at zero; the scanner opens a comment at depth one.
pub close_comment : ℕ → LexicalState
close_comment depth = if depth - 1 == 0 then normal else block_comment (depth - 1)

unfoldable pub step_comment : ℕ → ℕ → Bytes → Step
unfolding close_comment
step_comment depth c r =
    if c == b'/' && next_is r b'*'
    then go (block_comment (depth + 1)) 1
    else if c == b'*' && next_is r b'/'
    then go (close_comment depth) 1
    else go (block_comment depth) 0

unfoldable pub step : LexicalState → Bytes → ℕ → Bytes → Step
unfolding step_normal step_escape step_dollar step_comment
step normal before c r = step_normal before c r
step single_quoted_string before c r = step_quoted single_quoted_string b'\'' c r
step escape_string before c r = step_escape c r
step double_quoted_identifier before c r = step_quoted double_quoted_identifier b'"' c r
step (dollar_quoted_string delimiter) before c r = step_dollar delimiter c r
step line_comment before c r = go (if c == 10 || c == 13 then normal else line_comment) 0
step (block_comment depth) before c r = step_comment depth c r

-- The indices handed to `terminated`, in order, and the state at the end of the input.
pub record Scan : Type 0 where
  pub ends : List ℕ
  pub state : LexicalState

abbrev pub add_end : Bool → ℕ → Scan → Scan
add_end true e s = record s { ends = e ∷ s.ends }
add_end false e s = s

-- `while index < bytes.len()`. The first argument counts the bytes that the last round skipped.
unfoldable pub run : ℕ → LexicalState → Bytes → Bytes → Scan
unfolding step
run k st before [] = record { ends = []; state = st }
run (suc k) st before (c ∷ r) = run k st (c ∷ before) r
run zero st before (c ∷ r) =
    let s = step st before c r in
    add_end s.terminated (length before + 1) (run s.skip s.next (c ∷ before) r)

unfoldable pub scan : Bytes → Scan
unfolding run is_identifier_continue follows_identifier is_escape_string_prefix tag_end dollar_tag
    dollar_quote_delimiter open_dollar
scan input = run 0 normal [] input

unfoldable pub terminated_statement_ends : Bytes → List ℕ
unfolding scan
terminated_statement_ends input = (scan input).ends

pub data Completeness : Type 0 where
  complete single_quoted_string escape_string double_quoted_identifier : Completeness
  dollar_quoted_string block_comment : Completeness

unfoldable pub completeness_of : LexicalState → Completeness
completeness_of LexicalState.normal = complete
completeness_of LexicalState.line_comment = complete
completeness_of LexicalState.single_quoted_string = Completeness.single_quoted_string
completeness_of LexicalState.escape_string = Completeness.escape_string
completeness_of LexicalState.double_quoted_identifier = Completeness.double_quoted_identifier
completeness_of (LexicalState.dollar_quoted_string d) = Completeness.dollar_quoted_string
completeness_of (LexicalState.block_comment depth) = Completeness.block_comment

unfoldable pub lexical_completeness : Bytes → Completeness
unfolding scan completeness_of
lexical_completeness input = completeness_of (scan input).state
