-- ===== src/Sql/Stream.antt =====
-- src/sql/scanner.rs, `StatementStream`.
pub mod Frames
pub mod Chunks
pub mod Limits
use dsql_cli.Prelude.{
  ℕ, ◌-◌, Bool, true, false, not, ◌&&◌, ◌||◌, Option, none, some, List, [], ◌∷◌, ◌++◌, Bytes,
  length, take, drop, ltb, if◌then◌else◌,
}
use dsql_cli.Sql.Lexer.{terminated_statement_ends, lexical_completeness, Completeness, complete}
use dsql_cli.Sql.Keywords.{TransactionControl, classify_transaction_control, skip_trivia}

pub record Statement : Type 0 where
  pub text : Bytes
  pub transaction_control : TransactionControl

-- Sixteen MiB.
abbrev pub max_statement_bytes : ℕ
max_statement_bytes = 16777216

pub record StatementStream : Type 0 where
  pub pending : Bytes

abbrev pub empty : StatementStream
empty = record { pending = [] }

-- `input[start..end]`
abbrev pub slice : Bytes → ℕ → ℕ → Bytes
slice input start end = take (end - start) (drop start input)

abbrev pub statement : Bytes → Statement
statement text = record { text = text; transaction_control = classify_transaction_control text }

-- `max_statement_bytes.is_some_and(|limit| size > limit)`
abbrev pub exceeds : Option ℕ → ℕ → Bool
exceeds none size = false
exceeds (some limit) size = ltb limit size

-- The loop over the ends: the statements and the last `start`, or `Err(())`.
pub record Cut : Type 0 where
  pub statements : List Statement
  pub start : ℕ

abbrev pub push_cut : Statement → Option Cut → Option Cut
push_cut s none = none
push_cut s (some cut) = some (record cut { statements = s ∷ cut.statements })

unfoldable pub cut_from : Option ℕ → Bytes → ℕ → List ℕ → Option Cut
cut_from limit input start [] = some (record { statements = []; start = start })
cut_from limit input start (end ∷ ends) =
    if exceeds limit (end - start)
    then none
    else push_cut (statement (slice input start end)) (cut_from limit input end ends)

-- The buffer behind the loop, with the drain of `..start`, and the last bound.
unfoldable pub finish : Option ℕ → Bytes → Option Cut → StatementStream × Option (List Statement)
finish limit pending none = (record { pending = pending }, none)
finish limit pending (some cut) =
    let rest = drop cut.start pending in
    (record { pending = rest }, if exceeds limit (length rest) then none else some cut.statements)

-- The stream after the call, and `Err(())` as `none`. After an error in the loop nothing is drained.
unfoldable pub push_inner :
    StatementStream → Bytes → Option ℕ → StatementStream × Option (List Statement)
unfolding cut_from finish
push_inner stream input limit =
    let pending = stream.pending ++ input in
    finish limit pending (cut_from limit pending 0 (terminated_statement_ends pending))

unfoldable pub push_bounded :
    StatementStream → Bytes → ℕ → StatementStream × Option (List Statement)
unfolding push_inner
push_bounded stream input limit = push_inner stream input (some limit)

abbrev pub is_complete : Completeness → Bool
is_complete complete = true
is_complete _ = false

abbrev is_empty : Bytes → Bool
is_empty [] = true
is_empty (c ∷ r) = false

unfoldable pub pending_is_trivia : StatementStream → Bool
pending_is_trivia stream =
    is_complete (lexical_completeness stream.pending) && is_empty (skip_trivia stream.pending)

unfoldable pub take_complete_statement : StatementStream → StatementStream × Option Statement
unfolding pending_is_trivia
take_complete_statement stream =
    if not (is_complete (lexical_completeness stream.pending)) || pending_is_trivia stream
    then (stream, none)
    else (empty, some (statement stream.pending))
