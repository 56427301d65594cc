-- ===== src/Cli/Script.antt =====
-- src/cli.rs: scripts, which are read in chunks and run statement by statement.
pub mod Whole
use dsql_cli.Prelude.{
  ℕ, ◌+◌, ◌-◌, Bool, true, false, not, ◌&&◌, ◌||◌, Option, none, some, ◌>>=◌, List, [], ◌∷◌, ◌++◌,
  Bytes, Chars, codes, length, take, drop, leb, ltb, ◌==◌, if◌then◌else◌,
}
use dsql_cli.Error.{ApplicationError, runtime, usage, Result, ok, err}
use dsql_cli.Sql.Stream.{
  Statement, StatementStream, empty, max_statement_bytes, push_bounded, pending_is_trivia,
}
use dsql_cli.Cli.{split_command}

-- The ranges of the bytes that are to follow a byte of UTF-8; none where it begins no character.
abbrev pub Ranges : Type 0
Ranges = List (ℕ × ℕ)

abbrev pub continuation : ℕ × ℕ
continuation = (128, 191)

abbrev pub within : ℕ → ℕ → ℕ → Bool
within lo hi b = leb lo b && leb b hi

abbrev pub following : ℕ → Option Ranges
following b =
    if ltb b 128
    then some []
    else if within 194 223 b
    then some (continuation ∷ [])
    else if b == 224
    then some ((160, 191) ∷ continuation ∷ [])
    else if b == 237
    then some ((128, 159) ∷ continuation ∷ [])
    else if within 225 239 b
    then some (continuation ∷ continuation ∷ [])
    else if b == 240
    then some ((144, 191) ∷ continuation ∷ continuation ∷ [])
    else if within 241 243 b
    then some (continuation ∷ continuation ∷ continuation ∷ [])
    else if b == 244
    then some ((128, 143) ∷ continuation ∷ continuation ∷ [])
    else none

-- `str::from_utf8`: how many bytes at the end belong to a character that is cut; none where an
-- error stands before the end.
unfoldable pub cut_bytes : Ranges → ℕ → Bytes → Option ℕ
cut_bytes [] inside [] = some 0
cut_bytes (r ∷ ranges) inside [] = some inside
cut_bytes [] inside (b ∷ bytes) = following b >>= λ ranges. cut_bytes ranges 1 bytes
cut_bytes ((lo, hi) ∷ ranges) inside (b ∷ bytes) =
    let rest = cut_bytes ranges (inside + 1) bytes in if within lo hi b then rest else none

-- The length of the valid text, where what follows it is at most a cut character.
unfoldable pub valid_bytes : Bytes → Option ℕ
unfolding cut_bytes
valid_bytes bytes = cut_bytes [] 0 bytes >>= λ cut. some (length bytes - cut)

-- What `fill_buf` gives, of at most 64 KiB; the end of the list is the end of the input.
pub data Chunk : Type 0 where
  chunk : Bytes → Chunk
  unreadable : Chunk

abbrev pub not_utf8 : Chars → ApplicationError
not_utf8 source = runtime (codes "could not read " ++ (source ++ codes " as UTF-8"))

unfoldable pub statement_too_large : Chars → ApplicationError
statement_too_large source = usage (source ++ codes " contains a SQL statement larger than 16 MiB")

abbrev pub incomplete : Chars → ApplicationError
incomplete source = usage (source ++ codes " ends with an incomplete SQL statement")

abbrev pub no_bytes : Bytes → Bool
no_bytes [] = true
no_bytes (b ∷ bytes) = false

-- `session.execute`.
module _ (S : Type 0) (execute : Bytes → S → S × Result (Unit {0})) where
  abbrev pub Ran : Type 0
  Ran = S × Result (Unit {0})

  abbrev pub and_then : (S → Ran) → Ran → Ran
  and_then f (s, ok done) = f s
  and_then f (s, err e) = (s, err e)

  unfoldable pub execute_each : List Bytes → S → Ran
  execute_each [] s = (s, ok tt)
  execute_each (b ∷ statements) s = and_then (execute_each statements) (execute b s)

  abbrev pub texts : List Statement → List Bytes
  texts [] = []
  texts (s ∷ statements) = s.text ∷ texts statements

  -- Behind the last chunk.
  unfoldable pub finish_script : Chars → Bytes → StatementStream → S → Ran
  finish_script source utf8 stream s =
      if not (no_bytes utf8)
      then (s, err (not_utf8 source))
      else if not (pending_is_trivia stream)
      then (s, err (incomplete source))
      else (s, ok tt)

  -- The statements of a push, and the rest of the chunks with the stream behind it.
  abbrev pub after_push :
      Chars → (StatementStream → S → Ran) → StatementStream × Option (List Statement) → S → Ran
  after_push source rest (stream, none) s = (s, err (statement_too_large source))
  after_push source rest (stream, some statements) s =
      and_then (rest stream) (execute_each (texts statements) s)

  abbrev pub with_valid :
      Chars → (Bytes → StatementStream → S → Ran) → Option ℕ → Bytes → StatementStream → S → Ran
  with_valid source rest none utf8 stream s = (s, err (not_utf8 source))
  with_valid source rest (some n) utf8 stream s =
      if n == 0
      then rest utf8 stream s
      else after_push source (rest (drop n utf8))
          (push_bounded stream (take n utf8) max_statement_bytes) s

  unfoldable pub read_chunks : Chars → List Chunk → Bytes → StatementStream → S → Ran
  unfolding valid_bytes execute_each finish_script
  read_chunks source [] utf8 stream s = finish_script source utf8 stream s
  read_chunks source (unreadable ∷ chunks) utf8 stream s = (s, err (not_utf8 source))
  read_chunks source (chunk bytes ∷ chunks) utf8 stream s =
      let held = utf8 ++ bytes in
      with_valid source (read_chunks source chunks) (valid_bytes held) held stream s

  unfoldable pub execute_script_reader : Chars → List Chunk → S → Ran
  unfolding read_chunks
  execute_script_reader source chunks s = read_chunks source chunks [] empty s

  -- The inputs in their order; a file is none where it cannot be opened.
  pub data ScriptInput : Type 0 where
    command : Bytes → ScriptInput
    file : Option (List Chunk) → ScriptInput

  abbrev pub execute_command : Result (List Bytes) → S → Ran
  execute_command (ok statements) s = execute_each statements s
  execute_command (err e) s = (s, err e)

  abbrev pub execute_input : ScriptInput → S → Ran
  execute_input (command text) s = execute_command (split_command text) s
  execute_input (file none) s = (s, err (runtime (codes "could not open SQL file")))
  execute_input (file (some chunks)) s = execute_script_reader (codes "SQL file") chunks s

  unfoldable pub execute_script_inputs : List ScriptInput → Option (List Chunk) → S → Ran
  unfolding split_command execute_script_reader execute_each
  execute_script_inputs inputs (some chunks) s =
      execute_script_reader (codes "standard input") chunks s
  execute_script_inputs [] none s = (s, ok tt)
  execute_script_inputs (input ∷ inputs) none s =
      and_then (execute_script_inputs inputs none) (execute_input input s)
