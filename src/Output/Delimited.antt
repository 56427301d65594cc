-- ===== src/Output/Delimited.antt =====
-- src/output/delimited.rs: one result set as CSV or TSV. The csv writer and the diagnostics stream
-- are parameters.
pub mod Cell
pub mod Rectangle
use dsql_cli.Prelude.{
  ℕ, Bool, true, false, not, ◌&&◌, Option, none, some, List, [], ◌∷◌, ◌++◌, map, Chars, codes,
  decimal, length, ◌==◌, starts_with, if◌then◌else◌,
}
use dsql_cli.Error.{ApplicationError, runtime, broken_pipe, Result, ok, err}
use dsql_cli.App.Data.{ExecutionEvent, columns, row, command_complete, notice, error}
use dsql_cli.Output.{escape_terminal_text}

pub data DelimitedFormat : Type 0 where
  csv tsv : DelimitedFormat

unfoldable pub delimiter : DelimitedFormat → ℕ
delimiter csv = b','
delimiter tsv = 9

abbrev pub encode_value : Chars → Chars
encode_value value = if starts_with value (codes "\\") then b'\\' ∷ value else value

unfoldable pub encode_cell : Option Chars → Bool → Chars
encode_cell none escape_controls = codes "\\N"
encode_cell (some value) escape_controls =
    encode_value (if escape_controls then escape_terminal_text value else value)

unfoldable pub delimited_write_error : Bool → ApplicationError
delimited_write_error pipe_broken =
    if pipe_broken
    then broken_pipe (codes "could not write delimited output")
    else runtime (codes "could not write delimited output")

-- What a write came to: done, or failed, for a broken pipe or not.
pub data Written : Type 0 where
  done : Written
  failed : Bool → Written

-- `csv::Writer` over its output, and the diagnostics' `Write`.
pub record Streams : Type 1 where
  pub Writer : Type 0
  pub Diagnostics : Type 0
  pub write_record : List Chars → Writer → Writer × Written
  pub flush : Writer → Writer × Written
  pub write_line : Chars → Diagnostics → Diagnostics × Written

module _ (S : Streams) where
  pub record DelimitedSink : Type 0 where
    pub writer : S.Writer
    pub diagnostics : S.Diagnostics
    pub column_count : Option ℕ
    pub row_set_seen : Bool
    pub result_complete : Bool
    pub terminal : Bool
    pub escape_data_controls : Bool

  -- `new`, and `with_terminal_escaping`; the writer is built with the format's delimiter.
  unfoldable pub new_sink : S.Writer → S.Diagnostics → Bool → DelimitedSink
  new_sink writer diagnostics escaping = record {
    writer = writer;
    diagnostics = diagnostics;
    column_count = none;
    row_set_seen = false;
    result_complete = false;
    terminal = false;
    escape_data_controls = escaping;
  }

  abbrev pub Emitted : Type 0
  Emitted = DelimitedSink × Result (Unit {0})

  abbrev pub write_result : Written → Result (Unit {0})
  write_result done = ok tt
  write_result (failed pipe_broken) = err (delimited_write_error pipe_broken)

  abbrev pub after_write : DelimitedSink → S.Writer × Written → Emitted
  after_write s (writer, written) = (record s { writer = writer }, write_result written)

  unfoldable pub write : DelimitedSink → List Chars → Emitted
  write s fields = after_write s (S.write_record fields s.writer)

  unfoldable pub flushed : DelimitedSink → Emitted
  flushed s = after_write s (S.flush s.writer)

  abbrev pub line_result : Written → Result (Unit {0})
  line_result done = ok tt
  line_result (failed pipe_broken) = err (runtime (codes "could not write diagnostics"))

  unfoldable pub diagnostic : DelimitedSink → Chars → Emitted
  diagnostic s message =
      let (diagnostics, written) = S.write_line message s.diagnostics in
      (record s { diagnostics = diagnostics }, line_result written)

  abbrev pub and_then : Emitted → (DelimitedSink → Emitted) → Emitted
  and_then (s, ok _) next = next s
  and_then (s, err e) next = (s, err e)

  abbrev pub refuse : DelimitedSink → Chars → Emitted
  refuse s message = (s, err (runtime message))

  unfoldable pub emit_columns : DelimitedSink → List Chars → Emitted
  unfolding write
  emit_columns s names =
      if s.row_set_seen
      then refuse s (codes "delimited output supports exactly one row-producing result set")
      else write
          (record s {
            column_count = some (length names);
            row_set_seen = true;
            result_complete = false;
          })
          (map (λ column. if s.escape_data_controls then escape_terminal_text column else column)
            names)

  unfoldable pub emit_row : DelimitedSink → List (Option Chars) → Option ℕ → Emitted
  unfolding write
  emit_row s values none = refuse s (codes "received a row before its column description")
  emit_row s values (some column_count) =
      if s.result_complete
      then refuse s (codes "received a row after result completion")
      else if not (length values == column_count)
      then refuse s (
          codes "row has "
          ++ (decimal (length values)
              ++ (codes " values but the result has "
                  ++ (decimal column_count ++ codes " columns"))))
      else write s (map (λ value. encode_cell value s.escape_data_controls) values)

  abbrev pub error_message : Option Chars → Chars → Chars
  error_message none message = codes "error: " ++ escape_terminal_text message
  error_message (some sqlstate) message =
      codes "error ["
      ++ (escape_terminal_text sqlstate ++ (codes "]: " ++ escape_terminal_text message))

  unfoldable pub emit_event : DelimitedSink → ExecutionEvent → Emitted
  unfolding emit_columns emit_row flushed diagnostic
  emit_event s (columns names) = emit_columns s names
  emit_event s (row values) = emit_row s values s.column_count
  emit_event s (command_complete rows) =
      if s.row_set_seen && not s.result_complete
      then and_then (flushed s) (λ t. (record t { result_complete = true }, ok tt))
      else (s, ok tt)
  emit_event s (notice message) = diagnostic s (codes "notice: " ++ escape_terminal_text message)
  emit_event s (error sqlstate message) = and_then (flushed s) (λ t.
      and_then (diagnostic t (error_message sqlstate message))
        (λ u. (record u { terminal = true }, ok tt)))

  unfoldable pub emit : DelimitedSink → ExecutionEvent → Emitted
  unfolding emit_event
  emit s event =
      if s.terminal
      then refuse s (codes "invalid delimited execution event order")
      else emit_event s event
