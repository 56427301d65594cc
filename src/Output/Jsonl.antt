-- ===== src/Output/Jsonl.antt =====
-- src/output/jsonl.rs: framed JSON Lines. Serializing a frame and writing its line is a parameter.
pub mod Consumer
pub mod Protocol
use dsql_cli.Prelude.{
  ℕ, ◌+◌, ◌%◌, Bool, true, false, not, Option, none, some, List, Chars, codes, length, ◌==◌,
  if◌then◌else◌,
}
use dsql_cli.Error.{ApplicationError, runtime, broken_pipe, Result, ok, err}
use dsql_cli.App.Data.{ExecutionEvent, columns, row, command_complete, notice, error}
use dsql_cli.App.Session.{u64_mod}

-- The frames, each of version 1.
pub data Frame : Type 0 where
  columns_frame : ℕ → List Chars → Frame
  row_frame : ℕ → List (Option Chars) → Frame
  complete_frame : ℕ → ℕ → Frame
  command_frame : ℕ → Frame
  notice_frame : Chars → Frame
  error_frame : Option Chars → Chars → Frame

pub record ActiveResult : Type 0 where
  pub index : ℕ
  pub width : ℕ
  pub rows : ℕ

-- A write that failed, for a broken pipe or not.
pub data FrameWritten : Type 0 where
  written : FrameWritten
  not_written : Bool → FrameWritten

pub record FrameWriter : Type 1 where
  pub Writer : Type 0
  pub put : Frame → Writer → Writer × FrameWritten

unfoldable pub output_error : Bool → ApplicationError
output_error pipe_broken =
    if pipe_broken
    then broken_pipe (codes "could not write JSON Lines output")
    else runtime (codes "could not write JSON Lines output")

unfoldable pub invalid_event : ApplicationError
invalid_event = runtime (codes "invalid JSON Lines execution event order")

module _ (F : FrameWriter) where
  pub record JsonlExecutionSink : Type 0 where
    pub writer : F.Writer
    pub next_result : ℕ
    pub active_result : Option ActiveResult
    pub failed : Bool

  unfoldable pub new_jsonl : F.Writer → JsonlExecutionSink
  new_jsonl writer = record {
    writer = writer;
    next_result = 0;
    active_result = none;
    failed = false;
  }

  abbrev pub FrameEmitted : Type 0
  FrameEmitted = JsonlExecutionSink × Result (Unit {0})

  abbrev pub refuse_event : JsonlExecutionSink → FrameEmitted
  refuse_event s = (s, err invalid_event)

  -- `write_frame(..)?`, and the assignments behind it.
  abbrev pub after_frame :
      JsonlExecutionSink
      → (JsonlExecutionSink → JsonlExecutionSink)
      → F.Writer × FrameWritten
      → FrameEmitted
  after_frame s next (w, written) = (next (record s { writer = w }), ok tt)
  after_frame s next (w, not_written pipe_broken) =
      (record s { writer = w }, err (output_error pipe_broken))

  unfoldable pub write_frame :
      JsonlExecutionSink → Frame → (JsonlExecutionSink → JsonlExecutionSink) → FrameEmitted
  write_frame s frame next = after_frame s next (F.put frame s.writer)

  unfoldable pub emit_columns_frame :
      JsonlExecutionSink → List Chars → Option ActiveResult → FrameEmitted
  unfolding write_frame
  emit_columns_frame s names (some active) = refuse_event s
  emit_columns_frame s names none = write_frame s (columns_frame s.next_result names) (λ t.
      record t {
        next_result = (t.next_result + 1) % u64_mod;
        active_result = some (record { index = s.next_result; width = length names; rows = 0 });
      })

  unfoldable pub emit_row_frame :
      JsonlExecutionSink → List (Option Chars) → Option ActiveResult → FrameEmitted
  unfolding write_frame
  emit_row_frame s values none = refuse_event s
  emit_row_frame s values (some active) =
      if not (length values == active.width)
      then refuse_event s
      else write_frame s (row_frame active.index values) (λ t. record t {
        active_result = some (record active { rows = (active.rows + 1) % u64_mod });
      })

  unfoldable pub emit_complete_frame : JsonlExecutionSink → ℕ → Option ActiveResult → FrameEmitted
  unfolding write_frame
  emit_complete_frame s rows none = write_frame s (command_frame rows) (λ t. t)
  emit_complete_frame s rows (some active) =
      if not (active.rows == rows)
      then refuse_event s
      else write_frame s (complete_frame active.index rows) (λ t. record t { active_result = none })

  unfoldable pub emit_frame : JsonlExecutionSink → ExecutionEvent → FrameEmitted
  unfolding emit_columns_frame emit_row_frame emit_complete_frame write_frame
  emit_frame s (columns names) = emit_columns_frame s names s.active_result
  emit_frame s (row values) = emit_row_frame s values s.active_result
  emit_frame s (command_complete rows) = emit_complete_frame s rows s.active_result
  emit_frame s (notice message) = write_frame s (notice_frame message) (λ t. t)
  emit_frame s (error sqlstate message) =
      write_frame s (error_frame sqlstate message) (λ t. record t { failed = true })

  unfoldable pub emit_json : JsonlExecutionSink → ExecutionEvent → FrameEmitted
  unfolding emit_frame
  emit_json s event = if s.failed then refuse_event s else emit_frame s event
