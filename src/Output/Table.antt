-- ===== src/Output/Table.antt =====
-- src/output/table.rs, `TableExecutionSink`: execution events as a table that is written row by row.
pub mod Safe
use dsql_cli.Prelude.{
  ℕ, ◌+◌, Bool, true, false, not, Option, none, some, List, [], ◌∷◌, ◌++◌, map, Chars, codes,
  decimal, length, ◌==◌, if◌then◌else◌,
}
use dsql_cli.Error.{ApplicationError, runtime, broken_pipe, Result, ok, err}
use dsql_cli.App.Data.{ExecutionEvent, columns, row, command_complete, notice, error}
use dsql_cli.Output.{escape_terminal_text}
use dsql_cli.Output.Columns.{
  Widths, column_widths, truncate_to_width, table_line, separator_line,
  escape_terminal_text_to_width,
}

pub data WriteTarget : Type 0 where
  output diagnostics : WriteTarget

pub record WriteFailure : Type 0 where
  pub target : WriteTarget
  pub pipe_broken : Bool

-- The two writers, and `write_all` with its `flush`: a failure is for a broken pipe or not.
pub record Writers : Type 1 where
  pub World : Type 0
  pub write_all : WriteTarget → Chars → World → World × Option Bool

pub record ResultSet : Type 0 where
  pub widths : List ℕ
  pub rows : ℕ

unfoldable pub write_diagnostic : WriteTarget → Chars
write_diagnostic output = codes "could not render query output"
write_diagnostic diagnostics = codes "could not render query diagnostics"

unfoldable pub write_error : WriteFailure → ApplicationError
unfolding write_diagnostic
write_error failure =
    if failure.pipe_broken
    then broken_pipe (write_diagnostic failure.target)
    else runtime (write_diagnostic failure.target)

abbrev pub invalid_table_event : ApplicationError
invalid_table_event = runtime (codes "invalid table execution event order")

abbrev pub sqlstate_text : Option Chars → Chars
sqlstate_text none = []
sqlstate_text (some state) = codes " [" ++ (escape_terminal_text state ++ codes "]")

module _ (S : Writers) (W : Widths) where
  pub record TableExecutionSink : Type 0 where
    pub world : S.World
    pub display_width : ℕ
    pub result : Option ResultSet
    pub needs_separator : Bool
    pub terminal : Bool
    pub failed : Option WriteFailure

  abbrev pub Emitted : Type 0
  Emitted = TableExecutionSink × Result (Unit {0})

  unfoldable pub new_table : S.World → ℕ → TableExecutionSink
  new_table w display_width = record {
    world = w;
    display_width = display_width;
    result = none;
    needs_separator = false;
    terminal = false;
    failed = none;
  }

  abbrev pub written : WriteTarget → TableExecutionSink → S.World × Option Bool → Emitted
  written target s (w, none) = (record s { world = w }, ok tt)
  written target s (w, some pipe) =
      let failure : WriteFailure = record { target = target; pipe_broken = pipe } in
      (record s { world = w; failed = some failure }, err (write_error failure))

  abbrev pub refuse_or : Option WriteFailure → Emitted → TableExecutionSink → Emitted
  refuse_or none x s = x
  refuse_or (some failure) x s = (s, err (write_error failure))

  -- A write is refused behind one that failed.
  unfoldable pub write_table : WriteTarget → Chars → TableExecutionSink → Emitted
  write_table target value s =
      refuse_or s.failed (written target s (S.write_all target value s.world)) s

  -- `?` behind a write.
  abbrev pub and_then : (TableExecutionSink → Emitted) → Emitted → Emitted
  and_then f (s, ok done) = f s
  and_then f (s, err e) = (s, err e)

  abbrev pub write_if : Bool → Chars → TableExecutionSink → Emitted
  write_if b value s = if b then write_table output value s else (s, ok tt)

  abbrev pub headers_of : List Chars → ℕ → List Chars
  headers_of names width = map (λ column. escape_terminal_text_to_width W column width) names

  abbrev pub zip_truncated : List Chars → List ℕ → List Chars
  zip_truncated (header ∷ headers) (width ∷ widths) =
      truncate_to_width W header width ∷ zip_truncated headers widths
  zip_truncated _ _ = []

  abbrev pub begin_result : List ℕ → TableExecutionSink → Emitted
  begin_result widths s = (
    record s { result = some (record { widths = widths; rows = 0 }); needs_separator = true },
    ok tt,
  )

  unfoldable pub render_header : List Chars → List ℕ → TableExecutionSink → Emitted
  unfolding write_table
  render_header headers widths s = and_then (begin_result widths) (
      and_then (write_table output (codes "\n")) (
        and_then (write_table output (separator_line widths)) (
          and_then (write_table output (codes "\n"))
            (write_table output (table_line W (zip_truncated headers widths) widths) s))))

  abbrev pub is_some {ℓ} : {A : Type ℓ} → Option A → Bool
  is_some none = false
  is_some (some a) = true

  unfoldable pub render_columns : List Chars → TableExecutionSink → Emitted
  unfolding render_header write_table
  render_columns names s =
      let headers = headers_of names s.display_width in
      if is_some s.result
      then (s, err invalid_table_event)
      else and_then (render_header headers (column_widths W headers s.display_width))
          (write_if s.needs_separator (codes "\n") s)

  abbrev pub cell_of : Option Chars → ℕ → Chars
  cell_of none width = truncate_to_width W (codes "NULL") width
  cell_of (some value) width = escape_terminal_text_to_width W value width

  abbrev pub cells_of : List (Option Chars) → List ℕ → List Chars
  cells_of (value ∷ values) (width ∷ widths) = cell_of value width ∷ cells_of values widths
  cells_of _ _ = []

  abbrev pub count_row : ResultSet → TableExecutionSink → Emitted
  count_row r s = (record s { result = some (record r { rows = r.rows + 1 }) }, ok tt)

  abbrev pub render_cells : List (Option Chars) → ResultSet → TableExecutionSink → Emitted
  render_cells values r s =
      if not (length values == length r.widths)
      then (s, err invalid_table_event)
      else and_then (count_row r) (
          and_then (write_table output (codes "\n"))
            (write_table output (table_line W (cells_of values r.widths) r.widths) s))

  abbrev pub with_result : Option ResultSet → (ResultSet → Emitted) → TableExecutionSink → Emitted
  with_result none f s = (s, err invalid_table_event)
  with_result (some r) f s = f r

  unfoldable pub render_row : List (Option Chars) → TableExecutionSink → Emitted
  unfolding write_table
  render_row values s = with_result s.result (λ r. render_cells values r s) s

  abbrev pub separated : TableExecutionSink → Emitted
  separated s = (record s { needs_separator = true }, ok tt)

  abbrev pub complete_with : Option ResultSet → ℕ → TableExecutionSink → Emitted
  complete_with none n s = and_then separated (
      and_then (write_table output (codes "(" ++ (decimal n ++ codes " rows affected)\n")))
        (write_if s.needs_separator (codes "\n") s))
  complete_with (some r) n s =
      if not (r.rows == n)
      then (s, err invalid_table_event)
      else write_table output (codes "(" ++ (decimal n ++ codes " rows)\n"))
          (record s { result = none })

  unfoldable pub render_complete : ℕ → TableExecutionSink → Emitted
  unfolding write_table
  render_complete n s = complete_with s.result n s

  unfoldable pub table_diagnostic : Chars → TableExecutionSink → Emitted
  unfolding write_table
  table_diagnostic message s =
      and_then (write_table diagnostics (codes "\n")) (write_table diagnostics message s)

  abbrev pub end_with : TableExecutionSink → Emitted
  end_with s = (record s { terminal = true }, ok tt)

  unfoldable pub render : ExecutionEvent → TableExecutionSink → Emitted
  unfolding render_columns render_row render_complete table_diagnostic
  render (columns names) s = render_columns names s
  render (row values) s = render_row values s
  render (command_complete n) s = render_complete n s
  render (notice text) s = table_diagnostic (codes "notice: " ++ escape_terminal_text text) s
  render (error sqlstate text) s = and_then end_with (
      table_diagnostic
        (codes "error" ++ (sqlstate_text sqlstate ++ (codes ": " ++ escape_terminal_text text))) s)

  unfoldable pub emit_table : ExecutionEvent → TableExecutionSink → Emitted
  unfolding render
  emit_table event s =
      refuse_or s.failed (if s.terminal then (s, err invalid_table_event) else render event s) s

  -- The events of a statement, up to the first that is refused.
  unfoldable pub emit_all_table : List ExecutionEvent → TableExecutionSink → Emitted
  unfolding emit_table
  emit_all_table [] s = (s, ok tt)
  emit_all_table (event ∷ events) s = and_then (emit_all_table events) (emit_table event s)
