-- ===== src/Output/Table/Safe.antt =====
-- Nothing that is unsafe to print reaches either writer, whatever the events hold.
use dsql_cli.Prelude.{
  ℕ, ◌≡◌, refl, ◌⊎◌, inl, inr, Bool, true, false, not, Option, none, some, List, [], ◌∷◌, ◌++◌,
  Chars, codes, decimal, length, ◌==◌, if◌then◌else◌,
}
use dsql_cli.Error.{ok, err}
use dsql_cli.App.Data.{ExecutionEvent, columns, row, command_complete, notice, error}
use dsql_cli.Output.{escape_terminal_text}
use dsql_cli.Output.Columns.{Widths, column_widths, table_line, separator_line}
use dsql_cli.Output.Columns.Shown.{
  Shown, Shown-append, escape_terminal_text-Shown, separator_line-Shown, truncate_to_width-Shown,
  escape_terminal_text_to_width-Shown, AllShown, table_line-Shown,
}
use dsql_cli.Output.Table.{
  WriteTarget, output, diagnostics, WriteFailure, Writers, ResultSet, invalid_table_event,
  sqlstate_text, TableExecutionSink, Emitted, written, refuse_or, write_table, and_then, write_if,
  headers_of, zip_truncated, begin_result, render_header, is_some, render_columns, cell_of,
  cells_of, count_row, render_cells, with_result, render_row, separated, complete_with,
  render_complete, table_diagnostic, end_with, render, emit_table, emit_all_table,
}

-- Printable characters alone; or a line feed of the table's own, alone or behind a count of rows.
abbrev pub TableText : Chars → Type 0
TableText value =
    Shown value
    ⊎ ((value ≡ codes "\n")
        ⊎ ((n : ℕ) × ((value ≡ codes "(" ++ (decimal n ++ codes " rows)\n"))
              ⊎ (value ≡ codes "(" ++ (decimal n ++ codes " rows affected)\n")))))

end_of_line : TableText (codes "\n")
end_of_line = inr (inl refl)

module _ (S : Writers) (W : Widths) (Safe : S.World → Type 0) where
  -- What is written is safe as long as such texts are written, the parts that a failure lets
  -- through included.
  pub record Observes : Type 0 where
    pub writing :
        (target : WriteTarget) (value : Chars) (w : S.World)
        → TableText value
        → Safe w
        → Safe (S.write_all target value w).0

  module _ (O : Observes) where
    abbrev Kept : Emitted S W → Type 0
    Kept x = Safe x.0.world

    written-Kept :
        (t : WriteTarget) (s : TableExecutionSink S W) (x : S.World × Option Bool)
        → Safe x.0
        → Kept (written S W t s x)
    written-Kept t s (w, none) h = h
    written-Kept t s (w, some pipe) h = h

    refuse_or-Kept :
        (f : Option WriteFailure) (x : Emitted S W) (s : TableExecutionSink S W)
        → Kept x
        → Safe s.world
        → Kept (refuse_or S W f x s)
    refuse_or-Kept none x s h k = h
    refuse_or-Kept (some f) x s h k = k

    write_table-Kept :
        (t : WriteTarget) (value : Chars) (s : TableExecutionSink S W)
        → TableText value
        → Safe s.world
        → Kept (write_table S W t value s)
    unfolding write_table
    write_table-Kept t value s v h =
        refuse_or-Kept s.failed (written S W t s (S.write_all t value s.world)) s
          (written-Kept t s (S.write_all t value s.world) (O.writing t value s.world v h)) h

    and_then-Kept :
        (f : TableExecutionSink S W → Emitted S W) (x : Emitted S W)
        → ((s : TableExecutionSink S W) → Safe s.world → Kept (f s))
        → Kept x
        → Kept (and_then S W f x)
    and_then-Kept f (s, ok done) g h = g s h
    and_then-Kept f (s, err e) g h = h

    if-Kept : (b : Bool) (x y : Emitted S W) → Kept x → Kept y → Kept (if b then x else y)
    if-Kept true x y h k = h
    if-Kept false x y h k = k

    -- A safe text behind what was written before.
    then_write :
        (t : WriteTarget) (value : Chars) (x : Emitted S W)
        → TableText value
        → Kept x
        → Kept (and_then S W (write_table S W t value) x)
    then_write t value x v h =
        and_then-Kept (write_table S W t value) x (λ s k. write_table-Kept t value s v k) h

    separator-Kept :
        (b : Bool) (s : TableExecutionSink S W)
        → Safe s.world
        → Kept (write_if S W b (codes "\n") s)
    separator-Kept b s h =
        if-Kept b (write_table S W output (codes "\n") s) (s, ok tt)
          (write_table-Kept output (codes "\n") s end_of_line h) h

    headers-AllShown : (names : List Chars) (width : ℕ) → AllShown W (headers_of S W names width)
    headers-AllShown [] width = tt
    headers-AllShown (n ∷ names) width =
        (escape_terminal_text_to_width-Shown W n width, headers-AllShown names width)

    zip-AllShown :
        (headers : List Chars) (widths : List ℕ)
        → AllShown W headers
        → AllShown W (zip_truncated S W headers widths)
    zip-AllShown [] widths h = tt
    zip-AllShown (s ∷ headers) [] h = tt
    zip-AllShown (s ∷ headers) (w ∷ widths) h =
        (truncate_to_width-Shown W s w h.0, zip-AllShown headers widths h.1)

    cell-Shown : (value : Option Chars) (width : ℕ) → Shown (cell_of S W value width)
    cell-Shown none width = truncate_to_width-Shown W (codes "NULL") width refl
    cell-Shown (some value) width = escape_terminal_text_to_width-Shown W value width

    cells-AllShown :
        (l : List (Option Chars)) (widths : List ℕ) → AllShown W (cells_of S W l widths)
    cells-AllShown [] widths = tt
    cells-AllShown (v ∷ l) [] = tt
    cells-AllShown (v ∷ l) (w ∷ widths) = (cell-Shown v w, cells-AllShown l widths)

    header-Kept :
        (headers : List Chars) (widths : List ℕ) (s : TableExecutionSink S W)
        → AllShown W headers
        → Safe s.world
        → Kept (render_header S W headers widths s)
    unfolding render_header
    header-Kept headers widths s a h =
        let line = table_line W (zip_truncated S W headers widths) widths in
        let first = write_table S W output line s in
        let second = and_then S W (write_table S W output (codes "\n")) first in
        let third = and_then S W (write_table S W output (separator_line widths)) second in
        let fourth = and_then S W (write_table S W output (codes "\n")) third in
        and_then-Kept (begin_result S W widths) fourth (λ t k. k)
          (then_write output (codes "\n") third end_of_line (
            then_write output (separator_line widths) second (inl (separator_line-Shown widths)) (
              then_write output (codes "\n") first end_of_line (
                write_table-Kept output line s
                  (inl (
                    table_line-Shown W (zip_truncated S W headers widths) widths
                      (zip-AllShown headers widths a)))
                  h))))

    columns-Kept :
        (names : List Chars) (s : TableExecutionSink S W)
        → Safe s.world
        → Kept (render_columns S W names s)
    unfolding render_columns
    columns-Kept names s h =
        let headers = headers_of S W names s.display_width in
        let widths = column_widths W headers s.display_width in
        let before = write_if S W s.needs_separator (codes "\n") s in
        if-Kept (is_some S W s.result) (s, err invalid_table_event)
          (and_then S W (render_header S W headers widths) before) h
          (and_then-Kept (render_header S W headers widths) before
            (λ t k. header-Kept headers widths t (headers-AllShown names s.display_width) k)
            (separator-Kept s.needs_separator s h))

    cells-Kept :
        (values : List (Option Chars)) (r : ResultSet) (s : TableExecutionSink S W)
        → Safe s.world
        → Kept (render_cells S W values r s)
    cells-Kept values r s h =
        let line = table_line W (cells_of S W values r.widths) r.widths in
        let first = write_table S W output line s in
        let second = and_then S W (write_table S W output (codes "\n")) first in
        if-Kept (not (length values == length r.widths)) (s, err invalid_table_event)
          (and_then S W (count_row S W r) second) h
          (and_then-Kept (count_row S W r) second (λ t k. k)
            (then_write output (codes "\n") first end_of_line (
              write_table-Kept output line s
                (inl (
                  table_line-Shown W (cells_of S W values r.widths) r.widths
                    (cells-AllShown values r.widths)))
                h)))

    row-Kept :
        (values : List (Option Chars)) (r : Option ResultSet) (s : TableExecutionSink S W)
        → Safe s.world
        → Kept (with_result S W r (λ x. render_cells S W values x s) s)
    row-Kept values none s h = h
    row-Kept values (some r) s h = cells-Kept values r s h

    complete-Kept :
        (r : Option ResultSet) (n : ℕ) (s : TableExecutionSink S W)
        → Safe s.world
        → Kept (complete_with S W r n s)
    complete-Kept none n s h =
        let text = codes "(" ++ (decimal n ++ codes " rows affected)\n") in
        let before = write_if S W s.needs_separator (codes "\n") s in
        and_then-Kept (separated S W) (and_then S W (write_table S W output text) before) (λ t k. k)
          (then_write output text before (inr (inr (n, inr refl)))
            (separator-Kept s.needs_separator s h))
    complete-Kept (some r) n s h =
        let text = codes "(" ++ (decimal n ++ codes " rows)\n") in
        let taken = record s { result = none } in
        if-Kept (not (r.rows == n)) (s, err invalid_table_event) (write_table S W output text taken)
          h (write_table-Kept output text taken (inr (inr (n, inl refl))) h)

    table_diagnostic-Kept :
        (message : Chars) (s : TableExecutionSink S W)
        → Shown message
        → Safe s.world
        → Kept (table_diagnostic S W message s)
    unfolding table_diagnostic
    table_diagnostic-Kept message s m h =
        then_write diagnostics (codes "\n") (write_table S W diagnostics message s) end_of_line
          (write_table-Kept diagnostics message s (inl m) h)

    sqlstate-Shown : (state : Option Chars) → Shown (sqlstate_text state)
    sqlstate-Shown none = refl
    sqlstate-Shown (some s) =
        Shown-append (codes " [") (escape_terminal_text s ++ codes "]") refl
          (Shown-append (escape_terminal_text s) (codes "]") (escape_terminal_text-Shown s) refl)

    render-Kept :
        (event : ExecutionEvent) (s : TableExecutionSink S W)
        → Safe s.world
        → Kept (render S W event s)
    unfolding render render_row render_complete
    render-Kept (columns names) s h = columns-Kept names s h
    render-Kept (row values) s h = row-Kept values s.result s h
    render-Kept (command_complete n) s h = complete-Kept s.result n s h
    render-Kept (notice text) s h =
        table_diagnostic-Kept (codes "notice: " ++ escape_terminal_text text) s
          (Shown-append (codes "notice: ") (escape_terminal_text text) refl
            (escape_terminal_text-Shown text))
          h
    render-Kept (error state text) s h =
        let tail = codes ": " ++ escape_terminal_text text in
        let message = codes "error" ++ (sqlstate_text state ++ tail) in
        and_then-Kept (end_with S W) (table_diagnostic S W message s) (λ t k. k)
          (table_diagnostic-Kept message s
            (Shown-append (codes "error") (sqlstate_text state ++ tail) refl (
              Shown-append (sqlstate_text state) tail (sqlstate-Shown state) (
                Shown-append (codes ": ") (escape_terminal_text text) refl
                  (escape_terminal_text-Shown text))))
            h)

    emit_table-Kept :
        (event : ExecutionEvent) (s : TableExecutionSink S W)
        → Safe s.world
        → Kept (emit_table S W event s)
    unfolding emit_table
    emit_table-Kept event s h =
        let rendered = if s.terminal then (s, err invalid_table_event) else render S W event s in
        refuse_or-Kept s.failed rendered s
          (if-Kept s.terminal (s, err invalid_table_event) (render S W event s) h
            (render-Kept event s h))
          h

    -- Whatever names, values, notices and errors the events hold, and whichever writes fail, each text
    -- that a table writes is of printable characters, without a line feed; or it is the table's own
    -- line feed, or its own count of rows with a line feed behind it.
    pub emit_all_table-Safe :
        (events : List ExecutionEvent) (s : TableExecutionSink S W)
        → Safe s.world
        → Safe (emit_all_table S W events s).0.world
    unfolding emit_all_table
    emit_all_table-Safe [] s h = h
    emit_all_table-Safe (event ∷ events) s h =
        and_then-Kept (emit_all_table S W events) (emit_table S W event s)
          (λ t k. emit_all_table-Safe events t k) (emit_table-Kept event s h)
