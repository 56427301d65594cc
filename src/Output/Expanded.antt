-- ===== src/Output/Expanded.antt =====
-- src/output/expanded.rs, `ExpandedExecutionSink`: every value on a line of its own, written in
-- bounded chunks. The writers and their failures are those of the table (src/output/table.rs has the
-- same types).
pub mod Chunked
use dsql_cli.Prelude.{
  ℕ, ◌+◌, ◌-◌, max, Bool, true, false, not, ◌&&◌, Option, none, some, List, [], ◌∷◌, ◌++◌, map,
  Chars, codes, decimal, byte_len, length, ltb, ◌==◌, if◌then◌else◌,
}
use dsql_cli.Error.{ApplicationError, runtime, Result, ok, err}
use dsql_cli.App.Data.{ExecutionEvent, columns, row, command_complete, notice, error}
use dsql_cli.Output.{escape_terminal_text, escape_character}
use dsql_cli.Output.Columns.{Widths, repeat}
use dsql_cli.Output.Table.{
  WriteTarget, output, diagnostics, WriteFailure, Writers, write_error, sqlstate_text,
}

pub record Labels : Type 0 where
  pub names : List Chars
  pub label_width : ℕ

abbrev pub invalid_expanded_event : ApplicationError
invalid_expanded_event = runtime (codes "invalid expanded execution event order")

abbrev pub chunk_bytes : ℕ
chunk_bytes = 4096

abbrev pub is_empty : Chars → Bool
is_empty [] = true
is_empty (c ∷ s) = false

-- `{column:<label_width$}`: the standard library pads by characters.
unfoldable pub padded_label : Chars → ℕ → Chars
padded_label column width = column ++ repeat b' ' (width - length column)

module _ (S : Writers) (W : Widths) where
  pub record ExpandedExecutionSink : Type 0 where
    pub world : S.World
    pub result : Option Labels
    pub rows : ℕ
    pub needs_separator : Bool
    pub terminal : Bool
    pub failed : Option WriteFailure

  abbrev pub Emitted : Type 0
  Emitted = ExpandedExecutionSink × Result (Unit {0})

  unfoldable pub new_expanded : S.World → ExpandedExecutionSink
  new_expanded w = record {
    world = w;
    result = none;
    rows = 0;
    needs_separator = false;
    terminal = false;
    failed = none;
  }

  abbrev pub written : WriteTarget → ExpandedExecutionSink → S.World × Option Bool → Emitted
  written target s (w, none) = (record s { world = w }, ok tt)
  written target s (w, some pipe) =
      let failure : WriteFailure = record { target = target; pipe_broken = pipe } in
      (record s { world = w; failed = some failure }, err (write_error failure))

  abbrev pub refuse_or : Option WriteFailure → Emitted → ExpandedExecutionSink → Emitted
  refuse_or none x s = x
  refuse_or (some failure) x s = (s, err (write_error failure))

  unfoldable pub write_expanded : WriteTarget → Chars → ExpandedExecutionSink → Emitted
  write_expanded target value s =
      refuse_or s.failed (written target s (S.write_all target value s.world)) s

  abbrev pub and_then : (ExpandedExecutionSink → Emitted) → Emitted → Emitted
  and_then f (s, ok done) = f s
  and_then f (s, err e) = (s, err e)

  abbrev pub write_if : Bool → Chars → ExpandedExecutionSink → Emitted
  write_if b value s = if b then write_expanded output value s else (s, ok tt)

  -- The loop of `write_escaped_output` and the write behind it.
  unfoldable pub write_chunks : Chars → Chars → ExpandedExecutionSink → Emitted
  unfolding write_expanded
  write_chunks chunk [] s = write_if (not (is_empty chunk)) chunk s
  write_chunks chunk (c ∷ value) s =
      let escaped = escape_character c in
      let full = ltb chunk_bytes (byte_len chunk + byte_len escaped) && not (is_empty chunk) in
      let rest = write_chunks (if full then escaped else chunk ++ escaped) value in
      and_then rest (write_if full chunk s)

  unfoldable pub write_escaped_output : Chars → ExpandedExecutionSink → Emitted
  unfolding write_chunks
  write_escaped_output value = write_chunks [] value

  -- `map`, `max` and `unwrap_or(0)`
  abbrev pub widest : List Chars → ℕ
  widest [] = 0
  widest (name ∷ names) = max (W.str_width name) (widest names)

  abbrev pub labelled : List Chars → ExpandedExecutionSink → Emitted
  labelled names s = (
    record s {
      result = some (record { names = names; label_width = widest names });
      rows = 0;
      needs_separator = true;
    },
    ok tt,
  )

  abbrev pub is_some {ℓ} : {A : Type ℓ} → Option A → Bool
  is_some none = false
  is_some (some a) = true

  unfoldable pub expand_columns : List Chars → ExpandedExecutionSink → Emitted
  unfolding write_expanded
  expand_columns names s =
      if is_some s.result
      then (s, err invalid_expanded_event)
      else and_then (labelled (map escape_terminal_text names))
          (write_if s.needs_separator (codes "\n") s)

  abbrev pub write_value : Option Chars → ExpandedExecutionSink → Emitted
  write_value none s = write_expanded output (codes "NULL") s
  write_value (some value) s = write_escaped_output value s

  unfoldable pub write_field : ℕ → Chars → Option Chars → ExpandedExecutionSink → Emitted
  unfolding write_expanded write_escaped_output padded_label
  write_field width name value s = and_then (write_expanded output (codes "\n")) (
      and_then (write_value value)
        (write_expanded output (padded_label name width ++ codes " | ") s))

  unfoldable pub write_fields :
      ℕ → List Chars → List (Option Chars) → ExpandedExecutionSink → Emitted
  unfolding write_field
  write_fields width (name ∷ names) (value ∷ values) s =
      and_then (write_fields width names values) (write_field width name value s)
  write_fields width _ _ s = (s, ok tt)

  abbrev pub restored : Labels → ExpandedExecutionSink → Emitted
  restored labels s = (record s { result = some labels }, ok tt)

  -- The labels are taken; a write that fails does not put them back.
  abbrev pub expand_fields : List (Option Chars) → Labels → ExpandedExecutionSink → Emitted
  expand_fields values labels s =
      let counted = record s { result = none; rows = s.rows + 1 } in
      if not (length values == length labels.names)
      then (s, err invalid_expanded_event)
      else and_then (restored labels) (
          and_then (write_fields labels.label_width labels.names values) (
            write_expanded output (codes "-[ RECORD " ++ (decimal (s.rows + 1) ++ codes " ]-\n"))
              counted))

  abbrev pub with_labels : Option Labels → (Labels → Emitted) → ExpandedExecutionSink → Emitted
  with_labels none f s = (s, err invalid_expanded_event)
  with_labels (some labels) f s = f labels

  unfoldable pub expand_row : List (Option Chars) → ExpandedExecutionSink → Emitted
  unfolding write_expanded write_fields
  expand_row values s = with_labels s.result (λ labels. expand_fields values labels s) s

  abbrev pub separated : ExpandedExecutionSink → Emitted
  separated s = (record s { needs_separator = true }, ok tt)

  abbrev pub noun : ℕ → Chars
  noun n = if n == 1 then codes "row" else codes "rows"

  abbrev pub expand_complete_with : Option Labels → ℕ → ExpandedExecutionSink → Emitted
  expand_complete_with none n s = and_then separated (
      and_then (write_expanded output (codes "(" ++ (decimal n ++ codes " rows affected)\n")))
        (write_if s.needs_separator (codes "\n") s))
  expand_complete_with (some labels) n s =
      if not (s.rows == n)
      then (s, err invalid_expanded_event)
      else write_expanded output
          (codes "(" ++ (decimal n ++ (codes " " ++ (noun n ++ codes ")\n"))))
          (record s { result = none })

  unfoldable pub expand_complete : ℕ → ExpandedExecutionSink → Emitted
  unfolding write_expanded
  expand_complete n s = expand_complete_with s.result n s

  unfoldable pub expanded_diagnostic : Chars → ExpandedExecutionSink → Emitted
  unfolding write_expanded
  expanded_diagnostic message s =
      and_then (write_expanded diagnostics (codes "\n")) (write_expanded diagnostics message s)

  abbrev pub end_with : ExpandedExecutionSink → Emitted
  end_with s = (record s { terminal = true }, ok tt)

  unfoldable pub expand : ExecutionEvent → ExpandedExecutionSink → Emitted
  unfolding expand_columns expand_row expand_complete expanded_diagnostic
  expand (columns names) s = expand_columns names s
  expand (row values) s = expand_row values s
  expand (command_complete n) s = expand_complete n s
  expand (notice text) s = expanded_diagnostic (codes "notice: " ++ escape_terminal_text text) s
  expand (error sqlstate text) s = and_then end_with (
      expanded_diagnostic
        (codes "error" ++ (sqlstate_text sqlstate ++ (codes ": " ++ escape_terminal_text text))) s)

  unfoldable pub emit_expanded : ExecutionEvent → ExpandedExecutionSink → Emitted
  unfolding expand
  emit_expanded event s =
      refuse_or s.failed (if s.terminal then (s, err invalid_expanded_event) else expand event s) s
