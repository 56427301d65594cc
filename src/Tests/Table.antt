-- ===== src/Tests/Table.antt =====
-- src/output/table.rs and expanded.rs: a table, an expanded result, and the theorems at them.
use dsql_cli.Prelude.{
  ◌+◌, ◌-◌, ◌*◌, ◌≤◌, max, ◌≡◌, refl, arith, none, some, List, [], ◌∷◌, ◌++◌, Chars, codes, length,
  leb, ltb, if◌then◌else◌,
}
use dsql_cli.Prelude.Decimal
use dsql_cli.App.Data.{ExecutionEvent, columns, row, command_complete}
use dsql_cli.Output.Columns
use dsql_cli.Output.Columns.{Widths, column_widths, escape_terminal_text_to_width}
use dsql_cli.Output.Columns.Sum.{sum, column_widths-sum}
use dsql_cli.Output.Columns.Fit.{
  PlainWidths, chars_width, escape_terminal_text_to_width-chars_width,
}
use dsql_cli.Output.Table.{Writers, new_table, emit_all_table}
use dsql_cli.Output.Expanded
use dsql_cli.Output.Expanded.{new_expanded, write_escaped_output, emit_expanded}
use dsql_cli.Output.Expanded.Chunked.{LogsWrites, WroteChunks, write_escaped_output-WroteChunks}
use dsql_cli.Output.{escape_terminal_text}
use dsql_cli.Output.Table.Safe.{TableText, Observes, emit_all_table-Safe}

-- Ideographs of the common block take two columns.
abbrev narrow_or_wide : Widths
narrow_or_wide = record {
  char_width = λ c. if ltb c 32 then none else if leb 19968 c then some 2 else some 1;
  str_width = λ s. length s;
}

narrow_or_wide-PlainWidths : PlainWidths narrow_or_wide
narrow_or_wide-PlainWidths = record { of_char = λ c h. ground arith; of_text = λ s h. refl }

-- One log for both streams.
abbrev log : Writers
log = record { World = Chars; write_all = λ t v w. (w ++ v, none) }

-- The texts that were written, the last one first.
abbrev stack : Writers
stack = record { World = List Chars; write_all = λ t v w. (v ∷ w, none) }

abbrev AllTexts : List Chars → Type 0
AllTexts [] = Unit
AllTexts (v ∷ w) = TableText v × AllTexts w

stack-Observes : Observes stack narrow_or_wide AllTexts
stack-Observes = record { writing = λ t v w h k. (h, k) }

abbrev events : List ExecutionEvent
events =
    columns (codes "id" ∷ codes "name" ∷ [])
    ∷ row (some (codes "1") ∷ some (27 ∷ 20013 ∷ []) ∷ [])
    ∷ command_complete 1
    ∷ []

draws_table :
    (emit_all_table log narrow_or_wide events (new_table log narrow_or_wide [] 13)).0.world
    ≡ codes "id   |name   \n-----+-------\n1    |...    \n(1 rows)\n"
unfolding Columns.column_widths Columns.table_line Columns.separator_line Columns.truncate_to_width
    emit_all_table Decimal.decimal Columns.escape_terminal_text_to_width new_table
draws_table = refl

column_widths-sum_example :
    (length (column_widths narrow_or_wide (codes "id" ∷ codes "name" ∷ []) 20) ≡ 2)
    × (sum (column_widths narrow_or_wide (codes "id" ∷ codes "name" ∷ []) 20) + (2 - 1)
        ≡ max 20 (2 * 2 - 1))
column_widths-sum_example =
    column_widths-sum narrow_or_wide (codes "id" ∷ codes "name" ∷ []) 20 (omega arith)

escape_terminal_text_to_width-chars_width_example :
    chars_width narrow_or_wide (escape_terminal_text_to_width narrow_or_wide (27 ∷ 20013 ∷ []) 5)
    ≤ 5
escape_terminal_text_to_width-chars_width_example =
    escape_terminal_text_to_width-chars_width narrow_or_wide narrow_or_wide-PlainWidths
      (27 ∷ 20013 ∷ []) 5

emit_all_table-Safe_example :
    AllTexts
      (emit_all_table stack narrow_or_wide events (new_table stack narrow_or_wide [] 13)).0.world
unfolding new_table
emit_all_table-Safe_example =
    emit_all_table-Safe stack narrow_or_wide AllTexts stack-Observes events
      (new_table stack narrow_or_wide [] 13) tt

-- One entry for each write.
abbrev pieces : Writers
pieces = record { World = List Chars; write_all = λ t v w. (w ++ (v ∷ []), none) }

pieces-LogsWrites : LogsWrites pieces narrow_or_wide (λ w. w)
pieces-LogsWrites = record { succeeding = λ v w. refl; logging = λ v w. refl }

write_escaped_output-WroteChunks_example :
    WroteChunks pieces narrow_or_wide
      (λ w. w)
      (escape_terminal_text (10 ∷ 97 ∷ []))
      (new_expanded pieces narrow_or_wide [])
      (write_escaped_output pieces narrow_or_wide
        (10 ∷ 97 ∷ [])
        (new_expanded pieces narrow_or_wide []))
unfolding new_expanded
write_escaped_output-WroteChunks_example =
    write_escaped_output-WroteChunks pieces narrow_or_wide (λ w. w) pieces-LogsWrites (10 ∷ 97 ∷ [])
      (new_expanded pieces narrow_or_wide []) refl

-- Every value stands behind its label, on a line of its own.
expands_row :
    (emit_expanded log narrow_or_wide
      (row (some (codes "1") ∷ some (codes "2") ∷ []))
      (emit_expanded log narrow_or_wide
        (columns (codes "a" ∷ codes "bcd" ∷ []))
        (new_expanded log narrow_or_wide [])).0).0.world
    ≡ codes "-[ RECORD 1 ]-\na   | 1\nbcd | 2\n"
unfolding emit_expanded Expanded.padded_label Expanded.write_escaped_output new_expanded
    escape_terminal_text Decimal.decimal
expands_row = refl
