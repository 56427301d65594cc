-- ===== src/Tests/Output.antt =====
-- src/output: cells and sinks over a writer that keeps its records.
use dsql_cli.Prelude.{◌≡◌, refl, true, false, none, some, List, [], ◌∷◌, Chars, codes}
use dsql_cli.App.Data.{ExecutionEvent, columns, row, command_complete}
use dsql_cli.Output.{escape_terminal_text}
use dsql_cli.Output.Delimited.{Streams, Written, done, new_sink, encode_cell, emit}
use dsql_cli.Output.Delimited.Cell.{decode_cell, decode_cell-encode_cell}
use dsql_cli.Output.Delimited.Rectangle.{
  Observes, HasColumns, Rectangular, emit_all, emit_all-Rectangular,
}

abbrev keeping : Streams
keeping = record {
  Writer = List (List Chars × Written);
  Diagnostics = List Chars;
  write_record = λ r w. ((r, done) ∷ w, done);
  flush = λ w. (w, done);
  write_line = λ line d. (line ∷ d, done);
}

abbrev records : List (List Chars × Written) → List (List Chars × Written)
records w = w

keeping-Observes : Observes keeping records
keeping-Observes = record { writing = λ r w. refl; flushing = λ w. refl }

abbrev events : List ExecutionEvent
events =
    columns (codes "id" ∷ codes "name" ∷ [])
    ∷ row (some (codes "1") ∷ none ∷ [])
    ∷ row (some (codes "2") ∷ [])
    ∷ row (some (codes "3") ∷ some (codes "\\N") ∷ [])
    ∷ command_complete 2
    ∷ []

-- The row that is too short is left out, null is `\N`, and the text `\N` is doubled.
writes :
    (emit_all keeping (new_sink keeping [] [] false) events).writer
    ≡ (codes "3" ∷ codes "\\\\N" ∷ [], done)
      ∷ (codes "1" ∷ codes "\\N" ∷ [], done)
      ∷ (codes "id" ∷ codes "name" ∷ [], done)
      ∷ []
unfolding emit new_sink encode_cell
writes = refl

emit_all-Rectangular_example :
    Rectangular false
      (HasColumns events)
      (emit_all keeping (new_sink keeping [] [] false) events).column_count
      (emit_all keeping (new_sink keeping [] [] false) events).writer
emit_all-Rectangular_example =
    emit_all-Rectangular keeping records keeping-Observes [] [] false events refl

decode_cell-encode_cell_example :
    decode_cell (encode_cell (some (codes "\\N")) true) ≡ some (escape_terminal_text (codes "\\N"))
decode_cell-encode_cell_example = decode_cell-encode_cell (some (codes "\\N")) true
