-- ===== src/Tests/Jsonl.antt =====
-- src/output/jsonl.rs: a result and a command, over a writer that keeps its frames.
use dsql_cli.Prelude.{◌≡◌, refl, none, some, List, [], ◌∷◌, codes}
use dsql_cli.Error.{ok}
use dsql_cli.App.Data.{ExecutionEvent, columns, row, command_complete}
use dsql_cli.Output.Jsonl.{
  Frame, columns_frame, row_frame, complete_frame, command_frame, FrameWriter, written, new_jsonl,
  emit_json,
}
use dsql_cli.Output.Jsonl.Protocol.{ObservesFrames, Valid, emit_events, emit_events-Valid_new}

abbrev keeping : FrameWriter
keeping = record { Writer = List Frame; put = λ f w. (f ∷ w, written) }

abbrev frames : List Frame → List Frame
frames w = w

keeping-ObservesFrames : ObservesFrames keeping frames
keeping-ObservesFrames = record { putting = λ f w h. refl }

abbrev events : List ExecutionEvent
events =
    columns (codes "id" ∷ [])
    ∷ row (some (codes "1") ∷ [])
    ∷ row (none ∷ [])
    ∷ command_complete 2
    ∷ command_complete 0
    ∷ []

emits : (emit_events keeping (new_jsonl keeping [], ok tt) events).1 ≡ ok tt
unfolding emit_json new_jsonl
emits = refl

frames_written :
    (emit_events keeping (new_jsonl keeping [], ok tt) events).0.writer
    ≡ command_frame 0
      ∷ complete_frame 0 2
      ∷ row_frame 0 (none ∷ [])
      ∷ row_frame 0 (some (codes "1") ∷ [])
      ∷ columns_frame 0 (codes "id" ∷ [])
      ∷ []
unfolding emit_json new_jsonl
frames_written = refl

emit_events-Valid_new_example :
    Valid keeping frames keeping-ObservesFrames
      (emit_events keeping (new_jsonl keeping [], ok tt) events).0
emit_events-Valid_new_example =
    emit_events-Valid_new keeping frames keeping-ObservesFrames [] events refl emits
