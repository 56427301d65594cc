-- ===== src/Output/Jsonl/Protocol.antt =====
-- What a consumer of the lines may rely on.
use dsql_cli.Prelude.{
  ℕ, ◌+◌, ◌%◌, ◌≡◌, refl, ap, ◌∙◌, arith, Bool, true, false, not, Option, none, some, List, [], ◌∷◌,
  Chars, length, ◌==◌, if◌then◌else◌,
}
use dsql_cli.Error.{ok, err}
use dsql_cli.App.Data.{ExecutionEvent, columns, row, command_complete, notice, error}
use dsql_cli.App.Session.{u64_mod}
use dsql_cli.Output.Jsonl.{
  Frame, columns_frame, row_frame, complete_frame, command_frame, notice_frame, error_frame,
  ActiveResult, FrameWritten, written, not_written, FrameWriter, JsonlExecutionSink, new_jsonl,
  FrameEmitted, after_frame, refuse_event, write_frame, emit_columns_frame, emit_row_frame,
  emit_complete_frame, emit_frame, emit_json,
}
use dsql_cli.Output.Jsonl.Consumer.{
  Consumer, consume, consumed, consume-columns, consume-row, consume_complete, consume-command,
  read_frame-notice, read_frame-error, consume-open, consumed-next,
}

-- The frames that an observer sees: a write that succeeds adds its frame.
pub record ObservesFrames (F : FrameWriter) (log : F.Writer → List Frame) : Type 0 where
  pub putting : (f : Frame) (w : F.Writer) → (F.put f w).1 ≡ written → log (F.put f w).0 ≡ f ∷ log w

module _ (F : FrameWriter) (log : F.Writer → List Frame) (o : ObservesFrames F log) where
  abbrev pub consumer_of : JsonlExecutionSink F → Consumer
  consumer_of s = record { next = s.next_result; open_result = s.active_result; over = s.failed }

  -- The lines so far are a valid stream, at the sink's state.
  abbrev pub Valid : JsonlExecutionSink F → Type 0
  Valid s = consumed (log s.writer) ≡ some (consumer_of s)

  after_frame-Valid :
      (s : JsonlExecutionSink F) (f : Frame) (next : JsonlExecutionSink F → JsonlExecutionSink F)
      (x : F.Writer × FrameWritten)
      → (x.1 ≡ written → log x.0 ≡ f ∷ log s.writer)
      → ((w : F.Writer)
          → ((next (record s { writer = w })).writer ≡ w)
            × (consume (consumer_of s) f ≡ some (consumer_of (next (record s { writer = w })))))
      → Valid s
      → (after_frame F s next x).1 ≡ ok tt
      → Valid (after_frame F s next x).0
  after_frame-Valid s f next (w, not_written b) logged step valid h = absurd (grind arith)
  after_frame-Valid s f next (w, written) logged step valid h =
      ap (λ v. consumed (log v)) (step w).0
      ∙ ap consumed (logged refl)
      ∙ consumed-next f (log s.writer) (consumer_of s) _ valid (step w).1

  write_frame-Valid :
      (s : JsonlExecutionSink F) (f : Frame) (next : JsonlExecutionSink F → JsonlExecutionSink F)
      → ((w : F.Writer)
          → ((next (record s { writer = w })).writer ≡ w)
            × (consume (consumer_of s) f ≡ some (consumer_of (next (record s { writer = w })))))
      → Valid s
      → (write_frame F s f next).1 ≡ ok tt
      → Valid (write_frame F s f next).0
  unfolding write_frame
  write_frame-Valid s f next step valid h =
      after_frame-Valid s f next (F.put f s.writer) (o.putting f s.writer) step valid h

  -- An event that is refused has an error.
  unless-refused :
      (s : JsonlExecutionSink F) (b : Bool) (y : FrameEmitted F)
      → (b ≡ false → y.1 ≡ ok tt → Valid y.0)
      → (if b then refuse_event F s else y).1 ≡ ok tt
      → Valid (if b then refuse_event F s else y).0
  unless-refused s true y f h = absurd (grind arith)
  unless-refused s false y f h = f refl h

  columns-Valid :
      (s : JsonlExecutionSink F) (names : List Chars) (a : Option ActiveResult)
      → s.failed ≡ false
      → s.active_result ≡ a
      → Valid s
      → (emit_columns_frame F s names a).1 ≡ ok tt
      → Valid (emit_columns_frame F s names a).0
  unfolding emit_columns_frame
  columns-Valid s names (some a) running k valid h = absurd (grind arith)
  columns-Valid s names none running k valid h =
      write_frame-Valid s (columns_frame s.next_result names)
        (λ t. record t {
          next_result = (t.next_result + 1) % u64_mod;
          active_result = some (record { index = s.next_result; width = length names; rows = 0 });
        })
        (λ w. (refl, consume-columns (consumer_of s) names running k)) valid h

  row-Valid :
      (s : JsonlExecutionSink F) (values : List (Option Chars)) (a : Option ActiveResult)
      → s.failed ≡ false
      → s.active_result ≡ a
      → Valid s
      → (emit_row_frame F s values a).1 ≡ ok tt
      → Valid (emit_row_frame F s values a).0
  unfolding emit_row_frame
  row-Valid s values none running k valid h = absurd (grind arith)
  row-Valid s values (some a) running k valid h =
      unless-refused s (not (length values == a.width)) _
        (λ same.
          write_frame-Valid s (row_frame a.index values)
            (λ t. record t { active_result = some (record a { rows = (a.rows + 1) % u64_mod }) })
            (λ w. (refl, consume-row (consumer_of s) a values running k (ground arith))) valid)
        h

  complete-Valid :
      (s : JsonlExecutionSink F) (n : ℕ) (a : Option ActiveResult)
      → s.failed ≡ false
      → s.active_result ≡ a
      → Valid s
      → (emit_complete_frame F s n a).1 ≡ ok tt
      → Valid (emit_complete_frame F s n a).0
  unfolding emit_complete_frame
  complete-Valid s n none running k valid =
      write_frame-Valid s (command_frame n) (λ t. t)
        (λ w. (refl, consume-command (consumer_of s) n running k)) valid
  complete-Valid s n (some a) running k valid = unless-refused s (not (a.rows == n)) _ (λ same.
      write_frame-Valid s (complete_frame a.index n) (λ t. record t { active_result = none })
        (λ w. (refl, consume_complete (consumer_of s) a n running k (ground arith))) valid)

  frame-Valid :
      (s : JsonlExecutionSink F) (event : ExecutionEvent)
      → s.failed ≡ false
      → Valid s
      → (emit_frame F s event).1 ≡ ok tt
      → Valid (emit_frame F s event).0
  unfolding emit_frame
  frame-Valid s (columns names) running valid =
      columns-Valid s names s.active_result running refl valid
  frame-Valid s (row values) running valid = row-Valid s values s.active_result running refl valid
  frame-Valid s (command_complete n) running valid =
      complete-Valid s n s.active_result running refl valid
  frame-Valid s (notice message) running valid =
      write_frame-Valid s (notice_frame message) (λ t. t)
        (λ w. (
          refl,
          consume-open (consumer_of s) (notice_frame message) running
              ∙ read_frame-notice (consumer_of s) s.active_result message,
        ))
        valid
  frame-Valid s (error sqlstate message) running valid =
      write_frame-Valid s (error_frame sqlstate message) (λ t. record t { failed = true })
        (λ w. (
          refl,
          consume-open (consumer_of s) (error_frame sqlstate message) running
              ∙ read_frame-error (consumer_of s) s.active_result sqlstate message,
        ))
        valid

  emit_json-Valid :
      (s : JsonlExecutionSink F) (event : ExecutionEvent)
      → Valid s
      → (emit_json F s event).1 ≡ ok tt
      → Valid (emit_json F s event).0
  unfolding emit_json
  emit_json-Valid s event valid =
      unless-refused s s.failed _ (λ running. frame-Valid s event running valid)

-- The events in order; the first error ends them, as it ends the execution.
abbrev pub emit_events : (F : FrameWriter) → FrameEmitted F → List ExecutionEvent → FrameEmitted F
emit_events F e [] = e
emit_events F (s, ok _) (event ∷ events) = emit_events F (emit_json F s event) events
emit_events F (s, err e) (event ∷ events) = (s, err e)

emit_events-Valid :
    (F : FrameWriter) (log : F.Writer → List Frame) (o : ObservesFrames F log) (e : FrameEmitted F)
    (events : List ExecutionEvent)
    → (e.1 ≡ ok tt → Valid F log o e.0)
    → (emit_events F e events).1 ≡ ok tt
    → Valid F log o (emit_events F e events).0
emit_events-Valid F log o e [] valid h = valid h
emit_events-Valid F log o (s, ok tt) (event ∷ events) valid h =
    emit_events-Valid F log o (emit_json F s event) events
      (emit_json-Valid F log o s event (valid refl)) h
emit_events-Valid F log o (s, err e) (event ∷ events) valid h = absurd (grind arith)

-- Where all events are written, the lines are a stream that a consumer accepts: results have
-- consecutive numbers and do not overlap, each row is of the open result and as wide as its
-- columns, each completion has the number of the rows before it, and nothing follows an error.
pub emit_events-Valid_new :
    (F : FrameWriter) (log : F.Writer → List Frame) (o : ObservesFrames F log) (writer : F.Writer)
    (events : List ExecutionEvent)
    → log writer ≡ []
    → (emit_events F (new_jsonl F writer, ok tt) events).1 ≡ ok tt
    → Valid F log o (emit_events F (new_jsonl F writer, ok tt) events).0
unfolding new_jsonl consumed
emit_events-Valid_new F log o writer events fresh h =
    emit_events-Valid F log o (new_jsonl F writer, ok tt) events (λ started. ap consumed fresh) h
