-- ===== src/Output/Delimited/Rectangle.antt =====
-- The header, and the records that reach the writer behind it, of the header's number of fields.
use mathlib.Core.Path.{subst}
use dsql_cli.Prelude.{
  ℕ, suc, ◌≡◌, refl, sym, ap, ◌∙◌, arith, Bool, true, false, not, ◌&&◌, Option, none, some, List,
  [], ◌∷◌, ◌++◌, append_assoc, map, Chars, length, All, ◌==◌, ==_iff, if◌then◌else◌,
}
use dsql_cli.Error.{ok, err}
use dsql_cli.App.Data.{ExecutionEvent, columns, row, command_complete, notice, error}
use dsql_cli.Output.{escape_terminal_text}
use dsql_cli.Output.Delimited.{
  Streams, Written, DelimitedSink, new_sink, Emitted, write, flushed, diagnostic, and_then,
  emit_columns, emit_row, emit_event, emit, error_message,
}

-- The records that the writer is given, with what each write came to, the last one first.
pub record Observes (S : Streams) (log : S.Writer → List (List Chars × Written)) : Type 0 where
  pub writing :
      (r : List Chars) (w : S.Writer)
      → log (S.write_record r w).0 ≡ (r, (S.write_record r w).1) ∷ log w
  pub flushing : (w : S.Writer) → log (S.flush w).0 ≡ log w

abbrev pub is_some : Option ℕ → Bool
is_some none = false
is_some (some n) = true

-- The header of the columns' names.
abbrev pub header_record : Bool → List Chars → List Chars
header_record escaping names =
    map (λ column. if escaping then escape_terminal_text column else column) names

-- The events hold the columns of these names.
abbrev pub HasColumns : List ExecutionEvent → List Chars → Type 0
HasColumns events names =
    (before : List ExecutionEvent) × (after : List ExecutionEvent) × (events
      ≡ before ++ (columns names ∷ after))

module _ (escaping : Bool) (Given : List Chars → Type 0) where
  -- The header first of all, and rows of its width.
  pub record WithHeader (n : ℕ) (records : List (List Chars × Written)) : Type 0 where
    pub names : List Chars
    pub given : Given names
    pub header_width : length names ≡ n
    pub outcome : Written
    pub rows : List (List Chars × Written)
    pub rows_width : All (λ r. length r.0 ≡ n) rows
    pub records_are : records ≡ rows ++ ((header_record escaping names, outcome) ∷ [])

  -- Nothing before the columns are known.
  abbrev pub Rectangular : Option ℕ → List (List Chars × Written) → Type 0
  Rectangular none records = records ≡ []
  Rectangular (some n) records = WithHeader n records

  nothing-before :
      (n : Option ℕ) (records : List (List Chars × Written))
      → is_some n ≡ false
      → Rectangular n records
      → records ≡ []
  nothing-before none records h r = r
  nothing-before (some n) records h r = absurd (ground arith)

length-map {ℓ κ} :
    {A : Type ℓ} {B : Type κ} (f : A → B) (xs : List A) → length (map f xs) ≡ length xs
length-map f [] = refl
length-map f (x ∷ xs) = ap suc (length-map f xs)

module _ (S : Streams) (log : S.Writer → List (List Chars × Written)) (o : Observes S log)
    (escaping : Bool) (Given : List Chars → Type 0) where
  pub record Invariant (s : DelimitedSink S) : Type 0 where
    pub seen : s.row_set_seen ≡ is_some s.column_count
    pub escapes : s.escape_data_controls ≡ escaping
    pub rectangular : Rectangular escaping Given s.column_count (log s.writer)

  first-WithHeader :
      (names : List Chars) (outcome : Written) (old new : List (List Chars × Written))
      → Given names
      → old ≡ []
      → new ≡ (header_record escaping names, outcome) ∷ old
      → WithHeader escaping Given (length names) new
  first-WithHeader names outcome old new g fresh e = record {
    names = names;
    given = g;
    header_width = refl;
    outcome = outcome;
    rows = [];
    rows_width = tt;
    records_are =
        e
        ∙ ap (λ (l : List (List Chars × Written)). (header_record escaping names, outcome) ∷ l)
            fresh;
  }

  wrote-WithHeader :
      (n : ℕ) (r : List Chars) (w : S.Writer)
      → length r ≡ n
      → WithHeader escaping Given n (log w)
      → WithHeader escaping Given n (log (S.write_record r w).0)
  wrote-WithHeader n r w width h = record {
    names = h.names;
    given = h.given;
    header_width = h.header_width;
    outcome = h.outcome;
    rows = (r, (S.write_record r w).1) ∷ h.rows;
    rows_width = (width, h.rows_width);
    records_are =
        o.writing r w
        ∙ ap (λ (l : List (List Chars × Written)). (r, (S.write_record r w).1) ∷ l) h.records_are;
  }

  -- A write to a sink that knows its columns.
  write-Invariant :
      (s : DelimitedSink S) (n : ℕ) (r : List Chars)
      → s.row_set_seen ≡ true
      → s.escape_data_controls ≡ escaping
      → s.column_count ≡ some n
      → WithHeader escaping Given n (log (S.write_record r s.writer).0)
      → Invariant (write S s r).0
  unfolding write
  write-Invariant s n r h e k w = record {
    seen = h ∙ sym (ap is_some k);
    escapes = e;
    rectangular = rw k w;
  }

  flushed-Invariant : (s : DelimitedSink S) → Invariant s → Invariant (flushed S s).0
  unfolding flushed
  flushed-Invariant s i = record {
    seen = i.seen;
    escapes = i.escapes;
    rectangular = rw (o.flushing s.writer) i.rectangular;
  }

  diagnostic-Invariant :
      (s : DelimitedSink S) (message : Chars) → Invariant s → Invariant (diagnostic S s message).0
  unfolding diagnostic
  diagnostic-Invariant s message i = record {
    seen = i.seen;
    escapes = i.escapes;
    rectangular = i.rectangular;
  }

  and_then-Invariant :
      (e : Emitted S) (next : DelimitedSink S → Emitted S)
      → Invariant e.0
      → ((t : DelimitedSink S) → Invariant t → Invariant (next t).0)
      → Invariant (and_then S e next).0
  and_then-Invariant (s, ok _) next i keep = keep s i
  and_then-Invariant (s, err e) next i keep = i

  if-Invariant :
      (b : Bool) (x y : Emitted S)
      → (b ≡ true → Invariant x.0)
      → (b ≡ false → Invariant y.0)
      → Invariant (if b then x else y).0
  if-Invariant true x y f g = f refl
  if-Invariant false x y f g = g refl

  columns-Invariant :
      (s : DelimitedSink S) (names : List Chars)
      → Given names
      → Invariant s
      → Invariant (emit_columns S s names).0
  unfolding emit_columns
  columns-Invariant s names g i =
      if-Invariant s.row_set_seen _ _ (λ again. i)
        (λ first.
          write-Invariant
            (record s {
              column_count = some (length names);
              row_set_seen = true;
              result_complete = false;
            })
            (length names) (header_record s.escape_data_controls names) refl i.escapes refl
            (rw i.escapes (
              first-WithHeader names (S.write_record (header_record escaping names) s.writer).1
                (log s.writer) (log (S.write_record (header_record escaping names) s.writer).0) g
                (nothing-before escaping Given s.column_count (log s.writer) (sym i.seen ∙ first)
                  i.rectangular)
                (o.writing (header_record escaping names) s.writer))))

  known :
      (n : ℕ) (c : Option ℕ) (records : List (List Chars × Written))
      → c ≡ some n
      → Rectangular escaping Given c records
      → WithHeader escaping Given n records
  known n c records e h = subst (λ x. Rectangular escaping Given x records) e h

  row-Invariant :
      (s : DelimitedSink S) (values : List (Option Chars)) (n : Option ℕ)
      → s.column_count ≡ n
      → Invariant s
      → Invariant (emit_row S s values n).0
  unfolding emit_row
  row-Invariant s values none h i = i
  row-Invariant s values (some n) h i =
      if-Invariant s.result_complete _ _ (λ complete. i)
        (λ running.
          if-Invariant (not (length values == n)) _ _ (λ other. i)
            (λ same. write-Invariant s n _ (i.seen ∙ ap is_some h) i.escapes h (
              wrote-WithHeader n _ s.writer
                (length-map _ values ∙ (==_iff (length values) n).0 (ground arith))
                (known n s.column_count (log s.writer) h i.rectangular))))

  event-Invariant :
      (s : DelimitedSink S) (event : ExecutionEvent)
      → ((names : List Chars) → event ≡ columns names → Given names)
      → Invariant s
      → Invariant (emit_event S s event).0
  unfolding emit_event
  event-Invariant s (columns names) g i = columns-Invariant s names (g names refl) i
  event-Invariant s (row values) g i = row-Invariant s values s.column_count refl i
  event-Invariant s (command_complete rows) g i =
      if-Invariant (s.row_set_seen && not s.result_complete) _ _
        (λ finishing.
          and_then-Invariant (flushed S s) _ (flushed-Invariant s i)
            (λ t k. record { seen = k.seen; escapes = k.escapes; rectangular = k.rectangular }))
        (λ nothing. i)
  event-Invariant s (notice message) g i = diagnostic-Invariant s _ i
  event-Invariant s (error sqlstate message) g i =
      and_then-Invariant (flushed S s) _ (flushed-Invariant s i) (λ t k.
        and_then-Invariant (diagnostic S t (error_message S sqlstate message)) _
          (diagnostic-Invariant t (error_message S sqlstate message) k)
          (λ u l. record { seen = l.seen; escapes = l.escapes; rectangular = l.rectangular }))

  emit-Invariant :
      (s : DelimitedSink S) (event : ExecutionEvent)
      → ((names : List Chars) → event ≡ columns names → Given names)
      → Invariant s
      → Invariant (emit S s event).0
  unfolding emit
  emit-Invariant s event g i =
      if-Invariant s.terminal _ _ (λ over. i) (λ running. event-Invariant s event g i)

-- The sink after a sequence of events, whatever their results.
abbrev pub emit_all : (S : Streams) → DelimitedSink S → List ExecutionEvent → DelimitedSink S
emit_all S s [] = s
emit_all S s (event ∷ events) = emit_all S (emit S s event).0 events

emit_all-Invariant :
    (S : Streams) (log : S.Writer → List (List Chars × Written)) (o : Observes S log)
    (escaping : Bool) (all before events : List ExecutionEvent) (s : DelimitedSink S)
    → all ≡ before ++ events
    → Invariant S log o escaping (HasColumns all) s
    → Invariant S log o escaping (HasColumns all) (emit_all S s events)
emit_all-Invariant S log o escaping all before [] s e i = i
emit_all-Invariant S log o escaping all before (event ∷ events) s e i =
    emit_all-Invariant S log o escaping all (before ++ (event ∷ [])) events (emit S s event).0
      (e ∙ sym (append_assoc before (event ∷ []) events))
      (emit-Invariant S log o escaping (HasColumns all) s event
        (λ names same.
          (before, events, e ∙ ap (λ (x : ExecutionEvent). before ++ (x ∷ events)) same))
        i)

-- Whatever events arrive, in whatever order and with whatever failures of the writer: the writer is
-- given no record before the sink knows its columns; then the first record that it is given is the
-- header, which holds the names of columns that the events give; and all the others are of the
-- header's width.
pub emit_all-Rectangular :
    (S : Streams) (log : S.Writer → List (List Chars × Written)) (o : Observes S log)
    (writer : S.Writer) (diagnostics : S.Diagnostics) (escaping : Bool)
    (events : List ExecutionEvent)
    → log writer ≡ []
    → Rectangular escaping
        (HasColumns events)
        (emit_all S (new_sink S writer diagnostics escaping) events).column_count
        (log (emit_all S (new_sink S writer diagnostics escaping) events).writer)
unfolding new_sink
emit_all-Rectangular S log o writer diagnostics escaping events fresh =
    (emit_all-Invariant S log o escaping events [] events (new_sink S writer diagnostics escaping)
      refl (record { seen = refl; escapes = refl; rectangular = fresh })).rectangular
