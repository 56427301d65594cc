-- ===== src/Sql/Catalog/Account.antt =====
-- A catalog query drops nothing unsaid.
use dsql_cli.Prelude.{
  ℕ, ◌+◌, ◌≡◌, refl, Bool, true, false, ◌⊎◌, inl, inr, Option, none, some, List, [], ◌∷◌, map,
  Chars, length, leb, rev_onto, if◌then◌else◌,
}
use dsql_cli.App.Data.{ExecutionEvent, columns, row, command_complete, notice, error}
use dsql_cli.Sql.Catalog.{
  CatalogSink, new_sink, row_bytes, unwrap_or_default, retain, emit, emit_all, metadata_bytes_limit,
}

-- The rows among the events, null as the empty text.
abbrev pub rows_of : List ExecutionEvent → List (List Chars)
rows_of [] = []
rows_of (row values ∷ events) = map unwrap_or_default values ∷ rows_of events
rows_of (_ ∷ events) = rows_of events

-- The sink says that it dropped rows, or it has the rows, in their order.
abbrev pub Accounted : CatalogSink → List (List Chars) → Type 0
Accounted s all_rows = (s.truncated ≡ true) ⊎ (rev_onto s.rows [] ≡ all_rows)

-- What one row does: it is kept, or the flag is set.
if-kept :
    (b : Bool) (x y : CatalogSink) (fields : List Chars) (rows : List (List Chars))
    → (x.truncated ≡ true) ⊎ (x.rows ≡ fields ∷ rows)
    → (y.truncated ≡ true) ⊎ (y.rows ≡ fields ∷ rows)
    → ((if b then x else y).truncated ≡ true) ⊎ ((if b then x else y).rows ≡ fields ∷ rows)
if-kept true x y fields rows f g = f
if-kept false x y fields rows f g = g

retain-kept :
    (s : CatalogSink) (fields : List Chars) (o : Option ℕ)
    → ((retain s fields o).truncated ≡ true) ⊎ ((retain s fields o).rows ≡ fields ∷ s.rows)
retain-kept s fields none = inl refl
retain-kept s fields (some n) =
    if-kept (leb (s.retained_bytes + n) metadata_bytes_limit) _ _ fields s.rows (inr refl)
      (inl refl)

emit-kept :
    (s : CatalogSink) (values : List (Option Chars))
    → ((emit s (row values)).truncated ≡ true)
      ⊎ ((emit s (row values)).rows ≡ map unwrap_or_default values ∷ s.rows)
unfolding emit
emit-kept s values =
    if-kept (leb s.limit (length s.rows)) _ _ (map unwrap_or_default values) s.rows (inl refl)
      (retain-kept s (map unwrap_or_default values) (row_bytes (map unwrap_or_default values)))

if-truncated :
    (b : Bool) (x y : CatalogSink)
    → x.truncated ≡ true
    → y.truncated ≡ true
    → (if b then x else y).truncated ≡ true
if-truncated true x y f g = f
if-truncated false x y f g = g

retain-truncated :
    (s : CatalogSink) (fields : List Chars) (o : Option ℕ)
    → s.truncated ≡ true
    → (retain s fields o).truncated ≡ true
retain-truncated s fields none h = refl
retain-truncated s fields (some n) h =
    if-truncated (leb (s.retained_bytes + n) metadata_bytes_limit) _ _ h refl

-- The flag stays.
emit-truncated :
    (s : CatalogSink) (event : ExecutionEvent)
    → s.truncated ≡ true
    → (emit s event).truncated ≡ true
unfolding emit
emit-truncated s (row values) h =
    if-truncated (leb s.limit (length s.rows)) _ _ refl (
      retain-truncated s (map unwrap_or_default values) (row_bytes (map unwrap_or_default values))
        h)
emit-truncated s (columns names) h = h
emit-truncated s (command_complete rows) h = h
emit-truncated s (notice message) h = h
emit-truncated s (error sqlstate message) h = h

emit_all-truncated :
    (s : CatalogSink) (events : List ExecutionEvent)
    → s.truncated ≡ true
    → (emit_all s events).truncated ≡ true
emit_all-truncated s [] h = h
emit_all-truncated s (event ∷ events) h =
    emit_all-truncated (emit s event) events (emit-truncated s event h)

emit_all-rows :
    (s : CatalogSink) (events : List ExecutionEvent)
    → Accounted (emit_all s events) (rev_onto s.rows (rows_of events))
unfolding emit
emit_all-rows s [] = inr refl
emit_all-rows s (row values ∷ events) = elim (emit-kept s values) [
  | inl dropped ↦ inl (emit_all-truncated (emit s (row values)) events dropped)
  | inr kept ↦ rw kept at (emit_all-rows (emit s (row values)) events)
]
emit_all-rows s (columns names ∷ events) = emit_all-rows s events
emit_all-rows s (command_complete rows ∷ events) = emit_all-rows s events
emit_all-rows s (notice message ∷ events) = emit_all-rows s events
emit_all-rows s (error sqlstate message ∷ events) = emit_all-rows s events

-- A catalog query has all the rows that arrived, in their order, or says that it was truncated.
pub emit_all-Accounted :
    (limit : ℕ) (events : List ExecutionEvent)
    → Accounted (emit_all (new_sink limit) events) (rows_of events)
unfolding new_sink
emit_all-Accounted limit events = emit_all-rows (new_sink limit) events
