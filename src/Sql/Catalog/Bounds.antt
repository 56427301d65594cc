-- ===== src/Sql/Catalog/Bounds.antt =====
-- The memory that a catalog query takes, and what is dropped to keep it.
use dsql_cli.Prelude.{
  ℕ, ◌+◌, ◌≤◌, ◌≡◌, refl, sym, arith, Bool, true, false, Option, none, some, ◌>>=◌, List, [], ◌∷◌,
  map, Chars, length, byte_len, leb, all, if◌then◌else◌,
}
use dsql_cli.App.Data.{ExecutionEvent, columns, row, command_complete, notice, error}
use dsql_cli.Sql.Catalog.{
  CatalogSink, new_sink, row_bytes, unwrap_or_default, retain, emit, emit_all, metadata_bytes_limit,
  metadata_field_bytes_limit,
}

abbrev pub small : Chars → Bool
small field = leb (byte_len field) metadata_field_bytes_limit

abbrev pub bytes_of_row : List Chars → ℕ
bytes_of_row [] = 0
bytes_of_row (field ∷ fields) = byte_len field + bytes_of_row fields

abbrev pub bytes_of : List (List Chars) → ℕ
bytes_of [] = 0
bytes_of (r ∷ rs) = bytes_of_row r + bytes_of rs

-- What is kept is within the three limits, and it is counted right.
pub record Bounded (s : CatalogSink) : Type 0 where
  pub few_rows : length s.rows ≤ s.limit
  pub few_bytes : s.retained_bytes ≤ metadata_bytes_limit
  pub counted : s.retained_bytes ≡ bytes_of s.rows
  pub small_fields : all (λ r. all small r) s.rows ≡ true

some-injective : (a b : ℕ) → some a ≡ some b → a ≡ b
some-injective a b h = cc

-- A sum that is there has its last field within the limit.
checked_sum :
    (b : Bool) (rest : Option ℕ) (k n : ℕ)
    → (if b then (rest >>= λ total. some (k + total)) else none) ≡ some n
    → (b ≡ true) × ((t : ℕ) × (rest ≡ some t) × (n ≡ k + t))
checked_sum true (some t) k n h = (refl, (t, refl, sym (some-injective (k + t) n h)))
checked_sum true none k n h = absurd (grind arith)
checked_sum false rest k n h = absurd (grind arith)

row_bytes-some :
    (fields : List Chars) (n : ℕ)
    → row_bytes fields ≡ some n
    → (n ≡ bytes_of_row fields) × (all small fields ≡ true)
unfolding row_bytes
row_bytes-some [] n h = (sym (some-injective 0 n h), refl)
row_bytes-some (field ∷ fields) n h =
    let first = checked_sum (small field) (row_bytes fields) (byte_len field) n h in
    let rest = row_bytes-some fields first.1.0 first.1.1 in
    let sum = first.1.2 in (omega arith, rw (first.0, rest.1))

if-Bounded :
    (b : Bool) (x y : CatalogSink)
    → (b ≡ true → Bounded x)
    → (b ≡ false → Bounded y)
    → Bounded (if b then x else y)
if-Bounded true x y f g = f refl
if-Bounded false x y f g = g refl

truncated-Bounded : (s : CatalogSink) → Bounded s → Bounded (record s { truncated = true })
truncated-Bounded s b = record {
  few_rows = b.few_rows;
  few_bytes = b.few_bytes;
  counted = b.counted;
  small_fields = b.small_fields;
}

retain-Bounded :
    (s : CatalogSink) (fields : List Chars) (o : Option ℕ)
    → row_bytes fields ≡ o
    → leb s.limit (length s.rows) ≡ false
    → Bounded s
    → Bounded (retain s fields o)
retain-Bounded s fields none h free b = truncated-Bounded s b
retain-Bounded s fields (some n) h free b =
    if-Bounded (leb (s.retained_bytes + n) metadata_bytes_limit) _ _
      (λ fits.
        let kept = row_bytes-some fields n h in
        record {
          few_rows = ground arith;
          few_bytes = ground arith;
          counted = (let c = b.counted in omega arith);
          small_fields = rw (kept.1, b.small_fields);
        })
      (λ full. truncated-Bounded s b)

emit-Bounded : (s : CatalogSink) (event : ExecutionEvent) → Bounded s → Bounded (emit s event)
unfolding emit
emit-Bounded s (row values) b =
    if-Bounded (leb s.limit (length s.rows)) _ _ (λ full. truncated-Bounded s b)
      (λ free.
        retain-Bounded s (map unwrap_or_default values) (row_bytes (map unwrap_or_default values))
          refl free b)
emit-Bounded s (columns names) b = b
emit-Bounded s (command_complete rows) b = b
emit-Bounded s (notice message) b = b
emit-Bounded s (error sqlstate message) b = b

emit_all-keeps :
    (s : CatalogSink) (events : List ExecutionEvent) → Bounded s → Bounded (emit_all s events)
emit_all-keeps s [] b = b
emit_all-keeps s (event ∷ events) b = emit_all-keeps (emit s event) events (emit-Bounded s event b)

-- Whatever an adapter produces, a catalog query keeps at most the limit of rows and a mebibyte of
-- text, counts that text right, and keeps no field of more than a kibibyte.
pub emit_all-Bounded :
    (limit : ℕ) (events : List ExecutionEvent) → Bounded (emit_all (new_sink limit) events)
unfolding new_sink
emit_all-Bounded limit events = emit_all-keeps (new_sink limit) events (record {
  few_rows = omega arith;
  few_bytes = omega arith;
  counted = refl;
  small_fields = refl;
})
