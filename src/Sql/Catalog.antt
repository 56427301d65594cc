-- ===== src/Sql/Catalog.antt =====
-- src/sql/metadata.rs: what a catalog query may leave in memory, the snapshot built of it, and the
-- patterns of the shell's metadata commands. A text is the list of its characters.
pub mod Bounds
pub mod Account
pub mod Pattern
use dsql_cli.Prelude.{
  ℕ, ◌+◌, ◌*◌, Bool, true, false, not, ◌||◌, ◌&&◌, Option, none, some, ◌>>=◌, List, [], ◌∷◌, ◌++◌,
  map, Chars, codes, length, rev_onto, byte_len, get_elem?, leb, ◌==◌, text_eq, if◌then◌else◌,
}
use dsql_cli.App.Data.{
  ExecutionEvent, row, RelationName, ColumnName, DatabaseRole, admin, custom, MetadataSnapshot,
}

abbrev pub schema_limit : ℕ
schema_limit = 256

abbrev pub relation_limit : ℕ
relation_limit = 2048

abbrev pub column_limit : ℕ
column_limit = 8192

abbrev pub role_limit : ℕ
role_limit = 256

abbrev pub metadata_bytes_limit : ℕ
metadata_bytes_limit = 1024 * 1024

abbrev pub metadata_field_bytes_limit : ℕ
metadata_field_bytes_limit = 1024

-- `rows` holds the last row first.
pub record CatalogSink : Type 0 where
  pub rows : List (List Chars)
  pub limit : ℕ
  pub retained_bytes : ℕ
  pub truncated : Bool

unfoldable pub new_sink : ℕ → CatalogSink
new_sink limit = record { rows = []; limit = limit; retained_bytes = 0; truncated = false }

abbrev pub unwrap_or_default : Option Chars → Chars
unwrap_or_default none = []
unwrap_or_default (some value) = value

-- The fold over the fields: none where a field is too long. A `usize` holds every sum of the
-- lengths of texts in memory.
unfoldable pub row_bytes : List Chars → Option ℕ
row_bytes [] = some 0
row_bytes (value ∷ values) =
    let rest = row_bytes values in
    if leb (byte_len value) metadata_field_bytes_limit
    then (rest >>= λ total. some (byte_len value + total))
    else none

abbrev pub retain : CatalogSink → List Chars → Option ℕ → CatalogSink
retain s fields none = record s { truncated = true }
retain s fields (some bytes) =
    if leb (s.retained_bytes + bytes) metadata_bytes_limit
    then record s { retained_bytes = s.retained_bytes + bytes; rows = fields ∷ s.rows }
    else record s { truncated = true }

-- `emit`, which always succeeds.
unfoldable pub emit : CatalogSink → ExecutionEvent → CatalogSink
unfolding row_bytes
emit s (row values) =
    if leb s.limit (length s.rows)
    then record s { truncated = true }
    else retain s (map unwrap_or_default values) (row_bytes (map unwrap_or_default values))
emit s _ = s

-- What became of a query: its result in time, or a timeout after which the cancelled request
-- completed or did not.
pub data Load : Type 0 where
  finished : Load
  refused : Load
  timed_out : Bool → Load

abbrev pub stale_load : Load → Bool
stale_load finished = false
stale_load _ = true

-- The second component of `(stale, uncertain)`: the session is then asked to reconnect.
abbrev pub uncertain_load : Load → Bool
uncertain_load (timed_out completed) = not completed
uncertain_load _ = false

-- The events that reach the sink before the query ends.
abbrev pub emit_all : CatalogSink → List ExecutionEvent → CatalogSink
emit_all s [] = s
emit_all s (event ∷ events) = emit_all (emit s event) events

-- The rows, whether they are stale, and whether the session is asked to reconnect.
pub record Loaded : Type 0 where
  pub rows : List (List Chars)
  pub stale : Bool
  pub reconnect : Bool

-- `expired` says that no time is left of the deadline.
unfoldable pub load_rows : Bool → ℕ → List ExecutionEvent → Load → Loaded
unfolding emit new_sink
load_rows expired limit events load =
    let s = emit_all (new_sink limit) events in
    if expired then record { rows = []; stale = true; reconnect = false } else record {
      rows = rev_onto s.rows [];
      stale = stale_load load || s.truncated;
      reconnect = uncertain_load load;
    }

-- `filter_map`
abbrev pub filter_map {ℓ κ} : {A : Type ℓ} {B : Type κ} → (A → Option B) → List A → List B
filter_map f [] = []
filter_map f (x ∷ xs) = let rest = filter_map f xs in elim (f x) [ none ↦ rest | some y ↦ y ∷ rest ]

abbrev pub relation_of : List Chars → Option RelationName
relation_of fields = get_elem? fields 0 >>= λ schema.
    get_elem? fields 1 >>= λ relation. some (record { schema = schema; relation = relation })

abbrev pub column_of : List Chars → Option ColumnName
column_of fields = get_elem? fields 0 >>= λ schema. get_elem? fields 1 >>= λ relation.
    get_elem? fields 2 >>= λ column.
    some (record { schema = schema; relation = relation; column = column })

abbrev pub role_of : List Chars → Option DatabaseRole
role_of fields = get_elem? fields 0 >>= λ name.
    some (if text_eq name (codes "admin") then admin else custom name)

unfoldable pub snapshot_of : Loaded → Loaded → Loaded → Loaded → ℕ → MetadataSnapshot
snapshot_of schemas relations columns roles now = record {
  schemas = filter_map (λ fields. get_elem? fields 0) schemas.rows;
  relations = filter_map relation_of relations.rows;
  columns = filter_map column_of columns.rows;
  roles = filter_map role_of roles.rows;
  loaded_at = some now;
  stale = schemas.stale || relations.stale || columns.stale || roles.stale;
}

unfoldable pub relation_pattern : Chars → Chars
relation_pattern [] = []
relation_pattern (c ∷ s) =
    let rest = relation_pattern s in
    if c == b'*'
    then b'%' ∷ rest
    else if c == b'%' || (c == b'_' || c == b'\\')
    then b'\\' ∷ c ∷ rest
    else c ∷ rest
