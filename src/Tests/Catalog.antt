-- ===== src/Tests/Catalog.antt =====
-- src/sql/metadata.rs: sinks and patterns of its unit tests, and the theorems at them.
use dsql_cli.Prelude.{◌≡◌, refl, true, false, none, some, List, [], ◌∷◌, codes}
use dsql_cli.App.Data.{ExecutionEvent, row, command_complete}
use dsql_cli.Sql.Catalog.{new_sink, emit, emit_all, relation_pattern}
use dsql_cli.Sql.Catalog.Bounds.{Bounded, emit_all-Bounded}
use dsql_cli.Sql.Catalog.Account.{Accounted, rows_of, emit_all-Accounted}
use dsql_cli.Sql.Catalog.Pattern.{like, glob, like-relation_pattern}

escapes : relation_pattern (codes "Sales_*.100%") ≡ codes "Sales\\_%.100\\%"
unfolding relation_pattern
escapes = refl

abbrev events : List ExecutionEvent
events =
    row (some (codes "public") ∷ none ∷ [])
    ∷ row (some (codes "audit") ∷ some (codes "log") ∷ [])
    ∷ command_complete 2
    ∷ []

-- The second row is over the limit of one.
caps_rows :
    ((emit_all (new_sink 1) events).rows ≡ (codes "public" ∷ [] ∷ []) ∷ [])
    × ((emit_all (new_sink 1) events).truncated ≡ true)
unfolding emit new_sink
caps_rows = (refl, refl)

emit_all-Bounded_example : Bounded (emit_all (new_sink 1) events)
emit_all-Bounded_example = emit_all-Bounded 1 events

emit_all-Accounted_example : Accounted (emit_all (new_sink 1) events) (rows_of events)
emit_all-Accounted_example = emit_all-Accounted 1 events

like-relation_pattern_example :
    like false (relation_pattern (codes "a_*")) (codes "a_b") ≡ glob (codes "a_*") (codes "a_b")
like-relation_pattern_example = like-relation_pattern (codes "a_*") (codes "a_b")
