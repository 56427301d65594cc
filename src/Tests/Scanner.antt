-- ===== src/Tests/Scanner.antt =====
-- src/sql/scanner.rs: its unit tests on the model, and its theorems at inputs of those tests.
use dsql_cli.Prelude.{
  ◌≡◌, refl, Option, none, some, List, [], ◌∷◌, ◌++◌, map, Bytes, codes, ◌>>=◌, true, false,
}
use dsql_cli.Sql.Lexer.{terminated_statement_ends, lexical_completeness}
use dsql_cli.Sql.Keywords.{
  skip_trivia, begin, commit, rollback, savepoint, release, rollback_to, other,
  classify_transaction_control, is_schema_changing,
}
use dsql_cli.Sql.Stream.{
  Statement, StatementStream, empty, push_inner, push_bounded, pending_is_trivia,
}
use dsql_cli.Sql.Stream.Limits.{pushed, push_next, push_inner-append}
use dsql_cli.Sql.Stream.Frames.{frames, push_spec, push_inner-push_spec}
use dsql_cli.Sql.Stream.Chunks.{prepend, frames-append}
use dsql_cli.Sql.Keywords.Case.{lower, classify-lower}

abbrev texts : StatementStream × Option (List Statement) → Option (List Bytes)
texts (s, none) = none
texts (s, some l) = some (map (λ (x : Statement). x.text) l)

abbrev statements : Bytes → Option (List Bytes)
statements input = texts (push_inner empty input none)

splits_semicolons :
    statements (codes "SELECT 1; SELECT 2;") ≡ some (codes "SELECT 1;" ∷ codes " SELECT 2;" ∷ [])
unfolding push_inner terminated_statement_ends
splits_semicolons = refl

preserves_constructs :
    statements
      (codes "SELECT ';', E'\\\\;\\'x', \"a;b\", $$d;e$$; -- f;\n/* g; /* h; */ */ SELECT 2;")
    ≡ some (
        codes "SELECT ';', E'\\\\;\\'x', \"a;b\", $$d;e$$;"
        ∷ codes " -- f;\n/* g; /* h; */ */ SELECT 2;"
        ∷ [])
unfolding push_inner terminated_statement_ends
preserves_constructs = refl

dollar_tags :
    statements (codes "SELECT $tag_9$;$tag_9$; SELECT $; x;")
    ≡ some (codes "SELECT $tag_9$;$tag_9$;" ∷ codes " SELECT $;" ∷ codes " x;" ∷ [])
unfolding push_inner terminated_statement_ends
dollar_tags = refl

tag_in_identifier :
    statements (codes "SELECT column$tag$; still_sql;")
    ≡ some (codes "SELECT column$tag$;" ∷ codes " still_sql;" ∷ [])
unfolding push_inner terminated_statement_ends
tag_in_identifier = refl

backslash_rules :
    (statements (codes "SELECT '\\'; SELECT 1;")
      ≡ some (codes "SELECT '\\';" ∷ codes " SELECT 1;" ∷ []))
    × (statements (codes "SELECT E'\\'; still string;'; SELECT 1;")
        ≡ some (codes "SELECT E'\\'; still string;';" ∷ codes " SELECT 1;" ∷ []))
unfolding push_inner terminated_statement_ends
backslash_rules = (refl, refl)

bounded :
    texts (push_bounded empty (codes "SELECT 1;SELECT 2;") 9)
    ≡ some (codes "SELECT 1;" ∷ codes "SELECT 2;" ∷ [])
unfolding push_bounded terminated_statement_ends
bounded = refl

too_large : texts (push_bounded empty (codes "SELECT 12;") 9) ≡ none
unfolding push_bounded terminated_statement_ends
too_large = refl

trivia :
    (pending_is_trivia (record { pending = codes " -- finished\n/* also finished */" }) ≡ true)
    × (pending_is_trivia (record { pending = codes "SELECT 1" }) ≡ false)
unfolding pending_is_trivia lexical_completeness skip_trivia
trivia = (refl, refl)

classifies :
    (classify_transaction_control (codes "/* lead */ START TRANSACTION;") ≡ begin)
    × (classify_transaction_control (codes "END;") ≡ commit)
    × (classify_transaction_control (codes "abort;") ≡ rollback)
    × (classify_transaction_control (codes "SAVEPOINT one;") ≡ savepoint)
    × (classify_transaction_control (codes "RELEASE SAVEPOINT one;") ≡ release)
    × (classify_transaction_control (codes "ROLLBACK TO one;") ≡ rollback_to)
    × (classify_transaction_control (codes "START;") ≡ other)
unfolding classify_transaction_control
classifies = (refl, refl, refl, refl, refl, refl, refl)

schema_changes :
    (is_schema_changing (codes "/* migration */ AlTeR TABLE orders;") ≡ true)
    × (is_schema_changing (codes "AWS IAM REVOKE ACCESS FROM app_user;") ≡ true)
    × (is_schema_changing (codes "-- DROP TABLE hidden") ≡ false)
unfolding is_schema_changing
schema_changes = (refl, refl, refl)

-- The second chunk completes a doubled quote.
abbrev first_chunk : Bytes
first_chunk = codes "SELECT 'a'"

abbrev second_chunk : Bytes
second_chunk = codes "';'; SELECT $t$;$t$; S"

push_inner-append_example :
    pushed (push_inner empty (first_chunk ++ second_chunk) (some 30))
    ≡ (pushed (push_inner empty first_chunk (some 30)) >>= push_next second_chunk (some 30))
push_inner-append_example = push_inner-append empty first_chunk second_chunk (some 30)

push_inner-push_spec_example :
    push_inner (record { pending = first_chunk }) second_chunk none
    ≡ push_spec none (first_chunk ++ second_chunk)
push_inner-push_spec_example =
    push_inner-push_spec (record { pending = first_chunk }) second_chunk none

abbrev mixed : Bytes
mixed = codes "/* x */ CoMMit; SELECT"

classify-lower_example :
    (classify_transaction_control (lower mixed) ≡ classify_transaction_control mixed)
    × (is_schema_changing (lower mixed) ≡ is_schema_changing mixed)
classify-lower_example = classify-lower mixed

frames-append_example :
    frames (first_chunk ++ second_chunk)
    ≡ prepend
        (frames first_chunk).statements
        (frames ((frames first_chunk).pending ++ second_chunk))
frames-append_example = frames-append first_chunk second_chunk
