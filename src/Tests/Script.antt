-- ===== src/Tests/Script.antt =====
-- src/cli.rs: scripts in chunks, and the theorem at one.
use dsql_cli.Prelude.{◌≡◌, refl, none, some, List, [], ◌∷◌, ◌++◌, Bytes, codes}
use dsql_cli.Error.{Result, ok}
use dsql_cli.Sql.Lexer.{terminated_statement_ends, lexical_completeness}
use dsql_cli.Sql.Keywords.{skip_trivia, classify_transaction_control}
use dsql_cli.Sql.Stream
use dsql_cli.Cli.Script.{Chunk, chunk, valid_bytes, execute_script_reader}
use dsql_cli.Cli.Script.Whole.{LogsExecutions, bytes_of, RanWhole, execute_script_reader-RanWhole}

-- The world is the statements that were executed; all succeed.
abbrev execute : Bytes → List Bytes → List Bytes × Result (Unit {0})
execute statement log = (log ++ (statement ∷ []), ok tt)

-- A cut character is kept for the next chunk; an overlong form is an error.
validates :
    (valid_bytes (97 ∷ 195 ∷ []) ≡ some 1)
    × (valid_bytes (195 ∷ 169 ∷ []) ≡ some 2)
    × (valid_bytes (224 ∷ 128 ∷ []) ≡ none)
    × (valid_bytes (192 ∷ 175 ∷ []) ≡ none)
unfolding valid_bytes
validates = (refl, refl, refl, refl)

-- The second chunk begins inside a character.
abbrev chunks : List Chunk
chunks = chunk (codes "BEGIN; SELECT '" ++ (195 ∷ [])) ∷ chunk (169 ∷ codes "'; -- done") ∷ []

execute-LogsExecutions : LogsExecutions (List Bytes) execute (λ w. w)
execute-LogsExecutions = record { executing = λ b s. refl }

reads_script :
    execute_script_reader (List Bytes) execute (codes "SQL file") chunks []
    ≡ (codes "BEGIN;" ∷ (codes " SELECT '" ++ (195 ∷ 169 ∷ codes "';")) ∷ [], ok tt)
unfolding execute_script_reader Stream.push_bounded Stream.pending_is_trivia
    terminated_statement_ends skip_trivia lexical_completeness classify_transaction_control
reads_script = refl

execute_script_reader-RanWhole_example :
    RanWhole
      (List Bytes)
      execute
      (λ w. w)
      (bytes_of chunks)
      []
      (execute_script_reader (List Bytes) execute (codes "SQL file") chunks [])
execute_script_reader-RanWhole_example =
    execute_script_reader-RanWhole (List Bytes) execute (λ w. w) execute-LogsExecutions
      (codes "SQL file") chunks []
