-- ===== src/Sql/Keywords/Trivial.antt =====
-- The two readers of comments, `scan` and `skip_trivia`, agree.
use dsql_cli.Prelude.{ℕ, ◌≤◌, ◌≡◌, Bool, true, false, [], ◌++◌, Bytes, length, rev_onto, ◌⊎◌}
use dsql_cli.Sql.Lexer.{LexicalState, normal, line_comment, block_comment, run}
use dsql_cli.Sql.Keywords.{Trivia, between, in_line, in_block}

-- The state of the scanner where `skip_trivia` stands.
abbrev lexical : Trivia → LexicalState
lexical between = normal
lexical in_line = line_comment
lexical (in_block depth) = block_comment depth

abbrev pub is_comment : Trivia → Bool
is_comment between = false
is_comment in_line = true
is_comment (in_block depth) = true

-- What `skip_trivia` passes over holds no terminator. Behind it the scanner goes on in plain SQL,
-- or the text ends inside a comment.
pub record Passes (k : ℕ) (st : LexicalState) (before r rest : Bytes) : Type 0 where
  pub passed : Bytes
  pub splits : r ≡ passed ++ rest
  pub resumes :
      (run k st before r ≡ run 0 normal (rev_onto passed before) rest)
      ⊎ ((m : Trivia) × (is_comment m ≡ true)
          × (run k st before r ≡ record { ends = []; state = lexical m })
          × (length rest ≤ 1))
