-- ===== src/Sql/Keywords/Grammar.antt =====
-- The trivia before a keyword as a grammar: blanks, line comments and nested block comments.
use dsql_cli.Prelude.{
  ℕ, suc, ◌+◌, ◌≤◌, ◌≡◌, Bool, true, false, ◌&&◌, ◌||◌, ◌==◌, [], ◌∷◌, ◌++◌, Bytes, length,
  is_ascii_whitespace,
}
use dsql_cli.Sql.Lexer.{next_is}
use dsql_cli.Sql.Keywords.{Trivia, between, in_line, in_block}

abbrev pub is_line_end : ℕ → Bool
is_line_end c = c == 10 || c == 13

-- The two bytes that open a block comment, and that close it.
abbrev pub opens : ℕ → ℕ → Bool
opens c x = c == b'/' && x == b'*'

abbrev pub closes : ℕ → ℕ → Bool
closes c x = c == b'*' && x == b'/'

abbrev pub is_mark : ℕ → Bytes → Bool
is_mark c [] = false
is_mark c (x ∷ s) = opens c x || closes c x

-- A text that leads from one place to another: from between the comments to between them it is
-- blanks, line comments up to their line's end, and block comments with all that are nested.
pub data Trivial : Trivia → Trivia → Bytes → Type 0 where
  nothing : (m : Trivia) → Trivial m m []
  blank :
      (e : Trivia) (c : ℕ) (s : Bytes)
      → is_ascii_whitespace c ≡ true
      → Trivial between e s
      → Trivial between e (c ∷ s)
  line_opens :
      (e : Trivia) (c x : ℕ) (s : Bytes)
      → (c == b'-' && x == b'-') ≡ true
      → Trivial in_line e s
      → Trivial between e (c ∷ x ∷ s)
  line_goes_on :
      (e : Trivia) (c : ℕ) (s : Bytes)
      → is_line_end c ≡ false
      → Trivial in_line e s
      → Trivial in_line e (c ∷ s)
  line_ends :
      (e : Trivia) (c : ℕ) (s : Bytes)
      → is_line_end c ≡ true
      → Trivial between e s
      → Trivial in_line e (c ∷ s)
  block_opens :
      (e : Trivia) (c x : ℕ) (s : Bytes)
      → opens c x ≡ true
      → Trivial (in_block 1) e s
      → Trivial between e (c ∷ x ∷ s)
  nested_opens :
      (e : Trivia) (d c x : ℕ) (s : Bytes)
      → opens c x ≡ true
      → Trivial (in_block (d + 1)) e s
      → Trivial (in_block d) e (c ∷ x ∷ s)
  nested_closes :
      (e : Trivia) (d c x : ℕ) (s : Bytes)
      → closes c x ≡ true
      → Trivial (in_block (suc d)) e s
      → Trivial (in_block (suc (suc d))) e (c ∷ x ∷ s)
  block_closes :
      (e : Trivia) (d c x : ℕ) (s : Bytes)
      → d ≤ 1
      → closes c x ≡ true
      → Trivial between e s
      → Trivial (in_block d) e (c ∷ x ∷ s)
  inside :
      (e : Trivia) (d c : ℕ) (s : Bytes)
      → is_mark c s ≡ false
      → Trivial (in_block d) e s
      → Trivial (in_block d) e (c ∷ s)

-- A text whose first bytes are trivia, or the beginning of a comment.
abbrev pub begins_trivia : Bytes → Bool
begins_trivia [] = false
begins_trivia (c ∷ s) =
    is_ascii_whitespace c || ((c == b'-' && next_is s b'-') || (c == b'/' && next_is s b'*'))

-- What may be left: a text that does not begin with trivia; or, where the text ends in a comment,
-- nothing, and in a block comment one byte at most.
abbrev pub Ends : Trivia → Bytes → Type 0
Ends between rest = begins_trivia rest ≡ false
Ends in_line rest = rest ≡ []
Ends (in_block d) rest = length rest ≤ 1

pub record Skips (m : Trivia) (r rest : Bytes) : Type 0 where
  pub skipped : Bytes
  pub final : Trivia
  pub is_trivial : Trivial m final skipped
  pub splits : r ≡ skipped ++ rest
  pub ends : Ends final rest
