-- ===== src/Shell/Quoting.antt =====
-- Every name can be quoted.
use dsql_cli.Prelude.{
  ◌-◌, ◌≡◌, refl, arith, true, false, some, [], ◌∷◌, ◌++◌, Chars, length, length-append,
  take-length-append, ◌==◌, if◌then◌else◌,
}
use dsql_cli.Shell.{parsed, unquote, ends_with_quote, parse_pattern}

-- A quote of the name is doubled.
abbrev pub doubled : Chars → Chars
doubled [] = []
doubled (c ∷ s) = let rest = doubled s in if c == b'"' then b'"' ∷ b'"' ∷ rest else c ∷ rest

abbrev pub quote : Chars → Chars
quote s = b'"' ∷ (doubled s ++ b'"' ∷ [])

unquote-doubled : (s : Chars) → unquote false (doubled s) ≡ some s
unfolding unquote
unquote-doubled [] = refl
unquote-doubled (c ∷ s) = ground (arith, unquote-doubled s)

ends_with_quote-last : (s : Chars) → ends_with_quote (s ++ b'"' ∷ []) ≡ true
ends_with_quote-last [] = refl
ends_with_quote-last (c ∷ []) = refl
ends_with_quote-last (c ∷ d ∷ s) = ends_with_quote-last (d ∷ s)

-- A pattern that is quoted, with its quotes doubled, is read as the name itself, whatever it
-- contains: white space and quotes too.
pub parse_pattern-quote : (command s : Chars) → parse_pattern command (quote s) ≡ parsed (some s)
unfolding parse_pattern
parse_pattern-quote command s =
    let size = length-append (doubled s) (b'"' ∷ []) in
    let inner : length (quote s) - 2 ≡ length (doubled s) = omega arith in
    let longer : (length (quote s) == 1) ≡ false = ground arith in
    rw (
      ends_with_quote-last (b'"' ∷ doubled s),
      longer,
      inner,
      take-length-append (doubled s) (b'"' ∷ []),
      unquote-doubled s,
    )
