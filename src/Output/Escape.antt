-- ===== src/Output/Escape.antt =====
-- Escaped text is safe to print.
use dsql_cli.Prelude.{
  ℕ, ◌<◌, ◌%◌, ◌/◌, ◌≡◌, refl, arith, Bool, true, not, [], ◌∷◌, Chars, all, all-append, is_control,
  unicode_escape, hex_digit, Bool-cases, inl, inr,
}
use dsql_cli.Output.{escape_character, escape_terminal_text}

abbrev pub printable : ℕ → Bool
printable c = not (is_control c)

hex_digit-printable : (d : ℕ) → d < 16 → printable (hex_digit d) ≡ true
hex_digit-printable d h = ground arith

unicode_escape-printable : (c : ℕ) → is_control c ≡ true → all printable (unicode_escape c) ≡ true
unicode_escape-printable c h =
    let small : c < 160 = ground arith in
    rw (hex_digit-printable (c / 16) (omega arith), hex_digit-printable (c % 16) (omega arith))

pub escape_character-printable : (c : ℕ) → all printable (escape_character c) ≡ true
escape_character-printable c = elim (Bool-cases (is_control c)) [
  | inl control ↦ ground (arith, unicode_escape-printable c control)
  | inr other ↦ ground arith
]

-- No control character is left in the escaped text.
pub escape_terminal_text-printable : (s : Chars) → all printable (escape_terminal_text s) ≡ true
unfolding escape_terminal_text
escape_terminal_text-printable [] = refl
escape_terminal_text-printable (c ∷ s) = ground (
  arith,
  all-append printable (escape_character c) (escape_terminal_text s),
  escape_character-printable c,
  escape_terminal_text-printable s,
)
