-- ===== src/Output/Columns/Fit.antt =====
-- The texts of the cells: they fit their columns and are safe to print.
use dsql_cli.Prelude.{
  ℕ, zero, suc, ◌+◌, ◌-◌, ◌≤◌, ◌<◌, ◌/◌, ◌%◌, min, ◌≡◌, refl, sym, ◌∙◌, arith, Bool, true, false,
  ◌&&◌, Bool-cases, inl, inr, some, [], ◌∷◌, ◌++◌, Chars, codes, length, leb, ltb, ◌==◌, all,
  is_control, unicode_escape, hex_digit, if◌then◌else◌,
}
use dsql_cli.Output.Columns.{
  repeat, Widths, width_of, take_width, with_marker, escaped, escape_prefix,
  escape_terminal_text_to_width, behind,
}

abbrev pub plain : ℕ → Bool
plain c = leb 32 c && leb c 126

-- Printable ASCII characters are one column wide, and so is each in a text of them.
pub record PlainWidths (W : Widths) : Type 0 where
  pub of_char : (c : ℕ) → plain c ≡ true → W.char_width c ≡ some 1
  pub of_text : (s : Chars) → all plain s ≡ true → W.str_width s ≡ length s

hex_digit-plain : (d : ℕ) → d < 16 → plain (hex_digit d) ≡ true
hex_digit-plain d h = ground arith

unicode_escape-plain : (c : ℕ) → is_control c ≡ true → all plain (unicode_escape c) ≡ true
unicode_escape-plain c h =
    let small : c < 160 = ground arith in
    rw (hex_digit-plain (c / 16) (omega arith), hex_digit-plain (c % 16) (omega arith)) refl

module _ (W : Widths) where
  -- A text's width, as the code adds it up: character by character.
  abbrev pub chars_width : Chars → ℕ
  chars_width [] = 0
  chars_width (c ∷ s) = width_of W c + chars_width s

  chars_width-append : (s t : Chars) → chars_width (s ++ t) ≡ chars_width s + chars_width t
  chars_width-append [] t = omega arith
  chars_width-append (c ∷ s) t = omega (arith, chars_width-append s t)

  take_width-chars_width :
      (used limit : ℕ) (s : Chars)
      → used ≤ limit
      → used + chars_width (take_width W used limit s) ≤ limit
  unfolding take_width
  take_width-chars_width used limit [] h = omega arith
  take_width-chars_width used limit (c ∷ s) h =
      ground (arith, take_width-chars_width (used + width_of W c) limit s)

  module _ (P : PlainWidths W) where
    plain-width : (s : Chars) → all plain s ≡ true → chars_width s ≡ length s
    plain-width [] h = refl
    plain-width (c ∷ s) h =
        rw (P.of_char c (ground arith)) (omega (arith, plain-width s (ground arith)))

    repeat-width : (n : ℕ) → chars_width (repeat b'.' n) ≡ n
    repeat-width zero = refl
    repeat-width (suc n) = rw (P.of_char b'.' refl) (omega (arith, repeat-width n))

    length-repeat : (n : ℕ) → length (repeat b'.' n) ≡ n
    length-repeat zero = refl
    length-repeat (suc n) = omega (arith, length-repeat n)

    with_marker-width : (s : Chars) (width : ℕ) → chars_width (with_marker W s width) ≤ width
    unfolding with_marker
    with_marker-width s width =
        let dots = repeat b'.' (min width 3) in
        let taken = take_width W 0 (width - length dots) s in
        omega (
          arith,
          chars_width-append taken dots,
          repeat-width (min width 3),
          length-repeat (min width 3),
          take_width-chars_width 0 (width - length dots) s (omega arith),
        )

    abbrev Measured : Chars × ℕ → Type 0
    Measured p = chars_width p.0 ≡ p.1

    if-Measured :
        (b : Bool) (p q : Chars × ℕ) → Measured p → Measured q → Measured (if b then p else q)
    if-Measured true p q h k = h
    if-Measured false p q h k = k

    plain-Measured : (s : Chars) → all plain s ≡ true → Measured (s, W.str_width s)
    plain-Measured s h = plain-width s h ∙ sym (P.of_text s h)

    control-Measured :
        (c : ℕ) (b : Bool)
        → is_control c ≡ b
        → Measured (
            if b
            then (unicode_escape c, W.str_width (unicode_escape c))
            else (c ∷ [], width_of W c))
    control-Measured c true e = plain-Measured (unicode_escape c) (unicode_escape-plain c e)
    control-Measured c false e = omega arith

    escaped-Measured : (c : ℕ) → Measured (escaped W c)
    escaped-Measured c =
        if-Measured (c == 10) (codes "\\n", W.str_width (codes "\\n")) _
          (plain-Measured (codes "\\n") refl)
          (if-Measured (c == 13) (codes "\\r", W.str_width (codes "\\r")) _
            (plain-Measured (codes "\\r") refl)
            (if-Measured (c == 9) (codes "\\t", W.str_width (codes "\\t")) _
              (plain-Measured (codes "\\t") refl) (control-Measured c (is_control c) refl)))

    behind-width :
        (used width : ℕ) (e : Chars × ℕ) (x : Chars × Bool)
        → Measured e
        → used + e.1 + chars_width x.0 ≤ width
        → used + chars_width (behind e.0 x).0 ≤ width
    behind-width used width (piece, n) (prefix, t) m h =
        omega (arith, chars_width-append piece prefix, m)

    escape_prefix-width :
        (used width : ℕ) (s : Chars)
        → used ≤ width
        → used + chars_width (escape_prefix W used width s).0 ≤ width
    unfolding escape_prefix
    escape_prefix-width used width [] h = omega arith
    escape_prefix-width used width (c ∷ s) h =
        elim (Bool-cases (ltb width (used + (escaped W c).1))) [
          | inl e ↦ rw e (omega arith)
          | inr e ↦ rw e (
              behind-width used width (escaped W c)
                (escape_prefix W (used + (escaped W c).1) width s) (escaped-Measured c)
                (escape_prefix-width (used + (escaped W c).1) width s (ground (arith, e))))
        ]

    -- The widths of the characters of a cell's text, of which each is measured alone as where the
    -- text is cut, sum to at most the column's width, whatever the value is, where the characters of
    -- ASCII are one column wide each.
    pub escape_terminal_text_to_width-chars_width :
        (value : Chars) (width : ℕ)
        → chars_width (escape_terminal_text_to_width W value width) ≤ width
    unfolding escape_terminal_text_to_width
    escape_terminal_text_to_width-chars_width value width =
        let p = escape_prefix W 0 width value in
        elim (Bool-cases p.1) [
          | inl e ↦ rw e (with_marker-width p.0 width)
          | inr e ↦ rw e (omega (arith, escape_prefix-width 0 width value (omega arith)))
        ]
