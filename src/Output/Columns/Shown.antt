-- ===== src/Output/Columns/Shown.antt =====
-- What stands in a line is safe to print: no control character, no line feed among them.
use dsql_cli.Prelude.{
  ℕ, zero, suc, ◌+◌, ◌-◌, ◌/◌, ◌%◌, ◌≡◌, refl, arith, Bool, true, false, Bool-cases, inl, inr, List,
  [], ◌∷◌, ◌++◌, Chars, length, ltb, all, all-append, if◌then◌else◌, min,
}
use dsql_cli.Prelude.Decimal.{decimal, digits}
use dsql_cli.Output.{escape_character, escape_terminal_text}
use dsql_cli.Output.Escape.{printable, escape_terminal_text-printable, escape_character-printable}
use dsql_cli.Output.Columns.{
  repeat, Widths, width_of, take_width, with_marker, escaped, escape_prefix,
  escape_terminal_text_to_width, behind, pad_to_width, table_line, separator_line,
  truncate_to_width,
}

abbrev pub Shown : Chars → Type 0
Shown s = all printable s ≡ true

pub Shown-append : (s t : Chars) → Shown s → Shown t → Shown (s ++ t)
Shown-append s t h k = ground (arith, all-append printable s t)

pub escape_terminal_text-Shown : (s : Chars) → Shown (escape_terminal_text s)
escape_terminal_text-Shown s = escape_terminal_text-printable s

pub repeat-Shown : (c n : ℕ) → printable c ≡ true → Shown (repeat c n)
repeat-Shown c zero h = refl
repeat-Shown c (suc n) h = rw h (repeat-Shown c n h)

digits-Shown : (fuel n : ℕ) (rest : Chars) → Shown rest → Shown (digits fuel n rest)
unfolding digits
digits-Shown zero n rest h = h
digits-Shown (suc fuel) n rest h =
    let more = digits-Shown fuel (n / 10) ((b'0' + n % 10) ∷ rest) (ground arith) in ground arith

pub decimal-Shown : (n : ℕ) → Shown (decimal n)
unfolding decimal
decimal-Shown n = digits-Shown (suc n) n [] refl

pub separator_line-Shown : (widths : List ℕ) → Shown (separator_line widths)
unfolding separator_line
separator_line-Shown [] = refl
separator_line-Shown (w ∷ []) = repeat-Shown b'-' w refl
separator_line-Shown (w ∷ v ∷ widths) =
    Shown-append (repeat b'-' w) (b'+' ∷ separator_line (v ∷ widths)) (repeat-Shown b'-' w refl)
      (separator_line-Shown (v ∷ widths))

module _ (W : Widths) where
  take_width-Shown : (used limit : ℕ) (s : Chars) → Shown s → Shown (take_width W used limit s)
  unfolding take_width
  take_width-Shown used limit [] h = refl
  take_width-Shown used limit (c ∷ s) h =
      ground (arith, take_width-Shown (used + width_of W c) limit s)

  with_marker-Shown : (s : Chars) (width : ℕ) → Shown s → Shown (with_marker W s width)
  unfolding with_marker
  with_marker-Shown s width h =
      Shown-append (take_width W 0 (width - length (repeat b'.' (min width 3))) s)
        (repeat b'.' (min width 3)) (take_width-Shown 0 _ s h)
        (repeat-Shown b'.' (min width 3) refl)

  pub truncate_to_width-Shown :
      (s : Chars) (width : ℕ) → Shown s → Shown (truncate_to_width W s width)
  unfolding truncate_to_width
  truncate_to_width-Shown s width h = (let k = with_marker-Shown s width h in ground arith)

  if-Shown : (b : Bool) (p q : Chars × ℕ) → Shown p.0 → Shown q.0 → Shown (if b then p else q).0
  if-Shown true p q h k = h
  if-Shown false p q h k = k

  escaped_lem : (c : ℕ) → (escaped W c).0 ≡ escape_character c
  escaped_lem c = ground arith

  behind-Shown : (s : Chars) (x : Chars × Bool) → Shown s → Shown x.0 → Shown (behind s x).0
  behind-Shown s (prefix, t) h k = Shown-append s prefix h k

  escape_prefix-Shown : (used width : ℕ) (s : Chars) → Shown (escape_prefix W used width s).0
  unfolding escape_prefix
  escape_prefix-Shown used width [] = refl
  escape_prefix-Shown used width (c ∷ s) = elim (Bool-cases (ltb width (used + (escaped W c).1))) [
    | inl e ↦ rw e refl
    | inr e ↦ rw e (
        behind-Shown (escaped W c).0 (escape_prefix W (used + (escaped W c).1) width s)
          (rw (escaped_lem c) (escape_character-printable c))
          (escape_prefix-Shown (used + (escaped W c).1) width s))
  ]

  pub escape_terminal_text_to_width-Shown :
      (value : Chars) (width : ℕ) → Shown (escape_terminal_text_to_width W value width)
  unfolding escape_terminal_text_to_width
  escape_terminal_text_to_width-Shown value width =
      (let p = escape_prefix-Shown 0 width value in
        let k = with_marker-Shown (escape_prefix W 0 width value).0 width p in ground arith)

  abbrev pub AllShown : List Chars → Type 0
  AllShown [] = Unit
  AllShown (s ∷ l) = Shown s × AllShown l

  pad_to_width-Shown : (s : Chars) (width : ℕ) → Shown s → Shown (pad_to_width W s width)
  unfolding pad_to_width
  pad_to_width-Shown s width h =
      Shown-append s (repeat b' ' (width - W.str_width s)) h
        (repeat-Shown b' ' (width - W.str_width s) refl)

  pub table_line-Shown :
      (cells : List Chars) (widths : List ℕ) → AllShown cells → Shown (table_line W cells widths)
  unfolding table_line
  table_line-Shown (s ∷ []) (w ∷ widths) h = pad_to_width-Shown s w h.0
  table_line-Shown (s ∷ t ∷ cells) (w ∷ []) h = pad_to_width-Shown s w h.0
  table_line-Shown (s ∷ t ∷ cells) (w ∷ v ∷ widths) h =
      Shown-append (pad_to_width W s w) (b'|' ∷ table_line W (t ∷ cells) (v ∷ widths))
        (pad_to_width-Shown s w h.0) (table_line-Shown (t ∷ cells) (v ∷ widths) h.1)
  table_line-Shown [] widths h = refl
  table_line-Shown (s ∷ []) [] h = refl
  table_line-Shown (s ∷ t ∷ cells) [] h = refl
