-- ===== src/Output/Columns.antt =====
-- src/output/table.rs: the widths of the columns, and the texts that are cut and padded to them.
-- The widths of unicode-width are parameters.
pub mod Sum
pub mod Fit
pub mod Shown
use dsql_cli.Prelude.{
  ℕ, zero, suc, ◌+◌, ◌-◌, max, min, Bool, true, false, not, Option, none, some, List, [], ◌∷◌, ◌++◌,
  map, Chars, codes, length, ◌==◌, ltb, leb, is_control, unicode_escape, rev_onto, if◌then◌else◌,
}

abbrev pub repeat : ℕ → ℕ → Chars
repeat c zero = []
repeat c (suc n) = c ∷ repeat c n

-- One `for index in 0..widths.len()` of the loop: the widths, what remains, and `grew`.
pub record Grown : Type 0 where
  pub widths : List ℕ
  pub remaining : ℕ
  pub grew : Bool

abbrev pub keep_width : ℕ → Grown → Grown
keep_width w g = record g { widths = w ∷ g.widths }

abbrev pub grow_width : ℕ → Grown → Grown
grow_width w g = record { widths = (w + 1) ∷ g.widths; remaining = g.remaining; grew = true }

unfoldable pub grow : List ℕ → List ℕ → ℕ → Grown
grow [] desired remaining = record { widths = []; remaining = remaining; grew = false }
grow (w ∷ ws) [] remaining = record { widths = w ∷ ws; remaining = remaining; grew = false }
grow (w ∷ ws) (d ∷ ds) zero = record { widths = w ∷ ws; remaining = zero; grew = false }
grow (w ∷ ws) (d ∷ ds) (suc remaining) =
    let grown = grow ws ds remaining in
    let kept = grow ws ds (suc remaining) in
    if ltb w d then grow_width w grown else keep_width w kept

-- `while remaining > 0`; every round but the last takes from what remains.
unfoldable pub grow_all : ℕ → List ℕ → List ℕ → ℕ → Grown
unfolding grow
grow_all zero widths desired remaining = record {
  widths = widths;
  remaining = remaining;
  grew = false;
}
grow_all (suc fuel) widths desired remaining =
    let g = grow widths desired remaining in
    let rest = grow_all fuel g.widths desired g.remaining in
    if remaining == 0
    then record { widths = widths; remaining = remaining; grew = false }
    else if g.grew
    then rest
    else g

-- `(0..widths.len()).cycle().take(remaining)`: the widths behind the index, the last first, and
-- those from it on.
abbrev pub first_up : List ℕ → List ℕ × List ℕ
first_up [] = ([], [])
first_up (w ∷ ws) = ((w + 1) ∷ [], ws)

unfoldable pub share : ℕ → List ℕ → List ℕ → List ℕ
share zero behind ws = rev_onto behind ws
share (suc remaining) behind (w ∷ ws) = share remaining ((w + 1) ∷ behind) ws
share (suc remaining) behind [] =
    let (b, ws) = first_up (rev_onto behind []) in share remaining b ws

abbrev pub ones : {A : Type 0} → List A → List ℕ
ones [] = []
ones (a ∷ l) = 1 ∷ ones l

unfoldable pub widths_for : List ℕ → ℕ → List ℕ
unfolding grow_all share
widths_for desired display_width =
    let available = max (display_width - (length desired - 1)) (length desired) in
    let remaining = available - length desired in
    let g = grow_all (suc remaining) (ones desired) desired remaining in
    share g.remaining [] g.widths

unfoldable pub separator_line : List ℕ → Chars
separator_line [] = []
separator_line (width ∷ []) = repeat b'-' width
separator_line (width ∷ w ∷ widths) = repeat b'-' width ++ (b'+' ∷ separator_line (w ∷ widths))

-- The loop over the characters: `prefix` and `truncated`.
abbrev pub behind : Chars → Chars × Bool → Chars × Bool
behind piece (prefix, truncated) = (piece ++ prefix, truncated)

-- The crate unicode-width.
pub record Widths : Type 0 where
  pub char_width : ℕ → Option ℕ
  pub str_width : Chars → ℕ

abbrev pub unwrap_or_zero : Option ℕ → ℕ
unwrap_or_zero none = 0
unwrap_or_zero (some n) = n

module _ (W : Widths) where
  abbrev pub width_of : ℕ → ℕ
  width_of c = unwrap_or_zero (W.char_width c)

  unfoldable pub column_widths : List Chars → ℕ → List ℕ
  unfolding widths_for
  column_widths headers display_width =
      widths_for (map (λ h. max (W.str_width h) 1) headers) display_width

  unfoldable pub pad_to_width : Chars → ℕ → Chars
  pad_to_width value width = value ++ repeat b' ' (width - W.str_width value)

  -- `zip`, `map` and `join("|")`
  unfoldable pub table_line : List Chars → List ℕ → Chars
  unfolding pad_to_width
  table_line (cell ∷ []) (width ∷ widths) = pad_to_width cell width
  table_line (cell ∷ cells) (width ∷ []) = pad_to_width cell width
  table_line (cell ∷ next ∷ cells) (width ∷ w ∷ widths) =
      pad_to_width cell width ++ (b'|' ∷ table_line (next ∷ cells) (w ∷ widths))
  table_line _ _ = []

  -- The characters whose widths fit, from `used` on.
  unfoldable pub take_width : ℕ → ℕ → Chars → Chars
  take_width used limit [] = []
  take_width used limit (c ∷ s) =
      let rest = take_width (used + width_of c) limit s in
      if ltb limit (used + width_of c) then [] else c ∷ rest

  -- The text that fits beside the dots, and the dots.
  unfoldable pub with_marker : Chars → ℕ → Chars
  unfolding take_width
  with_marker value width =
      let marker = repeat b'.' (min width 3) in take_width 0 (width - length marker) value ++ marker

  unfoldable pub truncate_to_width : Chars → ℕ → Chars
  unfolding with_marker
  truncate_to_width value width =
      if leb (W.str_width value) width then value else with_marker value width

  -- The escape of a character and its width.
  abbrev pub escaped : ℕ → Chars × ℕ
  escaped c =
      if c == 10
      then (codes "\\n", W.str_width (codes "\\n"))
      else if c == 13
      then (codes "\\r", W.str_width (codes "\\r"))
      else if c == 9
      then (codes "\\t", W.str_width (codes "\\t"))
      else if is_control c
      then (unicode_escape c, W.str_width (unicode_escape c))
      else (c ∷ [], width_of c)

  unfoldable pub escape_prefix : ℕ → ℕ → Chars → Chars × Bool
  escape_prefix used width [] = ([], false)
  escape_prefix used width (c ∷ s) =
      let e = escaped c in
      let rest = escape_prefix (used + e.1) width s in
      if ltb width (used + e.1) then ([], true) else behind e.0 rest

  unfoldable pub escape_terminal_text_to_width : Chars → ℕ → Chars
  unfolding escape_prefix with_marker
  escape_terminal_text_to_width value width =
      let (prefix, truncated) = escape_prefix 0 width value in
      if not truncated then prefix else with_marker prefix width
