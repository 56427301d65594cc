-- ===== src/Sql/Stream/Frames.antt =====
-- The stream's specification: one pass that cuts the text behind each terminating semicolon and
-- scans every statement from its own first byte. `push_inner` implements it with indices.
use native.Mathlib.Nat.{zero-add}
use dsql_cli.Prelude.{
  ℕ, zero, suc, ◌+◌, ◌-◌, ◌≤◌, ◌≡◌, refl, ap, ◌∙◌, Bool, true, false, ◌&&◌, not, Option, none, some,
  List, [], ◌∷◌, ◌++◌, map, Bytes, arith, length, take, drop, concat, if◌then◌else◌, rev_onto,
  rev_onto-append, drop-rev_onto, take-rev_onto, length-rev_onto, append_assoc, length-append,
  rev_onto_split, drop-length-append,
}
use dsql_cli.Sql.Lexer.{
  LexicalState, normal, step, Scan, run, scan, add_end, terminated_statement_ends,
}
use dsql_cli.Sql.Lexer.Boundary.{Boundary, step-Boundary, step-terminated}
use dsql_cli.Sql.Stream.{
  Statement, StatementStream, statement, exceeds, Cut, push_cut, cut_from, finish, push_inner,
}

pub record Framing : Type 0 where
  pub statements : List Bytes
  pub pending : Bytes

abbrev pub emit : Bool → Bytes → Framing → Framing
emit true s f = record f { statements = s ∷ f.statements }
emit false s f = f

-- `current` is the statement read so far, the last byte first.
unfoldable pub frame : ℕ → LexicalState → Bytes → Bytes → Framing
frame k st current [] = record { statements = []; pending = rev_onto current [] }
frame (suc k) st current (c ∷ r) = frame k st (c ∷ current) r
frame zero st current (c ∷ r) =
    let s = step st current c r in
    emit s.terminated (rev_onto (c ∷ current) [])
      (frame s.skip s.next (if s.terminated then [] else c ∷ current) r)

unfoldable pub frames : Bytes → Framing
unfolding frame
frames = frame 0 normal []

abbrev pub fits : Option ℕ → List Bytes → Bool
fits limit [] = true
fits limit (s ∷ ss) = not (exceeds limit (length s)) && fits limit ss

-- What a push promises about the text that is pending behind it.
unfoldable pub push_spec : Option ℕ → Bytes → StatementStream × Option (List Statement)
push_spec limit text =
    let f = frames text in
    if fits limit f.statements
    then (
      record { pending = f.pending },
      (if exceeds limit (length f.pending) then none else some (map statement f.statements)),
    )
    else (record { pending = text }, none)

abbrev pub whole : Framing → Bytes
whole f = concat f.statements ++ f.pending

whole-emit :
    (b : Bool) (s : Bytes) (f : Framing)
    → whole (emit b s f) ≡ (if b then s ++ whole f else whole f)
whole-emit true s f = append_assoc s (concat f.statements) f.pending
whole-emit false s f = refl

-- The bytes of a framing are those read and those to come.
pub whole-frame :
    (k : ℕ) (st : LexicalState) (current rest : Bytes)
    → whole (frame k st current rest) ≡ rev_onto current rest
unfolding frame
whole-frame k st current [] = refl
whole-frame (suc k) st current (c ∷ r) = whole-frame k st (c ∷ current) r
whole-frame zero st current (c ∷ r) =
    let s = step st current c r in
    let f = frame s.skip s.next (if s.terminated then [] else c ∷ current) r in
    ground (
      arith,
      whole-emit s.terminated (rev_onto (c ∷ current) []) f,
      whole-frame s.skip s.next (if s.terminated then [] else c ∷ current) r,
      rev_onto_split (c ∷ current) [] r,
    )

pub whole-frames : (text : Bytes) → whole (frames text) ≡ text
unfolding frames
whole-frames text = whole-frame 0 normal [] text

-- A text within the limit has no statement over it.
pub fits-concat :
    (limit : ℕ) (ss : List Bytes) → length (concat ss) ≤ limit → fits (some limit) ss ≡ true
fits-concat limit [] h = refl
fits-concat limit (s ∷ ss) h = ground (arith, length-append s (concat ss), fits-concat limit ss)

-- The loop over the ends, with its index arithmetic done.
cut_of : Option ℕ → ℕ → List Bytes → Option Cut
cut_of limit start [] = some (record { statements = []; start = start })
cut_of limit start (s ∷ ss) =
    if exceeds limit (length s)
    then none
    else push_cut (statement s) (cut_of limit (start + length s) ss)

cut_from-add_end :
    (limit : Option ℕ) (text front current : Bytes) (r : Bytes) (b : Bool) (scan : Scan)
    → text ≡ rev_onto (current ++ front) r
    → cut_from limit text (length front) (add_end b (length (current ++ front)) scan).ends ≡ (
        if b
        then (if exceeds limit (length current)
            then none
            else push_cut
                (statement (rev_onto current []))
                (cut_from limit text (length (current ++ front)) scan.ends))
        else cut_from limit text (length front) scan.ends)
unfolding cut_from
cut_from-add_end limit text front current r false scan e = refl
cut_from-add_end limit text front current r true scan e = rw (size, piece)
  where
    size : length (current ++ front) - length front ≡ length current
    size = omega (arith, length-append current front)

    piece : take (length current) (drop (length front) text) ≡ rev_onto current []
    piece =
        rw (e, rev_onto-append current front r, drop-rev_onto front (rev_onto current r))
          (take-rev_onto current r)

cut_of-cons :
    (limit : Option ℕ) (current front : Bytes) (ss : List Bytes)
    → cut_of limit (length front) (rev_onto current [] ∷ ss) ≡ (
        if exceeds limit (length current)
        then none
        else push_cut
            (statement (rev_onto current []))
            (cut_of limit (length (current ++ front)) ss))
unfolding cut_of
cut_of-cons limit current front ss = rw (size, start)
  where
    size : length (rev_onto current []) ≡ length current
    size = omega (arith, length-rev_onto current [])

    start : length front + length current ≡ length (current ++ front)
    start = omega (arith, length-append current front)

module _ (limit : Option ℕ) (text : Bytes) where
  cut_from-frame :
      (k : ℕ) (st : LexicalState) (current front rest : Bytes)
      → Boundary front
      → text ≡ rev_onto (current ++ front) rest
      → cut_from limit text (length front) (run k st (current ++ front) rest).ends
        ≡ cut_of limit (length front) (frame k st current rest).statements
  unfolding run frame
  cut_from-frame k st current front [] b e = unfold cut_from cut_of in refl
  cut_from-frame (suc k) st current front (c ∷ r) b e =
      cut_from-frame k st (c ∷ current) front r b e
  cut_from-frame zero st current front (c ∷ r) b e =
      let s = step st current c r in
      let size : length (current ++ front) + 1 ≡ length ((c ∷ current) ++ front) = omega arith in
      rw (step-Boundary st current front c r b, size)
        (cut_from-add_end limit text front (c ∷ current) r s.terminated
            (run s.skip s.next (c ∷ current ++ front) r) e
          ∙ ground (
            arith,
            step-terminated st current c r,
            cut_from-frame s.skip s.next (c ∷ current) front r b e,
            λ (x : c ≡ b';'). cut_from-frame s.skip s.next [] (c ∷ current ++ front) r x e,
            cut_of-cons limit (c ∷ current) front (frame s.skip s.next [] r).statements,
          ))

cut_of-fits :
    (limit : Option ℕ) (start : ℕ) (ss : List Bytes)
    → cut_of limit start ss ≡ (
        if fits limit ss
        then some (record { statements = map statement ss; start = start + length (concat ss) })
        else none)
unfolding cut_of
cut_of-fits limit start [] = ground arith
cut_of-fits limit start (s ∷ ss) =
    ground (arith, cut_of-fits limit (start + length s) ss, length-append s (concat ss))

drop-frames :
    (text : Bytes) → drop (length (concat (frames text).statements)) text ≡ (frames text).pending
unfolding frames
drop-frames text =
    let f = frames text in
    rw (whole-frame 0 normal [] text) at (drop-length-append (concat f.statements) f.pending)

finish-frames :
    (limit : Option ℕ) (text : Bytes)
    → finish limit text (cut_of limit 0 (frames text).statements) ≡ push_spec limit text
unfolding finish push_spec
finish-frames limit text =
    rw (cut_of-fits limit 0 (frames text).statements)
      (ground (arith, drop-frames text, zero-add (length (concat (frames text).statements))))

-- A push does what the specification says, on every input and under every limit.
pub push_inner-push_spec :
    (stream : StatementStream) (input : Bytes) (limit : Option ℕ)
    → push_inner stream input limit ≡ push_spec limit (stream.pending ++ input)
unfolding push_inner terminated_statement_ends frames
push_inner-push_spec stream input limit =
    let text = stream.pending ++ input in
    ap (finish limit text) (cut_from-frame limit text 0 normal [] [] text tt refl)
    ∙ unfold frames in finish-frames limit text
