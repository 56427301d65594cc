-- ===== src/Sql/Stream/Chunks.antt =====
-- The chunks in which input arrives do not matter: pushing a text in two parts frames the
-- statements that pushing it whole does.
use dsql_cli.Prelude.{
  ℕ, zero, suc, ◌<◌, ◌≡◌, refl, sym, ap, ◌∙◌, true, false, List, [], ◌∷◌, ◌++◌, Bytes, All, arith,
  length, concat, rev_onto, rev_onto_split, Bool-cases, inl, inr, starts_with_le,
}
use dsql_cli.Sql.Lexer.{
  LexicalState, normal, dollar_quoted_string, step, step_normal, step_dollar,
  is_identifier_continue,
}
use dsql_cli.Sql.Lexer.Boundary.{step_terminated}
use dsql_cli.Sql.Lexer.Lookahead.{Diverges, Agrees, step-Diverges}
use dsql_cli.Sql.Lexer.Tags.{TagByte}
use dsql_cli.Sql.Stream.Frames.{Framing, frame, frames, whole-frame}

-- No statement ends in the text.
abbrev pub Quiet : Framing → Type 0
Quiet f = f.statements ≡ []

-- A dollar-quoted string whose delimiter is longer than the text does not close in it.
frame-dollar :
    (k : ℕ) (d current r : Bytes)
    → length r < length d
    → Quiet (frame k (dollar_quoted_string d) current r)
unfolding frame step step_dollar
frame-dollar k d current [] h = refl
frame-dollar (suc k) d current (c ∷ r) h = frame-dollar k d (c ∷ current) r (omega arith)
frame-dollar zero d current (c ∷ r) h =
    ground (arith, starts_with_le (c ∷ r) d, frame-dollar 0 d (c ∷ current) r)

step-TagByte :
    (current : Bytes) (c : ℕ) (r : Bytes)
    → TagByte c
    → step normal current c r ≡ record { next = normal; skip = 0; terminated = false }
unfolding step step_normal is_identifier_continue
step-TagByte current c r h = ground arith

frame-TagByte : (current r : Bytes) → All TagByte r → Quiet (frame 0 normal current r)
unfolding frame
frame-TagByte current [] h = refl
frame-TagByte current (c ∷ r) h =
    rw (step-TagByte current c r h.0) (frame-TagByte (c ∷ current) r h.1)

frame-nil :
    (k : ℕ) (st : LexicalState) (current a : Bytes) → length a ≡ 0 → Quiet (frame k st current a)
unfolding frame
frame-nil k st current [] h = refl
frame-nil k st current (c ∷ a) h = absurd (omega arith)

Diverges-Quiet :
    (st : LexicalState) (current : Bytes) (c : ℕ) (a b : Bytes)
    → Diverges st current c a b
    → Quiet (frame 0 st current (c ∷ a))
unfolding frame
Diverges-Quiet st current c a b d = rw d.quiet (elim d.silent [
  | inl e ↦ frame-nil _ _ _ a e
  | inr (inl (e, tags)) ↦ rw e (frame-TagByte (c ∷ current) a tags)
  | inr (inr (delimiter, e, short)) ↦ rw e (frame-dollar 0 delimiter (c ∷ current) a short)
])

-- The statements of one framing in front of those of the next.
abbrev pub prepend : List Bytes → Framing → Framing
prepend ss f = record f { statements = ss ++ f.statements }

pending-Quiet :
    (k : ℕ) (st : LexicalState) (current a : Bytes)
    → Quiet (frame k st current a)
    → (frame k st current a).pending ≡ rev_onto current a
pending-Quiet k st current a q =
    rw (ap (λ ss. concat ss ++ (frame k st current a).pending) q) at (whole-frame k st current a)

-- A framing of `a` goes on over `b` as one that starts over on what `a` left pending.
abbrev GoesOn : ℕ → LexicalState → Bytes → Bytes → Bytes → Type 0
GoesOn k st current a b =
    frame k st current (a ++ b)
    ≡ prepend (frame k st current a).statements (frames ((frame k st current a).pending ++ b))

Quiet-GoesOn :
    (k : ℕ) (st : LexicalState) (current a b : Bytes)
    → Quiet (frame k st current a)
    → frame k st current (a ++ b) ≡ frames (rev_onto current (a ++ b))
    → GoesOn k st current a b
Quiet-GoesOn k st current a b q e =
    rw (q, pending-Quiet k st current a q) (e ∙ ap frames (rev_onto_split current a b))

pub frame-inside :
    (st : LexicalState) (current : Bytes) (c : ℕ) (r : Bytes)
    → (step st current c r).terminated ≡ false
    → frame 0 st current (c ∷ r)
      ≡ frame (step st current c r).skip (step st current c r).next (c ∷ current) r
unfolding frame
frame-inside st current c r h = rw h

pub frame-end :
    (st : LexicalState) (current : Bytes) (c : ℕ) (r : Bytes)
    → (step st current c r).terminated ≡ true
    → frame 0 st current (c ∷ r) ≡ prepend (rev_onto (c ∷ current) [] ∷ []) (frames r)
unfolding frame frames
frame-end st current c r h = rw (step_terminated st current c r h).1

frames-frame : (r : Bytes) → frame 0 normal [] r ≡ frames r
unfolding frames
frames-frame r = refl

pub frame-skip :
    (k : ℕ) (st : LexicalState) (current : Bytes) (c : ℕ) (r : Bytes)
    → frame (suc k) st current (c ∷ r) ≡ frame k st (c ∷ current) r
unfolding frame
frame-skip k st current c r = refl

-- One round over a byte where both texts agree.
GoesOn-inside :
    (st : LexicalState) (current : Bytes) (c : ℕ) (a b : Bytes)
    → Agrees st current c a b
    → (step st current c a).terminated ≡ false
    → GoesOn (step st current c a).skip (step st current c a).next (c ∷ current) a b
    → GoesOn 0 st current (c ∷ a) b
GoesOn-inside st current c a b same f g =
    let f' : (step st current c (a ++ b)).terminated ≡ false = rw same f in
    rw (frame-inside st current c (a ++ b) f', frame-inside st current c a f, same) g

GoesOn-end :
    (st : LexicalState) (current : Bytes) (c : ℕ) (a b : Bytes)
    → Agrees st current c a b
    → (step st current c a).terminated ≡ true
    → GoesOn 0 normal [] a b
    → GoesOn 0 st current (c ∷ a) b
GoesOn-end st current c a b same t g =
    let t' : (step st current c (a ++ b)).terminated ≡ true = rw same t in
    rw (frame-end st current c (a ++ b) t', frame-end st current c a t)
      (ap (prepend (rev_onto (c ∷ current) [] ∷ [])) (unfold frames in g))

frame-append :
    (k : ℕ) (st : LexicalState) (current a b : Bytes)
    → frame k st current (a ++ b) ≡ frames (rev_onto current (a ++ b))
    → GoesOn k st current a b
frame-append k st current [] b e = Quiet-GoesOn k st current [] b (unfold frame in refl) e
frame-append (suc k) st current (c ∷ a) b e =
    rw (frame-skip k st current c (a ++ b), frame-skip k st current c a)
      (frame-append k st (c ∷ current) a b (sym (frame-skip k st current c (a ++ b)) ∙ e))
frame-append zero st current (c ∷ a) b e = elim (step-Diverges st current c a b) [
  | inr d ↦ Quiet-GoesOn 0 st current (c ∷ a) b (Diverges-Quiet st current c a b d) e
  | inl same ↦ elim (Bool-cases (step st current c a).terminated) [
    | inl t ↦
        GoesOn-end st current c a b same t (frame-append 0 normal [] a b (frames-frame (a ++ b)))
    | inr f ↦ GoesOn-inside st current c a b same f (
        frame-append (step st current c a).skip (step st current c a).next (c ∷ current) a b
          (inside same f e))
  ]
]
  where
    inside :
        Agrees st current c a b
        → (step st current c a).terminated ≡ false
        → frame 0 st current (c ∷ (a ++ b)) ≡ frames (rev_onto current (c ∷ (a ++ b)))
        → frame (step st current c a).skip (step st current c a).next (c ∷ current) (a ++ b)
          ≡ frames (rev_onto (c ∷ current) (a ++ b))
    inside same f e =
        let f' : (step st current c (a ++ b)).terminated ≡ false = rw same f in
        rw same at (sym (frame-inside st current c (a ++ b) f')) ∙ e

-- Framing is incremental: the framing of `a ++ b` is that of `a`, with `b` read behind what `a`
-- left pending.
pub frames-append :
    (a b : Bytes)
    → frames (a ++ b) ≡ prepend (frames a).statements (frames ((frames a).pending ++ b))
frames-append a b = unfold frames in frame-append 0 normal [] a b (frames-frame (a ++ b))
