-- ===== src/Sql/Stream/Limits.antt =====
-- The limit on a statement's size is one on statements, not on chunks or on the whole input.
use dsql_cli.Prelude.{
  ℕ, zero, suc, ◌+◌, ◌≤◌, ◌≡◌, refl, ap, true, false, ◌&&◌, Option, none, some, List, [], ◌∷◌, ◌++◌,
  map, Bytes, arith, length, if◌then◌else◌, append-nil, min, length-rev_onto, append_assoc,
  length-append, Bool-cases, inl, inr, ◌>>=◌,
}
use mathlib.Core.List.{map-append}
use dsql_cli.Sql.Lexer.{LexicalState, normal, step}
use dsql_cli.Sql.Lexer.Lookahead.{step-Diverges}
use dsql_cli.Sql.Stream.{Statement, StatementStream, statement, exceeds, push_inner}
use dsql_cli.Sql.Stream.Frames.{Framing, frame, frames, fits, push_spec, push_inner-push_spec}
use dsql_cli.Sql.Stream.Chunks.{Quiet, frames-append, frame-inside, frame-end, frame-skip}

-- The size of the first piece of a framing.
abbrev first_size : List Bytes → Bytes → ℕ
first_size [] pending = length pending
first_size (s ∷ ss) pending = length s

abbrev first : Framing → ℕ
first f = first_size f.statements f.pending

-- No piece is shorter than what was read before a statement can end.
first-frame :
    (k : ℕ) (st : LexicalState) (current r : Bytes)
    → length current + min k (length r) ≤ first (frame k st current r)
first-frame k st current [] = unfold frame in omega (arith, length-rev_onto current [])
first-frame (suc k) st current (c ∷ r) =
    rw (frame-skip k st current c r) (omega (arith, first-frame k st (c ∷ current) r))
first-frame zero st current (c ∷ r) = elim (Bool-cases (step st current c r).terminated) [
  | inl t ↦ rw (frame-end st current c r t) (omega (arith, length-rev_onto (c ∷ current) []))
  | inr f ↦ rw (frame-inside st current c r f) (
      omega
        (arith, first-frame (step st current c r).skip (step st current c r).next (c ∷ current) r))
]

first-append :
    (k : ℕ) (st : LexicalState) (current a b : Bytes)
    → Quiet (frame k st current a)
    → length current + length a ≤ first (frame k st current (a ++ b))
first-append k st current [] b q = omega (arith, first-frame k st current b)
first-append (suc k) st current (c ∷ a) b q =
    rw (frame-skip k st current c (a ++ b))
      (omega (arith, first-append k st (c ∷ current) a b (rw (frame-skip k st current c a) at q)))
first-append zero st current (c ∷ a) b q = elim (step-Diverges st current c a b) [
  | inr d ↦ rw (frame-inside st current c (a ++ b) d.goes_on) (
      omega (
        arith,
        d.passes,
        length-append a b,
        first-frame (step st current c (a ++ b)).skip (step st current c (a ++ b)).next
            (c ∷ current) (a ++ b),
      ))
  | inl same ↦ elim (Bool-cases (step st current c a).terminated) [
    | inl t ↦ cc (rw (frame-end st current c a t) at q)
    | inr f ↦
        rw (frame-inside st current c (a ++ b) (rw same f), same)
          (omega (
            arith,
            first-append (step st current c a).skip (step st current c a).next (c ∷ current) a b
                (rw (frame-inside st current c a f) at q),
          ))
  ]
]

pub pending-frames : (a : Bytes) → Quiet (frames (frames a).pending)
pending-frames a =
    no_more (frames a).statements (frames (frames a).pending).statements
      (rw append-nil at (rw append-nil at (ap (λ f. f.statements) (frames-append a []))))
  where
    no_more : (xs ys : List Bytes) → xs ≡ xs ++ ys → ys ≡ []
    no_more xs [] e = refl
    no_more xs (y ∷ ys) e =
        absurd (omega (arith, ap (λ (l : List Bytes). length l) e, length-append xs (y ∷ ys)))

-- What is pending never outgrows the piece that it becomes part of.
pending-le-first :
    (a b : Bytes) → length (frames a).pending ≤ first (frames ((frames a).pending ++ b))
unfolding frames
pending-le-first a b =
    omega (arith, first-append 0 normal [] (frames a).pending b (unfold frames in pending-frames a))

exceeds_mono :
    (limit : Option ℕ) (n m : ℕ) → n ≤ m → exceeds limit m ≡ false → exceeds limit n ≡ false
exceeds_mono none n m h e = refl
exceeds_mono (some k) n m h e = ground arith

exceeds-first :
    (limit : Option ℕ) (ss : List Bytes) (pending : Bytes)
    → fits limit ss ≡ true
    → exceeds limit (length pending) ≡ false
    → exceeds limit (first_size ss pending) ≡ false
exceeds-first limit [] pending f e = e
exceeds-first limit (s ∷ ss) pending f e = ground arith

fits-append :
    (limit : Option ℕ) (ss ts : List Bytes)
    → fits limit (ss ++ ts) ≡ (fits limit ss && fits limit ts)
fits-append limit [] ts = refl
fits-append limit (s ∷ ss) ts = ground (arith, fits-append limit ss ts)

-- The stream and the statements of a push that was not refused.
abbrev pub pushed :
    StatementStream × Option (List Statement) → Option (StatementStream × List Statement)
pushed (stream, none) = none
pushed (stream, some statements) = some (stream, statements)

-- Pushing `b` where `a` left the stream, behind the statements of `a`.
abbrev pub push_next :
    Bytes → Option ℕ → StatementStream × List Statement → Option (StatementStream × List Statement)
push_next b limit (stream, statements) = do
  (stream', more) ← pushed (push_inner stream b limit)
  some (stream', statements ++ more)

-- The two ways, with the framings as variables.
limits_agree :
    (limit : Option ℕ) (text text' text'' : Bytes) (f g : Framing)
    → length f.pending ≤ first g
    → pushed (
        if fits limit (f.statements ++ g.statements)
        then (
          record { pending = g.pending },
          (if exceeds limit (length g.pending)
              then none
              else some (map statement (f.statements ++ g.statements))),
        )
        else (record { pending = text }, none))
      ≡ (do
        (stream, statements) ← pushed (
            if fits limit f.statements
            then (
              record { pending = f.pending },
              (if exceeds limit (length f.pending)
                  then none
                  else some (map statement f.statements)),
            )
            else (record { pending = text' }, none))
        (stream', more) ← pushed (
            if fits limit g.statements
            then (
              record { pending = g.pending },
              (if exceeds limit (length g.pending)
                  then none
                  else some (map statement g.statements)),
            )
            else (record { pending = text'' }, none))
        some (stream', statements ++ more))
limits_agree limit text text' text'' f g h = ground (
  arith,
  fits-append limit f.statements g.statements,
  exceeds-first limit g.statements g.pending,
  exceeds_mono limit (length f.pending) (first g) h,
  map-append statement f.statements g.statements,
)

push_next-push_spec :
    (limit : Option ℕ) (text b : Bytes)
    → (pushed (push_spec limit text) >>= push_next b limit) ≡ (do
      (stream, statements) ← pushed (push_spec limit text)
      (stream', more) ← pushed (push_spec limit ((frames text).pending ++ b))
      some (stream', statements ++ more))
unfolding push_spec
push_next-push_spec limit text b =
    ground (arith, push_inner-push_spec (record { pending = (frames text).pending }) b limit)

push_spec-append :
    (limit : Option ℕ) (text b : Bytes)
    → pushed (push_spec limit (text ++ b)) ≡ (pushed (push_spec limit text) >>= push_next b limit)
push_spec-append limit text b = rw (push_next-push_spec limit text b) (
    unfold push_spec in
    rw (frames-append text b) (
      limits_agree limit (text ++ b) text ((frames text).pending ++ b) (frames text)
        (frames ((frames text).pending ++ b)) (pending-le-first text b)))

-- Pushing a text in two parts gives, under every limit, what pushing it whole gives: the same
-- statements and the same pending text, and it is refused if and only if one of the parts is.
pub push_inner-append :
    (stream : StatementStream) (a b : Bytes) (limit : Option ℕ)
    → pushed (push_inner stream (a ++ b) limit)
      ≡ (pushed (push_inner stream a limit) >>= push_next b limit)
push_inner-append stream a b limit =
    rw
      (
        push_inner-push_spec stream (a ++ b) limit,
        push_inner-push_spec stream a limit,
        ← append_assoc,
      )
      (push_spec-append limit (stream.pending ++ a) b)
