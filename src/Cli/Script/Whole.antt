-- ===== src/Cli/Script/Whole.antt =====
-- What a script runs does not depend on how it is read.
use mathlib.Core.Path.{subst}
use dsql_cli.Prelude.{
  ℕ, ◌≡◌, refl, sym, ap, ◌∙◌, Bool, true, false, not, Bool-cases, inl, inr, ◌⊎◌, Option, none, some,
  List, [], ◌∷◌, ◌++◌, map, append-nil, append_assoc, Bytes, Chars, length, take, drop, concat,
  ◌==◌, if◌then◌else◌, take-append-drop,
}
use dsql_cli.Error.{ApplicationError, Result, ok, err}
use dsql_cli.Sql.Stream.{
  Statement, StatementStream, statement, exceeds, empty, max_statement_bytes, push_bounded,
  pending_is_trivia,
}
use dsql_cli.Sql.Stream.Frames.{
  whole-frames, frames, Framing, fits, push_spec, push_inner-push_spec,
}
use dsql_cli.Sql.Stream.Chunks.{Quiet, frames-append}
use dsql_cli.Sql.Stream.Limits.{pending-frames}
use dsql_cli.Cli.Script.{
  incomplete, Chunk, chunk, unreadable, valid_bytes, Ran, and_then, execute_each, texts,
  finish_script, after_push, with_valid, read_chunks, execute_script_reader,
}

abbrev pub bytes_of : List Chunk → Bytes
bytes_of [] = []
bytes_of (chunk bytes ∷ chunks) = bytes ++ bytes_of chunks
bytes_of (unreadable ∷ chunks) = bytes_of chunks

module _ (S : Type 0) (execute : Bytes → S → S × Result (Unit {0})) (log : S → List Bytes) where
  -- The log grows by each statement that is executed.
  pub record LogsExecutions : Type 0 where
    pub executing : (b : Bytes) (s : S) → log (execute b s).0 ≡ log s ++ (b ∷ [])

  -- A run that succeeds has executed these statements, in order.
  abbrev Logged : List Bytes → S → Ran S execute → Type 0
  Logged more s (t, ok done) = log t ≡ log s ++ more
  Logged more s (t, err e) = Unit

  -- A run that succeeds has executed the statements of the text, and nothing is left of it but
  -- white space and comments.
  abbrev pub RanWhole : Bytes → S → Ran S execute → Type 0
  RanWhole text s (t, ok done) =
      (log t ≡ log s ++ (frames text).statements)
      × (pending_is_trivia (record { pending = (frames text).pending }) ≡ true)
  RanWhole text s (t, err e) = Unit

  module _ (L : LogsExecutions) where
    and_then-Logged :
        (a b : List Bytes) (s : S) (f : S → Ran S execute) (x : Ran S execute)
        → Logged a s x
        → ((t : S) → Logged b t (f t))
        → Logged (a ++ b) s (and_then S execute f x)
    and_then-Logged a b s f (t, err e) h g = tt
    and_then-Logged a b s f (t, ok done) h g = joined (f t) (g t)
      where
        joined : (y : Ran S execute) → Logged b t y → Logged (a ++ b) s y
        joined (u, err e) k = tt
        joined (u, ok done) k = k ∙ ap (λ (l : List Bytes). l ++ b) h ∙ append_assoc (log s) a b

    execute-Logged :
        (b : Bytes) (s : S) (x : Ran S execute) → log x.0 ≡ log s ++ (b ∷ []) → Logged (b ∷ []) s x
    execute-Logged b s (t, ok done) e = e
    execute-Logged b s (t, err error) e = tt

    execute_each-Logged : (l : List Bytes) (s : S) → Logged l s (execute_each S execute l s)
    unfolding execute_each
    execute_each-Logged [] s = sym (append-nil (log s))
    execute_each-Logged (b ∷ l) s =
        and_then-Logged (b ∷ []) l s (execute_each S execute l) (execute b s)
          (execute-Logged b s (execute b s) (L.executing b s)) (execute_each-Logged l)

    texts-statement : (l : List Bytes) → texts S execute (map statement l) ≡ l
    texts-statement [] = refl
    texts-statement (b ∷ l) = ap (λ (k : List Bytes). b ∷ k) (texts-statement l)

    -- The statements of a first part, and the run of the rest.
    and_then-RanWhole :
        (a : Bytes) (rest : Bytes) (s : S) (f : S → Ran S execute) (x : Ran S execute)
        → Logged (frames a).statements s x
        → ((t : S) → RanWhole ((frames a).pending ++ rest) t (f t))
        → RanWhole (a ++ rest) s (and_then S execute f x)
    and_then-RanWhole a rest s f (t, err e) h g = tt
    and_then-RanWhole a rest s f (t, ok done) h g = joined (f t) (g t)
      where
        joined :
            (y : Ran S execute)
            → RanWhole ((frames a).pending ++ rest) t y
            → RanWhole (a ++ rest) s y
        joined (u, err e) k = tt
        joined (u, ok done) k =
            let whole = frames-append a rest in
            let first = (frames a).statements in
            let second = (frames ((frames a).pending ++ rest)).statements in
            (
              k.0
                  ∙ ap (λ (l : List Bytes). l ++ second) h
                  ∙ append_assoc (log s) first second
                  ∙ ap (λ (f : Framing). log s ++ f.statements) (sym whole),
              rw whole k.1,
            )

    Quiet-pending : (p : Bytes) → Quiet (frames p) → (frames p).pending ≡ p
    Quiet-pending p q =
        ap (λ (l : List Bytes). concat l ++ (frames p).pending) (sym q) ∙ whole-frames p

    at_end :
        (stream : StatementStream) (s : S) (error : ApplicationError) (b : Bool)
        → Quiet (frames stream.pending)
        → pending_is_trivia stream ≡ b
        → RanWhole stream.pending s (if not b then (s, err error) else (s, ok tt))
    at_end stream s error false q e = tt
    at_end stream s error true q e = (
      sym (append-nil (log s)) ∙ ap (λ (l : List Bytes). log s ++ l) (sym q),
      rw (Quiet-pending stream.pending q) e,
    )

    finish_script-RanWhole :
        (source : Chars) (utf8 : Bytes) (stream : StatementStream) (s : S)
        → Quiet (frames stream.pending)
        → RanWhole (stream.pending ++ (utf8 ++ [])) s (finish_script S execute source utf8 stream s)
    unfolding finish_script
    finish_script-RanWhole source [] stream s q =
        rw (append-nil stream.pending)
          (at_end stream s (incomplete source) (pending_is_trivia stream) q refl)
    finish_script-RanWhole source (b ∷ utf8) stream s q = tt

    abbrev Rest : Type 0
    Rest = StatementStream → S → Ran S execute

    -- The rest of the chunks, from every stream that holds no whole statement.
    abbrev RestWhole : Bytes → Rest → Type 0
    RestWhole rest f =
        (stream : StatementStream) (s : S)
        → Quiet (frames stream.pending)
        → RanWhole (stream.pending ++ rest) s (f stream s)

    push_spec_cases :
        (text : Bytes)
        → ((stream : StatementStream) × (push_spec (some max_statement_bytes) text
              ≡ (stream, none)))
          ⊎ (push_spec (some max_statement_bytes) text ≡ (
            record { pending = (frames text).pending },
            some (map statement (frames text).statements),
          ))
    unfolding push_spec
    push_spec_cases text =
        elim (Bool-cases (fits (some max_statement_bytes) (frames text).statements)) [
          | inl e ↦
              (elim (Bool-cases
                (exceeds (some max_statement_bytes) (length (frames text).pending))) [
                  | inl g ↦ inl (record { pending = (frames text).pending }, rw (e, g) refl)
                  | inr g ↦ inr (rw (e, g) refl)
                ])
          | inr e ↦ inl (record { pending = text }, rw e refl)
        ]

    push_spec-RanWhole :
        (source : Chars) (f : Rest) (text rest : Bytes) (s : S)
        → RestWhole rest f
        → RanWhole
            (text ++ rest)
            s
            (after_push S execute source f (push_spec (some max_statement_bytes) text) s)
    push_spec-RanWhole source f text rest s g = elim (push_spec_cases text) [
      | inl (stream, e) ↦
          subst
            (λ (p : StatementStream × Option (List Statement)).
              RanWhole (text ++ rest) s (after_push S execute source f p s))
            (sym e) tt
      | inr e ↦
          subst
            (λ (p : StatementStream × Option (List Statement)).
              RanWhole (text ++ rest) s (after_push S execute source f p s))
            (sym e)
            (and_then-RanWhole text rest s (f (record { pending = (frames text).pending }))
              (execute_each S execute (texts S execute (map statement (frames text).statements)) s)
              (rw (texts-statement (frames text).statements)
                (execute_each-Logged (frames text).statements s))
              (λ t. g (record { pending = (frames text).pending }) t (pending-frames text)))
    ]

    push_bounded_lem :
        (stream : StatementStream) (input : Bytes)
        → push_bounded stream input max_statement_bytes
          ≡ push_spec (some max_statement_bytes) (stream.pending ++ input)
    unfolding push_bounded
    push_bounded_lem stream input = push_inner-push_spec stream input (some max_statement_bytes)

    cut_at :
        (n : ℕ) (before held rest : Bytes)
        → (before ++ take n held) ++ (drop n held ++ rest) ≡ before ++ (held ++ rest)
    cut_at n before held rest =
        append_assoc before (take n held) (drop n held ++ rest)
        ∙ ap (λ (b : Bytes). before ++ b)
            (sym (append_assoc (take n held) (drop n held) rest)
              ∙ ap (λ (b : Bytes). b ++ rest) (take-append-drop n held))

    with_valid-RanWhole :
        (source : Chars) (f : Bytes → Rest) (o : Option ℕ) (held rest : Bytes)
        (stream : StatementStream) (s : S)
        → Quiet (frames stream.pending)
        → ((utf8 : Bytes) → RestWhole (utf8 ++ rest) (f utf8))
        → RanWhole
            (stream.pending ++ (held ++ rest))
            s
            (with_valid S execute source f o held stream s)
    with_valid-RanWhole source f none held rest stream s q g = tt
    with_valid-RanWhole source f (some n) held rest stream s q g = elim (Bool-cases (n == 0)) [
      | inl e ↦ rw e (g held stream s q)
      | inr e ↦
          rw (e, push_bounded_lem stream (take n held))
            (subst
              (λ (b : Bytes). RanWhole b s (
                after_push S execute source (f (drop n held))
                  (push_spec (some max_statement_bytes) (stream.pending ++ take n held)) s))
              (cut_at n stream.pending held rest)
              (push_spec-RanWhole source (f (drop n held)) (stream.pending ++ take n held)
                (drop n held ++ rest) s (g (drop n held))))
    ]

    read_chunks-RanWhole :
        (source : Chars) (chunks : List Chunk) (utf8 : Bytes) (stream : StatementStream) (s : S)
        → Quiet (frames stream.pending)
        → RanWhole
            (stream.pending ++ (utf8 ++ bytes_of chunks))
            s
            (read_chunks S execute source chunks utf8 stream s)
    unfolding read_chunks
    read_chunks-RanWhole source [] utf8 stream s q = finish_script-RanWhole source utf8 stream s q
    read_chunks-RanWhole source (unreadable ∷ chunks) utf8 stream s q = tt
    read_chunks-RanWhole source (chunk bytes ∷ chunks) utf8 stream s q =
        rw (sym (append_assoc utf8 bytes (bytes_of chunks))) (
          with_valid-RanWhole source (read_chunks S execute source chunks)
            (valid_bytes (utf8 ++ bytes)) (utf8 ++ bytes) (bytes_of chunks) stream s q
            (λ carried t u r. read_chunks-RanWhole source chunks carried t u r))

    -- However a script is cut into chunks, a run of it that succeeds has executed the statements that
    -- its whole text is cut into, in their order and each once, and what is left of the text is white
    -- space and comments.
    pub execute_script_reader-RanWhole :
        (source : Chars) (chunks : List Chunk) (s : S)
        → RanWhole (bytes_of chunks) s (execute_script_reader S execute source chunks s)
    unfolding execute_script_reader
    execute_script_reader-RanWhole source chunks s =
        read_chunks-RanWhole source chunks [] empty s (unfold frames in refl)
