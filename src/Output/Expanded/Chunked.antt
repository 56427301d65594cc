-- ===== src/Output/Expanded/Chunked.antt =====
-- A value is written whole, in chunks of a bounded size.
use dsql_cli.Prelude.{
  ℕ, ◌+◌, ◌*◌, ◌≤◌, length, ◌≡◌, refl, sym, ap, ◌∙◌, arith, Bool, true, false, not, ◌&&◌,
  Bool-cases, inl, inr, Option, none, some, List, [], ◌∷◌, ◌++◌, Chars, byte_len, ltb, concat,
  concat-append, append-nil, append_assoc, All, All-append, if◌then◌else◌, is_control,
}
use dsql_cli.Error.{ok, err}
use dsql_cli.Output.{escape_terminal_text, escape_character}
use dsql_cli.Output.Columns.{Widths}
use dsql_cli.Output.Table.{WriteFailure, output, Writers}
use dsql_cli.Output.Expanded.{
  chunk_bytes, is_empty, ExpandedExecutionSink, Emitted, written, refuse_or, write_expanded,
  and_then, write_if, write_chunks, write_escaped_output,
}

byte_len-append : (s t : Chars) → byte_len (s ++ t) ≡ byte_len s + byte_len t
byte_len-append [] t = omega arith
byte_len-append (c ∷ s) t = omega (arith, byte_len-append s t)

byte_len-length : (s : Chars) → byte_len s ≤ 4 * length s
byte_len-length [] = omega arith
byte_len-length (c ∷ s) = (let h = byte_len-length s in ground arith)

escape_character-length : (c : ℕ) → length (escape_character c) ≤ 8
escape_character-length c = elim (Bool-cases (is_control c)) [
  | inl e ↦ ground arith
  | inr e ↦ ground arith
]

abbrev pub Small : Chars → Type 0
Small chunk = byte_len chunk ≤ chunk_bytes

escape_character-Small : (c : ℕ) → Small (escape_character c)
escape_character-Small c =
    omega (arith, byte_len-length (escape_character c), escape_character-length c)

module _ (S : Writers) (W : Widths) (log : S.World → List Chars) where
  -- A world whose writes succeed, with the log of what each of them wrote.
  pub record LogsWrites : Type 0 where
    pub succeeding : (value : Chars) (w : S.World) → (S.write_all output value w).1 ≡ none
    pub logging :
        (value : Chars) (w : S.World) → log (S.write_all output value w).0 ≡ log w ++ (value ∷ [])

  -- The writes between two states make up the text, each of them small.
  abbrev pub WroteChunks : Chars → ExpandedExecutionSink S W → Emitted S W → Type 0
  WroteChunks text s x =
      (chunks : List Chars) × (log x.0.world ≡ log s.world ++ chunks)
      × (concat chunks ≡ text)
      × All Small chunks
      × (x.0.failed ≡ none)
      × (x.1 ≡ ok tt)

  module _ (L : LogsWrites) where
    written-WroteChunks :
        (value : Chars) (s : ExpandedExecutionSink S W) (x : S.World × Option Bool)
        → Small value
        → s.failed ≡ none
        → log x.0 ≡ log s.world ++ (value ∷ [])
        → x.1 ≡ none
        → WroteChunks value s (written S W output s x)
    written-WroteChunks value s (w, none) small f e g =
        (value ∷ [], e, append-nil value, (small, tt), f, refl)
    written-WroteChunks value s (w, some pipe) small f e g = absurd (cc)

    refuse_or-WroteChunks :
        (value : Chars) (o : Option WriteFailure) (x : Emitted S W) (s : ExpandedExecutionSink S W)
        → o ≡ none
        → WroteChunks value s x
        → WroteChunks value s (refuse_or S W o x s)
    refuse_or-WroteChunks value none x s f h = h
    refuse_or-WroteChunks value (some failure) x s f h = absurd (cc)

    write-WroteChunks :
        (value : Chars) (s : ExpandedExecutionSink S W)
        → Small value
        → s.failed ≡ none
        → WroteChunks value s (write_expanded S W output value s)
    unfolding write_expanded
    write-WroteChunks value s small f =
        refuse_or-WroteChunks value s.failed
          (written S W output s (S.write_all output value s.world)) s f
          (written-WroteChunks value s (S.write_all output value s.world) small f
            (L.logging value s.world) (L.succeeding value s.world))

    nothing : (s : ExpandedExecutionSink S W) → s.failed ≡ none → WroteChunks [] s (s, ok tt)
    nothing s f = ([], sym (append-nil (log s.world)), refl, tt, f, refl)

    -- A chunk that is full is written, and none is written where it is not.
    flush-WroteChunks :
        (b : Bool) (chunk : Chars) (s : ExpandedExecutionSink S W)
        → Small chunk
        → s.failed ≡ none
        → WroteChunks (if b then chunk else []) s (write_if S W b chunk s)
    flush-WroteChunks true chunk s small f = write-WroteChunks chunk s small f
    flush-WroteChunks false chunk s small f = nothing s f

    and_then-WroteChunks :
        (a b : Chars) (s : ExpandedExecutionSink S W) (f : ExpandedExecutionSink S W → Emitted S W)
        (x : Emitted S W)
        → WroteChunks a s x
        → ((t : ExpandedExecutionSink S W) → t.failed ≡ none → WroteChunks b t (f t))
        → WroteChunks (a ++ b) s (and_then S W f x)
    and_then-WroteChunks a b s f (t, ok done) h g =
        let k = g t h.4 in
        (
          h.0 ++ k.0,
          k.1 ∙ ap (λ (l : List Chars). l ++ k.0) h.1 ∙ append_assoc (log s.world) h.0 k.0,
          concat-append h.0 k.0
              ∙ ap (λ (l : Chars). l ++ concat k.0) h.2
              ∙ ap (λ (l : Chars). a ++ l) k.2,
          All-append Small h.0 k.0 h.3 k.3,
          k.4,
          k.5,
        )
    and_then-WroteChunks a b s f (t, err e) h g = absurd (let d = h.5 in cc)

    next_text :
        (b : Bool) (chunk piece rest : Chars)
        → (if b then chunk else []) ++ ((if b then piece else chunk ++ piece) ++ rest)
          ≡ chunk ++ (piece ++ rest)
    next_text true chunk piece rest = refl
    next_text false chunk piece rest = append_assoc chunk piece rest

    chunk-Small :
        (chunk piece : Chars)
        → Small chunk
        → Small piece
        → Small (
            if ltb chunk_bytes (byte_len chunk + byte_len piece) && not (is_empty chunk)
            then piece
            else chunk ++ piece)
    chunk-Small [] piece h k = ground (arith, byte_len-append [] piece)
    chunk-Small (c ∷ s) piece h k = ground (arith, byte_len-append (c ∷ s) piece)

    last_chunk : (chunk : Chars) → (if not (is_empty chunk) then chunk else []) ≡ chunk ++ []
    last_chunk [] = refl
    last_chunk (c ∷ s) = sym (append-nil (c ∷ s))

    write_chunks-WroteChunks :
        (chunk value : Chars) (s : ExpandedExecutionSink S W)
        → Small chunk
        → s.failed ≡ none
        → WroteChunks (chunk ++ escape_terminal_text value) s (write_chunks S W chunk value s)
    unfolding write_chunks escape_terminal_text
    write_chunks-WroteChunks chunk [] s small f =
        rw (sym (last_chunk chunk)) (flush-WroteChunks (not (is_empty chunk)) chunk s small f)
    write_chunks-WroteChunks chunk (c ∷ value) s small f =
        let piece = escape_character c in
        let full = ltb chunk_bytes (byte_len chunk + byte_len piece) && not (is_empty chunk) in
        let held = if full then piece else chunk ++ piece in
        rw (sym (next_text full chunk piece (escape_terminal_text value))) (
          and_then-WroteChunks (if full then chunk else []) (held ++ escape_terminal_text value) s
            (write_chunks S W held value) (write_if S W full chunk s)
            (flush-WroteChunks full chunk s small f)
            (λ t g.
              write_chunks-WroteChunks held value t
                (chunk-Small chunk piece small (escape_character-Small c)) g))

    -- A value of any size is written as its escaped text, in order, by writes of at most 4096 bytes.
    pub write_escaped_output-WroteChunks :
        (value : Chars) (s : ExpandedExecutionSink S W)
        → s.failed ≡ none
        → WroteChunks (escape_terminal_text value) s (write_escaped_output S W value s)
    unfolding write_escaped_output
    write_escaped_output-WroteChunks value s f = write_chunks-WroteChunks [] value s (omega arith) f
