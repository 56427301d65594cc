-- ===== src/Cli/Command.antt =====
-- The statements of a command: what is kept, and what is left out.
use dsql_cli.Prelude.{
  ℕ, ◌≤◌, ◌≡◌, refl, sym, ap, ◌∙◌, arith, Bool, true, false, not, none, some, ◌⊎◌, inl, inr, List,
  [], ◌∷◌, ◌++◌, map, append-nil, Bytes, codes, length, ltb, concat, concat-append, length-append,
  if◌then◌else◌, Bool-cases,
}
use dsql_cli.Error.{ApplicationError, usage, Result, ok, err}
use dsql_cli.Sql.Lexer.{lexical_completeness}
use dsql_cli.Sql.Keywords.{skip_trivia}
use dsql_cli.Sql.Stream.{
  Statement, empty, statement, is_complete, exceeds, push_bounded, pending_is_trivia,
  take_complete_statement,
}
use dsql_cli.Sql.Stream.Frames.{
  whole-frames, fits-concat, frames, Framing, push_spec, push_inner-push_spec, whole,
}
use dsql_cli.Cli.{with_last, with_rest, split_command_with_limit}

texts-statements : (ss : List Bytes) → map (λ (s : Statement). s.text) (map statement ss) ≡ ss
texts-statements [] = refl
texts-statements (s ∷ ss) = ap (◌∷◌ s) (texts-statements ss)

-- A command that is not too large is pushed without an error.
push_bounded-frames :
    (input : Bytes) (limit : ℕ)
    → ltb limit (length input) ≡ false
    → push_bounded empty input limit ≡ (
      record { pending = (frames input).pending },
      some (map statement (frames input).statements),
    )
unfolding push_bounded push_spec
push_bounded-frames input limit h =
    let f = frames input in
    let size = length-append (concat f.statements) f.pending in
    let total : length (whole f) ≡ length input = ap length (whole-frames input) in
    push_inner-push_spec empty input (some limit)
    ∙ rw (fits-concat limit f.statements (ground arith), pending_fits) refl
  where
    pending_fits : exceeds (some limit) (length (frames input).pending) ≡ false
    pending_fits =
        let f = frames input in
        let size = length-append (concat f.statements) f.pending in
        let total : length (whole f) ≡ length input = ap length (whole-frames input) in ground arith

-- Nothing but white space and comments.
abbrev pub is_trivia : Bytes → Bool
is_trivia rest = pending_is_trivia (record { pending = rest })

-- What is pending behind the statements, taken as a statement where it is one.
abbrev pub closing : Framing → Result (List Bytes)
closing f =
    if is_trivia f.pending
    then ok f.statements
    else if is_complete (lexical_completeness f.pending)
    then ok (f.statements ++ f.pending ∷ [])
    else err (usage (codes "command input ends with an incomplete SQL statement"))

texts-append :
    (ss : List Bytes) (s : Bytes)
    → map (λ (x : Statement). x.text) (map statement ss ++ statement s ∷ []) ≡ ss ++ s ∷ []
texts-append [] s = refl
texts-append (x ∷ ss) s = ap (◌∷◌ x) (texts-append ss s)

with_last-pending :
    (ss : List Bytes) (p : Bytes) (b : Bool)
    → with_last (map statement ss) (if b then none else some (statement p)) ≡ (
        if b
        then err (usage (codes "command input ends with an incomplete SQL statement"))
        else ok (ss ++ p ∷ []))
with_last-pending ss p true = refl
with_last-pending ss p false = ap ok (texts-append ss p)

take-pending :
    (p : Bytes)
    → is_trivia p ≡ false
    → (take_complete_statement (record { pending = p })).1
      ≡ (if not (is_complete (lexical_completeness p)) then none else some (statement p))
unfolding take_complete_statement
take-pending p h = ground arith

with_rest-closing :
    (f : Framing)
    → with_rest (record { pending = f.pending }, some (map statement f.statements)) ≡ closing f
with_rest-closing f = elim (Bool-cases (is_trivia f.pending)) [
  | inl trivia ↦ rw (trivia, texts-statements f.statements)
  | inr other ↦
      rw
        (
          other,
          take-pending f.pending other,
          with_last-pending f.statements f.pending
              (not (is_complete (lexical_completeness f.pending))),
        )
        (ground arith)
]

-- A command within the limit is cut at its terminating semicolons; what is left is dropped where
-- it is white space and comments, taken as a last statement where it is complete, and an error
-- otherwise. No such command fails for its size.
pub split_command_with_limit-closing :
    (input : Bytes) (limit : ℕ)
    → length input ≤ limit
    → split_command_with_limit input limit ≡ closing (frames input)
unfolding split_command_with_limit
split_command_with_limit-closing input limit h =
    let small : ltb limit (length input) ≡ false = ground arith in
    rw (small, push_bounded-frames input limit small, with_rest-closing (frames input))

ok-injective : (a b : List Bytes) → ok a ≡ ok b → a ≡ b
ok-injective a b h = cc

chosen :
    (t c : Bool) (a b ss : List Bytes) (e : ApplicationError)
    → (if t then ok a else if c then ok b else err e) ≡ ok ss
    → ((t ≡ true) × (a ≡ ss)) ⊎ (b ≡ ss)
chosen true c a b ss e h = inl (refl, ok-injective a ss h)
chosen false true a b ss e h = inr (ok-injective b ss h)
chosen false false a b ss e h = absurd (grind arith)

nothing-is_trivia : is_trivia [] ≡ true
unfolding pending_is_trivia lexical_completeness skip_trivia
nothing-is_trivia = refl

closing-lossless :
    (f : Framing) (ss : List Bytes)
    → closing f ≡ ok ss
    → (rest : Bytes) × (concat ss ++ rest ≡ whole f) × (is_trivia rest ≡ true)
closing-lossless f ss h =
    elim (chosen (is_trivia f.pending) (is_complete (lexical_completeness f.pending)) f.statements
      (f.statements ++ f.pending ∷ []) ss
      (usage (codes "command input ends with an incomplete SQL statement")) h) [
        | inl trivia ↦ (f.pending, ap (λ x. concat x ++ f.pending) (sym trivia.1), trivia.0)
        | inr last ↦ (
          [],
          append-nil (concat ss)
              ∙ ap concat (sym last)
              ∙ concat-append f.statements (f.pending ∷ [])
              ∙ ap (λ x. concat f.statements ++ x) (append-nil f.pending),
          nothing-is_trivia,
        )
      ]

-- The statements of a command are all of it, in order, but for white space and comments at its
-- end.
pub split_command_with_limit-concat :
    (input : Bytes) (limit : ℕ) (ss : List Bytes)
    → length input ≤ limit
    → split_command_with_limit input limit ≡ ok ss
    → (rest : Bytes) × (concat ss ++ rest ≡ input) × (is_trivia rest ≡ true)
split_command_with_limit-concat input limit ss small h =
    let kept =
      closing-lossless (frames input) ss
        (sym (split_command_with_limit-closing input limit small) ∙ h) in
    (kept.0, kept.1 ∙ whole-frames input, kept.2)
