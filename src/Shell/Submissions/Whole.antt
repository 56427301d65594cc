-- ===== src/Shell/Submissions/Whole.antt =====
-- What a submission is framed into.
use dsql_cli.Prelude.{
  ℕ, ◌≤◌, ◌≡◌, refl, ap, ◌∙◌, arith, Option, some, Bool-cases, inl, inr, List, [], ◌∷◌, map, Bytes,
  length, concat, length-append, if◌then◌else◌, ltb,
}
use dsql_cli.Error.{ok, err}
use dsql_cli.Sql.Keywords.{TransactionControl, classify_transaction_control}
use dsql_cli.Sql.Stream.{Statement, StatementStream, empty, statement, push_bounded}
use dsql_cli.Sql.Stream.Frames.{whole-frames, fits-concat, frames, push_spec, push_inner-push_spec}
use dsql_cli.Shell.Submissions.{
  too_large, ensure_submission_size, framed, frame_submission_with_limit, with_control,
}

abbrev pub classified : Bytes → Bytes × TransactionControl
classified s = (s, classify_transaction_control s)

map-classified : (ss : List Bytes) → map with_control (map statement ss) ≡ map classified ss
map-classified [] = refl
map-classified (s ∷ ss) =
    ap (λ (l : List (Bytes × TransactionControl)). classified s ∷ l) (map-classified ss)

pushed_whole :
    (input : Bytes) (limit : ℕ)
    → length input ≤ limit
    → (push_spec (some limit) input).1 ≡ some (map statement (frames input).statements)
unfolding push_spec
pushed_whole input limit h =
    let f = frames input in
    let size = ap length (whole-frames input) in
    let parts = length-append (concat f.statements) f.pending in
    rw (fits-concat limit f.statements (omega (arith, size, parts))) (ground (arith, size, parts))

framed-push_bounded :
    (input : Bytes) (limit : ℕ)
    → length input ≤ limit
    → framed (push_bounded empty input limit).1 ≡ ok (map classified (frames input).statements)
unfolding push_bounded
framed-push_bounded input limit h =
    ap framed (
      ap (λ (p : StatementStream × Option (List Statement)). p.1)
        (push_inner-push_spec empty input (some limit))
      ∙ pushed_whole input limit h)
    ∙ ap (λ (l : List (Bytes × TransactionControl)). ok l)
        (map-classified (frames input).statements)

-- A submission is refused exactly where it is over the limit, and never for one of its statements;
-- else it is the statements that its text is cut into, each with its transaction control.
pub frame_submission-frames :
    (input : Bytes) (limit : ℕ)
    → frame_submission_with_limit input limit ≡ (
        if ltb limit (length input)
        then err too_large
        else ok (map classified (frames input).statements))
unfolding frame_submission_with_limit ensure_submission_size
frame_submission-frames input limit = elim (Bool-cases (ltb limit (length input))) [
  | inl e ↦ rw e refl
  | inr e ↦ rw e (framed-push_bounded input limit (ground arith))
]
