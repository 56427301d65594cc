-- ===== src/Shell/Submissions.antt =====
-- src/shell/mod.rs: a submitted text is bounded and framed into statements, and a change of the
-- schema makes the completions stale.
pub mod Whole
use dsql_cli.Prelude.{
  ℕ, Bool, true, false, not, ◌||◌, Option, none, some, List, map, Bytes, Chars, codes, length, ltb,
  if◌then◌else◌,
}
use dsql_cli.Error.{ApplicationError, usage, Result, ok, err}
use dsql_cli.App.Data.{TransactionState, MetadataSnapshot, invalidate}
use dsql_cli.App.Session.{is_idle}
use dsql_cli.Sql.Keywords.{TransactionControl, is_schema_changing}
use dsql_cli.Sql.Stream.{Statement, StatementStream, empty, push_bounded, max_statement_bytes}

abbrev pub too_large : ApplicationError
too_large = usage (codes "interactive input is larger than 16 MiB")

unfoldable pub ensure_submission_size : Bytes → ℕ → Result (Unit {0})
ensure_submission_size input max_input_bytes =
    if ltb max_input_bytes (length input) then err too_large else ok tt

abbrev pub submission_too_large : ApplicationError
submission_too_large = usage (codes "interactive input contains a SQL statement larger than 16 MiB")

abbrev pub with_control : Statement → Bytes × TransactionControl
with_control s = (s.text, s.transaction_control)

abbrev pub framed : Option (List Statement) → Result (List (Bytes × TransactionControl))
framed none = err submission_too_large
framed (some statements) = ok (map with_control statements)

abbrev pub push_when : Bytes → ℕ → Result (Unit {0}) → Result (List (Bytes × TransactionControl))
push_when input limit (err e) = err e
push_when input limit (ok done) = framed (push_bounded empty input limit).1

unfoldable pub frame_submission_with_limit : Bytes → ℕ → Result (List (Bytes × TransactionControl))
unfolding ensure_submission_size
frame_submission_with_limit input limit = push_when input limit (ensure_submission_size input limit)

unfoldable pub frame_submission : Bytes → Result (List (Bytes × TransactionControl))
unfolding frame_submission_with_limit
frame_submission input = frame_submission_with_limit input max_statement_bytes

unfoldable pub refresh_allowed : TransactionState → Bool
refresh_allowed state = is_idle state

-- The snapshot, `hint_shown` and whether the hint is due.
unfoldable pub invalidate_after_schema_change :
    MetadataSnapshot → Bytes → Bool → Bool → MetadataSnapshot × Bool × Bool
invalidate_after_schema_change snapshot statement succeeded hint_shown =
    if not succeeded || not (is_schema_changing statement)
    then (snapshot, hint_shown, false)
    else (invalidate snapshot, true, not hint_shown)
