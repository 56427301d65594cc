-- ===== src/Error.antt =====
-- src/error.rs: the application's errors. A source (`with_source`) is not modelled: no caller of
-- this development's parts attaches one.
pub mod Redact
pub mod Sanitize
pub mod Clean
use dsql_cli.Prelude.{ℕ, Bool, true, false, Chars, codes}
use dsql_cli.Error.Sanitize.{sanitize_diagnostic}

pub data ErrorCategory : Type 0 where
  runtime_error usage_error interrupted_error : ErrorCategory

unfoldable pub exit_code : ErrorCategory → ℕ
exit_code runtime_error = 1
exit_code usage_error = 2
exit_code interrupted_error = 130

pub record ApplicationError : Type 0 where
  pub category : ErrorCategory
  pub diagnostic : Chars
  pub quiet : Bool

unfoldable pub new : ErrorCategory → Chars → ApplicationError
new category diagnostic = record {
  category = category;
  diagnostic = sanitize_diagnostic diagnostic;
  quiet = false;
}

unfoldable pub runtime : Chars → ApplicationError
unfolding new
runtime = new runtime_error

unfoldable pub usage : Chars → ApplicationError
unfolding new
usage = new usage_error

unfoldable pub interrupted : ApplicationError
unfolding new
interrupted = new interrupted_error (codes "interrupted")

unfoldable pub broken_pipe : Chars → ApplicationError
unfolding runtime
broken_pipe diagnostic = record (runtime diagnostic) { quiet = true }

-- A fallible call.
pub data Result {ℓ} (A : Type ℓ) : Type ℓ where
  ok : A → Result A
  err : ApplicationError → Result A
