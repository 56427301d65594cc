-- ===== src/Shell/Execution.antt =====
-- src/shell/mod.rs, `execute_with_signals`: a statement, the signals of the user and the
-- cancellation. What `select!` observes, in its order, is a trace of occurrences; a future that is
-- dropped is never observed again.
pub mod Settled
use dsql_cli.Prelude.{
  ℕ, Bool, true, false, not, ◌||◌, Option, none, some, ◌>>=◌, List, [], ◌∷◌, Chars, codes,
  if◌then◌else◌,
}
use dsql_cli.Error.{ApplicationError, runtime, Result, ok, err}
use dsql_cli.App.Data.{ExecutionEvent}
use dsql_cli.App.Session.{Environment, ManagedSession, mark_uncertain}

pub data QuerySignal : Type 0 where
  interrupt terminate : QuerySignal

pub record StatementExecution : Type 0 where
  pub result : Result (Unit {0})
  pub cancellation_failed : Bool

-- Where the coordination waits: for the statement or a signal, with the flags `interrupted` and
-- `cancellation_failed`; for the cancellation that was requested; or nowhere.
pub data Phase : Type 0 where
  waiting : Bool → Bool → Phase
  cancelling : Phase
  ended : Result StatementExecution → Phase

abbrev pub terminated_text : Chars
terminated_text =
    codes
      "terminated during database statement; statement outcome may be unknown and was not replayed"

abbrev pub still_running_text : Chars
still_running_text =
    codes
      "database statement is still running after cancellation; interrupt again ended the interactive shell without replaying the statement"

abbrev pub monitor_text : Chars
monitor_text = codes "interactive shell signal monitor stopped unexpectedly"

abbrev pub unavailable_text : Chars
unavailable_text = codes "database connection is unavailable for cancellation"

abbrev pub failed_execution : Chars → Phase
failed_execution text =
    ended (ok (record { result = err (runtime text); cancellation_failed = true }))

-- A signal, or the end of the channel, while the statement runs.
unfoldable pub receive : Bool → Bool → Option QuerySignal → Phase
receive has_handle interrupted (some terminate) = ended (err (runtime terminated_text))
receive has_handle true (some interrupt) = ended (err (runtime still_running_text))
receive true false (some interrupt) = cancelling
receive false false (some interrupt) = failed_execution unavailable_text
receive has_handle interrupted none = ended (err (runtime monitor_text))

-- The same while the cancellation is awaited.
unfoldable pub receive_cancelling : Option QuerySignal → Phase
receive_cancelling (some terminate) = ended (err (runtime terminated_text))
receive_cancelling (some interrupt) = ended (err (runtime still_running_text))
receive_cancelling none = failed_execution monitor_text

abbrev pub is_err {ℓ} : {A : Type ℓ} → Result A → Bool
is_err (ok a) = false
is_err (err e) = true

pub data Occurrence : Type 0 where
  execution_finished : Result (Unit {0}) → Occurrence
  signalled : Option QuerySignal → Occurrence
  cancellation_returned : Result (Unit {0}) → Occurrence

-- One `select!`; none where no branch observes the occurrence. While the cancellation is awaited
-- the statement is not polled.
unfoldable pub observe : Bool → Phase → Occurrence → Option Phase
unfolding receive receive_cancelling
observe has_handle (waiting interrupted failed) (execution_finished result) =
    some (ended (ok (record { result = result; cancellation_failed = failed })))
observe has_handle (waiting interrupted failed) (signalled signal) =
    some (receive has_handle interrupted signal)
observe has_handle cancelling (signalled signal) = some (receive_cancelling signal)
observe has_handle cancelling (cancellation_returned result) = some (waiting true (is_err result))
observe has_handle _ _ = none

unfoldable pub coordinate : Bool → Phase → List Occurrence → Option Phase
unfolding observe
coordinate has_handle phase [] = some phase
coordinate has_handle phase (occurrence ∷ trace) =
    observe has_handle phase occurrence >>= λ next. coordinate has_handle next trace

abbrev pub start : Phase
start = waiting false false

-- `output_interrupted` is set by the first interrupt.
abbrev pub output_interrupted : Phase → Bool
output_interrupted (waiting interrupted failed) = interrupted
output_interrupted cancelling = true
output_interrupted (ended o) = true

-- Whether the session is marked uncertain at the end.
unfoldable pub leaves_uncertain : Result StatementExecution → Bool
leaves_uncertain (ok execution) = execution.cancellation_failed
leaves_uncertain (err e) = true

module _ (E : Environment) where
  unfoldable pub settle : Result StatementExecution → ManagedSession E → ManagedSession E
  unfolding leaves_uncertain mark_uncertain
  settle outcome session = if leaves_uncertain outcome then mark_uncertain E session else session

-- `InterruptibleExecutionSink`: behind an interrupt every event is swallowed.
unfoldable pub emit_interruptible {ℓ} :
    {Sink : Type ℓ}
    → (ExecutionEvent → Sink → Sink × Result (Unit {0}))
    → Bool
    → ExecutionEvent
    → Sink
    → Sink × Result (Unit {0})
emit_interruptible emit interrupted event sink =
    if interrupted then (sink, ok tt) else emit event sink
