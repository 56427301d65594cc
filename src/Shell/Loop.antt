-- ===== src/Shell/Loop.antt =====
-- src/shell/mod.rs, `run`: the state of the shell, and how it runs the statements of a line.
pub mod Hints
pub mod Statements
pub mod Success
use dsql_cli.Prelude.{
  ℕ, Bool, true, false, not, ◌&&◌, Option, none, some, List, [], ◌∷◌, ◌++◌, Bytes, Chars, codes,
  as_bytes, if◌then◌else◌,
}
use dsql_cli.Error.{ApplicationError, runtime, Result, ok, err}
use dsql_cli.App.Data.{SessionMetadata, MetadataSnapshot, empty_snapshot}
use dsql_cli.App.Session.{
  Environment, ManagedSession, Request, simple, with_params, mark_uncertain, take_reconnected,
  reconnect_state,
}
use dsql_cli.Sql.Keywords.{TransactionControl}
use dsql_cli.Sql.Queries.{MetadataQuery, sql, params}
use dsql_cli.Sql.Stream.{max_statement_bytes}
use dsql_cli.Shell.{ShellSettings, mode_auto}
use dsql_cli.Shell.Commands.{
  ShellCommandState, RefreshState, not_requested, requested, CommandAction, continue, dashboard,
  exit, MetadataRequest, relations, tables, schemas, roles, CommandResult, Executed, not_a_command,
  executed, failed, crashed, execute_with_reconnect_state, trim, is_empty,
}
use dsql_cli.Shell.Execution.{
  StatementExecution, Phase, waiting, cancelling, ended, Occurrence, coordinate, start, settle,
}
use dsql_cli.Shell.Submissions.{
  ensure_submission_size, frame_submission, refresh_allowed, invalidate_after_schema_change,
}

unfoldable pub metadata_query : MetadataRequest → MetadataQuery × Option Chars
metadata_query (relations pattern) = (MetadataQuery.relations, pattern)
metadata_query (tables pattern) = (MetadataQuery.tables, pattern)
metadata_query (schemas pattern) = (MetadataQuery.schemas, pattern)
metadata_query roles = (MetadataQuery.roles, none)

-- What the shell prints itself; the rows go to the sinks.
pub data Line : Type 0 where
  error_line : ApplicationError → Line
  refused_line : Chars → Line
  message_line : Chars → Line
  stale_notice reconnect_notice refresh_refused : Line
  refreshed : Bool → Line

-- What the shell's session runs on, beside the environment. `drive` is a statement under way: its
-- effects up to the end of the coordination, whether it had a cancellation handle, and what was
-- observed. `monitor` is the error of `query_signal_monitor`, if any.
pub record Runtime (E : Environment) : Type 0 where
  pub drive :
      Request → E.World × ManagedSession E → (E.World × ManagedSession E) × Bool × List Occurrence
  pub monitor : E.World → Option ApplicationError
  pub now : E.World → ℕ
  pub load_managed_snapshot :
      E.World × ManagedSession E → (E.World × ManagedSession E) × MetadataSnapshot
  pub run_in_shell : E.World → E.World × Option (Result (Unit {0}))

-- What the loop does next: read a line, leave the statements of this one, return, or wait for ever;
-- and a panic.
pub data Flow : Type 0 where
  next stop hung panic : Flow
  returned : Result (Unit {0}) → Flow

abbrev pub termination_error : ApplicationError
termination_error = runtime (codes "terminated while the interactive shell was active")

-- What the editor returns; or that it was not started; or the termination that comes instead of
-- its line, or during the first load, whose effects are then not followed.
pub data Reading : Type 0 where
  success : Chars → Reading
  ctrl_c ctrl_d other_signal read_error editor_stopped terminated : Reading
  editor_not_started terminated_in_load : Reading

abbrev pub is_dashboard : CommandAction → Bool
is_dashboard dashboard = true
is_dashboard continue = false
is_dashboard exit = false

abbrev pub is_exit : CommandAction → Bool
is_exit exit = true
is_exit continue = false
is_exit dashboard = false

abbrev pub is_requested : RefreshState → Bool
is_requested requested = true
is_requested not_requested = false

module _ (E : Environment) (R : Runtime E) where
  open E use {World, metadata}
  open R use {drive, monitor, now, load_managed_snapshot, run_in_shell}

  pub record Shell : Type 0 where
    pub world : World
    pub session : ManagedSession E
    pub command_state : ShellCommandState
    pub snapshot : MetadataSnapshot
    pub initial_metadata_load : Bool
    pub refresh_hint_shown : Bool
    pub printed : List Line

  -- The newest line first.
  abbrev pub say : Line → Shell → Shell
  say line s = record s { printed = line ∷ s.printed }

  abbrev pub say_if : Bool → Line → Shell → Shell
  say_if b line s = if b then say line s else s

  abbrev pub with_session : World × ManagedSession E → Shell → Shell
  with_session (w, m) s = record s { world = w; session = m }

  unfoldable pub announce_reconnect : Shell → Shell
  unfolding take_reconnected
  announce_reconnect s =
      let (m, reconnected) = take_reconnected E s.session in
      say_if reconnected reconnect_notice (record s { session = m })

  -- The end of a coordination: the outcome and the session that it leaves.
  abbrev pub concluded :
      Option Phase
      → World × ManagedSession E
      → Option (Result StatementExecution) × (World × ManagedSession E)
  concluded (some (ended outcome)) (w, m) = (some outcome, (w, settle E outcome m))
  concluded _ x = (none, x)

  unfoldable pub execute_with_signals :
      Request
      → World × ManagedSession E
      → Option (Result StatementExecution) × (World × ManagedSession E)
  execute_with_signals request x =
      let (y, has_handle, trace) = drive request x in
      concluded (coordinate has_handle start trace) y

  -- The notice behind a statement that succeeded.
  unfoldable pub after_success : Bytes → Shell → Shell
  unfolding invalidate_after_schema_change
  after_success statement s =
      let (snapshot, shown, hint) =
        invalidate_after_schema_change s.snapshot statement true s.refresh_hint_shown in
      say_if hint stale_notice (record s { snapshot = snapshot; refresh_hint_shown = shown })

  abbrev pub marked : Shell → Shell
  marked s = record s { session = mark_uncertain E s.session }

  -- `Ok(result)`: the cancellation failed, the statement failed, or it succeeded.
  abbrev pub after_execution : Bytes → Bool → Result (Unit {0}) → Shell → Shell × Flow
  after_execution statement true result s = (marked s, stop)
  after_execution statement false (err e) s = (say (error_line e) s, stop)
  after_execution statement false (ok done) s = (after_success statement s, next)

  abbrev pub after_statement : Bytes → Option (Result StatementExecution) → Shell → Shell × Flow
  after_statement statement none s = (s, hung)
  after_statement statement (some (err e)) s = (s, returned (err e))
  after_statement statement (some (ok execution)) s =
      after_execution statement execution.cancellation_failed execution.result s

  abbrev pub monitored : Option ApplicationError → Shell × Flow → Shell → Shell × Flow
  monitored none run_shell s = run_shell
  monitored (some e) run_shell s = (s, returned (err e))

  -- One statement of a submission.
  unfoldable pub run_statement : Bytes → Shell → Shell × Flow
  unfolding execute_with_signals after_success
  run_statement statement s =
      let (outcome, x) = execute_with_signals (simple statement) (s.world, s.session) in
      monitored (monitor s.world) (after_statement statement outcome (with_session x s)) s

  abbrev pub then_run : (Shell → Shell × Flow) → Shell × Flow → Shell × Flow
  then_run rest (s, next) = rest s
  then_run rest (s, flow) = (s, flow)

  -- `for (statement, _) in submissions`
  unfoldable pub run_statements : List (Bytes × TransactionControl) → Shell → Shell × Flow
  unfolding run_statement
  run_statements [] s = (s, next)
  run_statements ((statement, control) ∷ statements) s =
      then_run (run_statements statements) (run_statement statement s)

  -- Behind the statements the shell reads the next line.
  abbrev pub announced : Shell × Flow → Shell × Flow
  announced (s, next) = (announce_reconnect s, next)
  announced (s, stop) = (announce_reconnect s, next)
  announced (s, flow) = (s, flow)

  abbrev pub run_framed : Result (List (Bytes × TransactionControl)) → Shell → Shell × Flow
  run_framed (err e) s = (say (error_line e) s, next)
  run_framed (ok submissions) s = announced (run_statements submissions s)

  unfoldable pub submit_input : Bytes → Shell → Shell × Flow
  unfolding frame_submission run_statements announce_reconnect
  submit_input input s = run_framed (frame_submission input) s
