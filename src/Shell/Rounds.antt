-- ===== src/Shell/Rounds.antt =====
-- src/shell/mod.rs, `run`: what the shell does with every line that its editor reads.
use dsql_cli.Prelude.{
  true, false, not, Option, none, some, List, [], ◌∷◌, Bytes, Chars, codes, as_bytes, if◌then◌else◌,
}
use dsql_cli.Error.{runtime, Result, ok, err}
use dsql_cli.App.Data.{empty_snapshot}
use dsql_cli.App.Session.{Environment, ManagedSession, with_params, reconnect_state}
use dsql_cli.Sql.Queries.{sql, params}
use dsql_cli.Sql.Stream.{max_statement_bytes}
use dsql_cli.Shell.{mode_off}
use dsql_cli.Shell.Commands.{
  not_requested, MetadataRequest, CommandResult, Executed, not_a_command, executed, failed, crashed,
  execute_with_reconnect_state, trim, is_empty,
}
use dsql_cli.Shell.Execution.{StatementExecution}
use dsql_cli.Shell.Submissions.{ensure_submission_size, refresh_allowed}
use dsql_cli.Shell.Loop.{
  metadata_query, Flow, termination_error, Reading, is_dashboard, is_exit, is_requested, error_line,
  refused_line, message_line, refresh_refused, refreshed, next, hung, panic, returned, success,
  ctrl_c, ctrl_d, other_signal, read_error, editor_stopped, terminated, editor_not_started,
  terminated_in_load, Shell, say, say_if, with_session, announce_reconnect, execute_with_signals,
  marked, monitored, then_run, submit_input, Runtime,
}

module _ (E : Environment) (R : Runtime E) where
  open E use {World, metadata}
  open R use {drive, monitor, now, load_managed_snapshot, run_in_shell}

  unfoldable pub refresh : Shell E R → Shell E R × Flow
  unfolding announce_reconnect
  refresh asked =
      let s = record asked {
        command_state = record (asked.command_state) { refresh = not_requested };
      } in
      let (x, loaded) = load_managed_snapshot (s.world, s.session) in
      if not (refresh_allowed s.session.state) then (say E R refresh_refused s, next) else (
        say E R (refreshed loaded.stale) (
            announce_reconnect E R
              (record (with_session E R x s) { snapshot = loaded; refresh_hint_shown = false })),
        next,
      )

  abbrev pub after_result : Result (Unit {0}) → Shell E R → Shell E R × Flow
  after_result (ok done) s = (s, next)
  after_result (err e) s = (say E R (error_line e) s, next)

  abbrev pub after_params : Option (Result StatementExecution) → Shell E R → Shell E R × Flow
  after_params none s = (s, hung)
  after_params (some (err e)) s = (s, returned (err e))
  after_params (some (ok execution)) s =
      if execution.cancellation_failed
      then (marked E R s, next)
      else after_result execution.result s

  -- The reconnect is announced before the outcome is looked at.
  unfoldable pub run_metadata : MetadataRequest → Shell E R → Shell E R × Flow
  unfolding metadata_query execute_with_signals announce_reconnect sql params
  run_metadata request s =
      let (query, pattern) = metadata_query request in
      let (outcome, x) =
        execute_with_signals E R (with_params (sql query) (params query pattern))
          (s.world, s.session) in
      monitored E R (monitor s.world)
        (after_params outcome (announce_reconnect E R (with_session E R x s))) s

  abbrev pub after_dashboard : Option (Result (Unit {0})) → Shell E R → Shell E R × Flow
  after_dashboard none s = (s, returned (err termination_error))
  after_dashboard (some (ok done)) s = (s, next)
  after_dashboard (some (err e)) s = (say E R (error_line e) s, next)

  unfoldable pub run_dashboard : Shell E R → Shell E R × Flow
  run_dashboard s =
      let (w, result) = run_in_shell s.world in after_dashboard result (record s { world = w })

  abbrev pub show_result : CommandResult → Shell E R → Shell E R × Flow
  show_result result s = (
    say_if E R (not (is_empty result.text)) (message_line result.text) s,
    (if is_exit result.action then returned (ok tt) else next),
  )

  abbrev pub metadata_or : Option MetadataRequest → Shell E R × Flow → Shell E R → Shell E R × Flow
  metadata_or none shown s = shown
  metadata_or (some request) shown s = run_metadata request s

  -- What the result of a meta-command asks for, in the order of the tests.
  unfoldable pub act : CommandResult → Shell E R → Shell E R × Flow
  unfolding run_dashboard refresh run_metadata
  act result s =
      if is_dashboard result.action
      then run_dashboard s
      else if is_requested s.command_state.refresh
      then refresh s
      else metadata_or result.metadata (show_result result s) s

  abbrev pub after_command : Bytes → Executed → Shell E R → Shell E R × Flow
  after_command input (executed result) s = act result s
  after_command input not_a_command s = submit_input E R input s
  after_command input (failed text) s = (say E R (refused_line text) s, next)
  after_command input crashed s = (s, panic)

  abbrev pub sized : Result (Unit {0}) → Shell E R × Flow → Shell E R → Shell E R × Flow
  sized (err e) handled s = (say E R (error_line e) s, next)
  sized (ok done) handled s = handled

  -- `Ok(Signal::Success(input))`
  unfoldable pub handle_line : Chars → Shell E R → Shell E R × Flow
  unfolding trim ensure_submission_size execute_with_reconnect_state reconnect_state act
      submit_input
  handle_line input s =
      let (state, result) =
        execute_with_reconnect_state input false (metadata s.session.session)
          (reconnect_state E s.session (now s.world) s.world) s.command_state (now s.world) in
      if is_empty (trim input)
      then (s, next)
      else sized (ensure_submission_size (as_bytes input) max_statement_bytes)
          (after_command (as_bytes input) result (record s { command_state = state })) s

  -- The load that runs under the first line, and whether it is cut by a termination.
  abbrev pub load_initially : Shell E R → Shell E R
  load_initially s =
      let (x, loaded) = load_managed_snapshot (s.world, s.session) in
      announce_reconnect E R
        (record (with_session E R x s) { snapshot = loaded; initial_metadata_load = false })

  abbrev pub loaded : Shell E R → Shell E R
  loaded s = if s.initial_metadata_load then load_initially s else s

  -- One round of the loop.
  unfoldable pub round : Reading → Shell E R → Shell E R × Flow
  unfolding announce_reconnect handle_line
  round (success input) s = handle_line input (loaded s)
  round ctrl_c s = (loaded s, next)
  round ctrl_d s = (loaded s, returned (ok tt))
  round other_signal s = (loaded s, next)
  round read_error s =
      (loaded s, returned (err (runtime (codes "could not read interactive shell input"))))
  round editor_stopped s =
      (loaded s, returned (err (runtime (codes "interactive shell editor stopped unexpectedly"))))
  round terminated s = (loaded s, returned (err termination_error))
  round editor_not_started s =
      (s, returned (err (runtime (codes "could not start interactive shell editor"))))
  round terminated_in_load s = (s, returned (err termination_error))

  unfoldable pub run_shell : List Reading → Shell E R → Shell E R × Flow
  unfolding round
  run_shell [] s = (s, next)
  run_shell (reading ∷ readings) s = then_run E R (run_shell readings) (round reading s)

  unfoldable pub opened : World → ManagedSession E → Shell E R
  unfolding empty_snapshot
  opened w m = record {
    world = w;
    session = m;
    command_state = record {
      settings = record { expanded = mode_off; timing = false; pager = false };
      refresh = not_requested;
    };
    snapshot = empty_snapshot;
    initial_metadata_load = true;
    refresh_hint_shown = false;
    printed = [];
  }
