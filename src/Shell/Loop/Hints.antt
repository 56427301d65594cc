-- ===== src/Shell/Loop/Hints.antt =====
-- The notice that the completions are stale, over the whole life of a shell.
pub mod Submitted
use dsql_cli.Prelude.{
  ℕ, ◌+◌, ◌≤◌, ◌≡◌, refl, arith, Bool, true, false, not, Bool-cases, inl, inr, Option, none, some,
  List, [], ◌∷◌, Bytes, Chars, as_bytes, if◌then◌else◌,
}
use dsql_cli.Error.{ApplicationError, Result, ok, err}
use dsql_cli.App.Session.{Environment, ManagedSession, simple, with_params, reconnect_state}
use dsql_cli.Sql.Keywords.{TransactionControl, is_schema_changing}
use dsql_cli.Sql.Queries.{sql, params}
use dsql_cli.Sql.Stream.{max_statement_bytes}
use dsql_cli.Shell.Commands.{
  not_requested, MetadataRequest, CommandResult, Executed, not_a_command, executed, failed, crashed,
  is_empty, trim, execute_with_reconnect_state,
}
use dsql_cli.Shell.Execution.{StatementExecution}
use dsql_cli.Shell.Submissions.{
  refresh_allowed, ensure_submission_size, frame_submission, invalidate_after_schema_change,
}
use dsql_cli.Shell.Loop.{
  Line, error_line, refused_line, message_line, stale_notice, reconnect_notice, refresh_refused,
  refreshed, Runtime, Flow, next, stop, hung, panic, returned, Shell, say, announce_reconnect,
  execute_with_signals, after_success, after_execution, after_statement, monitored, run_statement,
  then_run, run_statements, announced, run_framed, submit_input, is_dashboard, is_requested,
  Reading, success, ctrl_c, ctrl_d, other_signal, read_error, editor_stopped, terminated,
  editor_not_started, terminated_in_load, with_session, metadata_query,
}
use dsql_cli.Shell.Rounds.{
  refresh, after_result, after_params, run_metadata, after_dashboard, run_dashboard, show_result,
  metadata_or, act, after_command, sized, handle_line, load_initially, loaded, round, run_shell,
  opened,
}
use dsql_cli.Shell.Loop.Hints.Submitted.{
  hints, refreshes, Hinted, if-Hinted, announce_reconnect-Hinted, HintedFlow, flow, if-HintedFlow,
  monitored-Hinted, then_run-Hinted, submit_input-Hinted,
}

module _ (E : Environment) (R : Runtime E) where
  -- Behind a refresh no notice counts as given.
  announced-refreshed :
      (b : Bool) (s : Shell E R)
      → hints s.printed ≤ refreshes s.printed + 1
      → s.refresh_hint_shown ≡ false
      → Hinted E R (say E R (refreshed b) (announce_reconnect E R s))
  unfolding announce_reconnect
  announced-refreshed b s h e = ground arith

  refresh-Hinted : (s : Shell E R) → Hinted E R s → HintedFlow E R (refresh E R s)
  unfolding refresh
  refresh-Hinted s h =
      let asked = record s {
        command_state = record (s.command_state) { refresh = not_requested };
      } in
      let x = R.load_managed_snapshot (s.world, s.session) in
      let t = record (with_session E R x.0 asked) { snapshot = x.1; refresh_hint_shown = false } in
      if-HintedFlow E R (not (refresh_allowed s.session.state))
        (say E R refresh_refused asked, next)
        (say E R (refreshed x.1.stale) (announce_reconnect E R t), next)
        (flow E R _ _ (record { bound = h.bound }))
        (flow E R _ _ (announced-refreshed x.1.stale t (let k = h.bound in omega arith) refl))

  after_result-Hinted :
      (r : Result (Unit {0})) (s : Shell E R) → Hinted E R s → HintedFlow E R (after_result E R r s)
  after_result-Hinted (ok done) s h = flow E R _ _ h
  after_result-Hinted (err e) s h = flow E R _ _ (record { bound = h.bound })

  after_params-Hinted :
      (o : Option (Result StatementExecution)) (s : Shell E R)
      → Hinted E R s
      → HintedFlow E R (after_params E R o s)
  after_params-Hinted none s h = flow E R _ _ h
  after_params-Hinted (some (err e)) s h = flow E R _ _ h
  after_params-Hinted (some (ok x)) s h =
      if-HintedFlow E R x.cancellation_failed _ _ (flow E R _ _ (record { bound = h.bound }))
        (after_result-Hinted x.result s h)

  run_metadata-Hinted :
      (q : MetadataRequest) (s : Shell E R) → Hinted E R s → HintedFlow E R (run_metadata E R q s)
  unfolding run_metadata
  run_metadata-Hinted q s h =
      let query = metadata_query q in
      let ran =
        execute_with_signals E R (with_params (sql query.0) (params query.0 query.1))
          (s.world, s.session) in
      let after = announce_reconnect E R (with_session E R ran.1 s) in
      monitored-Hinted E R (R.monitor s.world) (after_params E R ran.0 after) s
        (after_params-Hinted ran.0 after
          (announce_reconnect-Hinted E R (with_session E R ran.1 s) (record { bound = h.bound })))
        h

  after_dashboard-Hinted :
      (o : Option (Result (Unit {0}))) (s : Shell E R)
      → Hinted E R s
      → HintedFlow E R (after_dashboard E R o s)
  after_dashboard-Hinted none s h = flow E R _ _ h
  after_dashboard-Hinted (some (ok done)) s h = flow E R _ _ h
  after_dashboard-Hinted (some (err e)) s h = flow E R _ _ (record { bound = h.bound })

  run_dashboard-Hinted : (s : Shell E R) → Hinted E R s → HintedFlow E R (run_dashboard E R s)
  unfolding run_dashboard
  run_dashboard-Hinted s h =
      let ran = R.run_in_shell s.world in
      after_dashboard-Hinted ran.1 (record s { world = ran.0 }) (record { bound = h.bound })

  metadata_or-Hinted :
      (q : Option MetadataRequest) (x : Shell E R × Flow) (s : Shell E R)
      → HintedFlow E R x
      → Hinted E R s
      → HintedFlow E R (metadata_or E R q x s)
  metadata_or-Hinted none x s h k = h
  metadata_or-Hinted (some q) x s h k = run_metadata-Hinted q s k

  act-Hinted : (r : CommandResult) (s : Shell E R) → Hinted E R s → HintedFlow E R (act E R r s)
  unfolding act
  act-Hinted r s h =
      if-HintedFlow E R (is_dashboard r.action) (run_dashboard E R s)
        (if is_requested s.command_state.refresh
          then refresh E R s
          else metadata_or E R r.metadata (show_result E R r s) s)
        (run_dashboard-Hinted s h)
        (if-HintedFlow E R (is_requested s.command_state.refresh) (refresh E R s)
          (metadata_or E R r.metadata (show_result E R r s) s) (refresh-Hinted s h)
          (metadata_or-Hinted r.metadata (show_result E R r s) s
            (flow E R _ _ (
              if-Hinted E R (not (is_empty r.text)) (say E R (message_line r.text) s) s
                (record { bound = h.bound }) h))
            h))

  after_command-Hinted :
      (b : Bytes) (x : Executed) (s : Shell E R)
      → Hinted E R s
      → HintedFlow E R (after_command E R b x s)
  after_command-Hinted b (executed r) s h = act-Hinted r s h
  after_command-Hinted b not_a_command s h = submit_input-Hinted E R b s h
  after_command-Hinted b (failed t) s h = flow E R _ _ (record { bound = h.bound })
  after_command-Hinted b crashed s h = flow E R _ _ h

  sized-Hinted :
      (r : Result (Unit {0})) (x : Shell E R × Flow) (s : Shell E R)
      → HintedFlow E R x
      → Hinted E R s
      → HintedFlow E R (sized E R r x s)
  sized-Hinted (err e) x s h k = flow E R _ _ (record { bound = k.bound })
  sized-Hinted (ok done) x s h k = h

  handle_line-Hinted :
      (input : Chars) (s : Shell E R) → Hinted E R s → HintedFlow E R (handle_line E R input s)
  unfolding handle_line
  handle_line-Hinted input s h =
      let ran =
        execute_with_reconnect_state input false (E.metadata s.session.session)
          (reconnect_state E s.session (R.now s.world) s.world) s.command_state (R.now s.world) in
      let t = record s { command_state = ran.0 } in
      let checked = ensure_submission_size (as_bytes input) max_statement_bytes in
      let handled = after_command E R (as_bytes input) ran.1 t in
      if-HintedFlow E R (is_empty (trim input)) (s, next) (sized E R checked handled s)
        (flow E R _ _ h)
        (sized-Hinted checked handled s
          (after_command-Hinted (as_bytes input) ran.1 t (record { bound = h.bound })) h)

  loaded-Hinted : (s : Shell E R) → Hinted E R s → Hinted E R (loaded E R s)
  loaded-Hinted s h =
      let x = R.load_managed_snapshot (s.world, s.session) in
      let t = record (with_session E R x.0 s) { snapshot = x.1; initial_metadata_load = false } in
      if-Hinted E R s.initial_metadata_load (load_initially E R s) s
        (announce_reconnect-Hinted E R t (record { bound = h.bound })) h

  round-Hinted : (r : Reading) (s : Shell E R) → Hinted E R s → HintedFlow E R (round E R r s)
  unfolding round
  round-Hinted (success input) s h = handle_line-Hinted input (loaded E R s) (loaded-Hinted s h)
  round-Hinted ctrl_c s h = flow E R _ _ (loaded-Hinted s h)
  round-Hinted ctrl_d s h = flow E R _ _ (loaded-Hinted s h)
  round-Hinted other_signal s h = flow E R _ _ (loaded-Hinted s h)
  round-Hinted read_error s h = flow E R _ _ (loaded-Hinted s h)
  round-Hinted editor_stopped s h = flow E R _ _ (loaded-Hinted s h)
  round-Hinted terminated s h = flow E R _ _ (loaded-Hinted s h)
  round-Hinted editor_not_started s h = flow E R _ _ (h)
  round-Hinted terminated_in_load s h = flow E R _ _ (h)

  run_shell-Hinted :
      (l : List Reading) (s : Shell E R) → Hinted E R s → HintedFlow E R (run_shell E R l s)
  unfolding run_shell
  run_shell-Hinted [] s h = flow E R _ _ h
  run_shell-Hinted (r ∷ l) s h =
      then_run-Hinted E R (run_shell E R l) (round E R r s) (run_shell-Hinted l)
        (round-Hinted r s h)

  -- Whatever is read, and whatever the statements do, a shell has printed the notice of stale
  -- completions at most once more than it has refreshed them.
  pub run_shell-hints :
      (readings : List Reading) (w : E.World) (m : ManagedSession E)
      → hints (run_shell E R readings (opened E R w m)).0.printed
        ≤ refreshes (run_shell E R readings (opened E R w m)).0.printed + 1
  run_shell-hints readings w m =
      let h =
        run_shell-Hinted readings (opened E R w m)
          (record { bound = unfold opened in omega arith }) in
      let k = h.kept.bound in ground arith
