-- ===== src/Tests/Execution.antt =====
-- src/shell/mod.rs: a statement that hangs, lines that a shell reads, and the theorems at them.
use dsql_cli.Prelude.{
  ℕ, ◌+◌, ◌≤◌, ◌≡◌, refl, true, false, ◌||◌, none, some, ◌⊎◌, List, [], ◌∷◌, ◌++◌, map, Bytes,
  codes,
}
use dsql_cli.Error.{runtime, Result, ok, err}
use dsql_cli.App.Data.{idle, alive, cancellation_unavailable, ClusterTarget, admin, empty_snapshot}
use dsql_cli.App.Session.{Environment, ManagedSession, statement_of, mark_uncertain}
use dsql_cli.App.Session.Reachable.{marked, none_left, then_step, Lost}
use dsql_cli.Sql.Keywords.{TransactionControl, other}
use dsql_cli.Shell.Execution.{
  interrupt, terminate, StatementExecution, ended, Occurrence, execution_finished, signalled,
  cancellation_returned, coordinate, start, settle, leaves_uncertain, terminated_text,
}
use dsql_cli.Shell.Execution.Settled.{
  EndsBy, Settled, coordinate_terminates, coordinate-Settled, interrupts, interrupts-is_ended,
  settle-Steps,
}
use dsql_cli.Shell.Submissions.{frame_submission_with_limit}
use dsql_cli.Shell.Submissions.Whole.{classified, frame_submission-frames}
use dsql_cli.Sql.Stream.Frames.{frames}
use dsql_cli.Shell.Loop.{Runtime, Shell, Reading, success, ctrl_d, run_statements}
use dsql_cli.Shell.Rounds.{opened, run_shell}
use dsql_cli.Shell.Loop.Hints.{run_shell-hints}
use dsql_cli.Shell.Loop.Hints.Submitted.{hints, refreshes}
use dsql_cli.Shell.Loop.Statements.{
  LogsStatements, GivenUpTo, run_statements-GivenUpTo, changes_schema, run_statements-stale,
}
use dsql_cli.Shell.Loop.Success.{is_next}

-- The cancellation is asked for, returns, and the statement ends.
abbrev cancelled : List Occurrence
cancelled =
    signalled (some interrupt)
    ∷ cancellation_returned (ok tt)
    ∷ execution_finished (err (runtime (codes "cancelled")))
    ∷ []

cancels :
    (coordinate true start cancelled ≡ some (ended (Settled (err (runtime (codes "cancelled"))))))
    × (coordinate true start (signalled (some terminate) ∷ [])
        ≡ some (ended (err (runtime terminated_text))))
unfolding coordinate runtime
cancels = (refl, refl)

abbrev outcome_of_cancelled : Result StatementExecution
outcome_of_cancelled = Settled (err (runtime (codes "cancelled")))

coordinate_terminates_example : 3 + 0 ≤ 3
coordinate_terminates_example =
    coordinate_terminates true start (ended outcome_of_cancelled) cancelled cancels.0

coordinate-Settled_example :
    (r : Result (Unit {0})) × EndsBy r cancelled × (outcome_of_cancelled ≡ Settled r)
unfolding leaves_uncertain
coordinate-Settled_example =
    coordinate-Settled true start cancelled outcome_of_cancelled refl cancels.0 refl

interrupts-is_ended_example :
    (n : ℕ) × (outcome : Result StatementExecution) × (n ≤ 2)
    × (coordinate true start (interrupts n) ≡ some (ended outcome))
    × (leaves_uncertain outcome ≡ true)
interrupts-is_ended_example = interrupts-is_ended true start refl

abbrev target : ClusterTarget
target = record {
  id = codes "cluster";
  region = codes "us-east-1";
  endpoint = none;
  arn = none;
  status = none;
  display_name = none;
}

-- The world is the log of the statements; every statement succeeds.
abbrev logging : Environment
logging = record {
  World = List Bytes;
  Handle = Unit {0};
  metadata = λ h. record {
    intent = record {
      target = target;
      role = admin;
      tls_roots = [];
      application_name = codes "dsql";
    };
    connected_at = 0;
    cancellation = cancellation_unavailable;
    transaction_state = idle;
    session_settings = [];
  };
  liveness = λ h w. alive;
  execute = λ h r w. (w ++ (statement_of r ∷ []), h, ok tt);
  capture = λ h w. (w, ok []);
  connect_restoring = λ i settings w. (w, ok tt);
  sleep = λ ms w. w;
}

abbrev session : ManagedSession logging
session = record {
  session = tt;
  connected_at = 0;
  state = idle;
  settings = [];
  settings_current = true;
  reconnect_required = false;
  reconnected = false;
}

abbrev runtime_of_tests : Runtime logging
runtime_of_tests = record {
  drive = λ r x. ((x.0 ++ (statement_of r ∷ []), x.1), true, execution_finished (ok tt) ∷ []);
  monitor = λ w. none;
  now = λ w. 0;
  load_managed_snapshot = λ x. (x, empty_snapshot);
  run_in_shell = λ w. (w, some (ok tt));
}

settle-Steps_example :
    (◌≡◌ {A = List Bytes} [] [])
    × Lost logging (mark_uncertain logging (settle logging (err (runtime terminated_text)) session))
settle-Steps_example =
    settle-Steps logging true (signalled (some terminate) ∷ []) (err (runtime terminated_text)) []
      session ([], mark_uncertain logging (settle logging (err (runtime terminated_text)) session))
      cancels.1 refl
      (then_step _ _ _ (none_left _)
        (marked [] (settle logging (err (runtime terminated_text)) session)))

frame_submission-frames_example :
    frame_submission_with_limit (codes "DROP TABLE t;") 20
    ≡ ok (map classified (frames (codes "DROP TABLE t;")).statements)
frame_submission-frames_example = frame_submission-frames (codes "DROP TABLE t;") 20

abbrev statements : List (Bytes × TransactionControl)
statements = (codes "DROP TABLE t;", other) ∷ (codes "SELECT 1;", other) ∷ []

abbrev shell : Shell logging runtime_of_tests
shell = opened logging runtime_of_tests [] session

logging-LogsStatements : LogsStatements logging runtime_of_tests (λ w. w)
logging-LogsStatements = record { driving = λ b w m. refl }

run_statements-GivenUpTo_example :
    GivenUpTo logging runtime_of_tests
      (λ w. w)
      (map (λ x. x.0) statements)
      shell
      (run_statements logging runtime_of_tests statements shell)
run_statements-GivenUpTo_example =
    run_statements-GivenUpTo logging runtime_of_tests (λ w. w) logging-LogsStatements statements
      shell

run_statements-stale_example :
    (is_next (run_statements logging runtime_of_tests statements shell).1 ≡ false)
    ⊎ ((run_statements logging runtime_of_tests statements shell).0.snapshot.stale
        ≡ (changes_schema statements || shell.snapshot.stale))
run_statements-stale_example = run_statements-stale logging runtime_of_tests statements shell

abbrev lines : List Reading
lines = success (codes "DROP TABLE t;") ∷ success (codes "DROP TABLE u;") ∷ ctrl_d ∷ []

run_shell-hints_example :
    hints (run_shell logging runtime_of_tests lines shell).0.printed
    ≤ refreshes (run_shell logging runtime_of_tests lines shell).0.printed + 1
run_shell-hints_example = run_shell-hints logging runtime_of_tests lines [] session
