-- ===== src/Shell/Loop/Success.antt =====
-- A statement of a submission that succeeds, and what the shell does next behind it.
use dsql_cli.Prelude.{
  ◌≡◌, refl, Bool, true, false, not, ◌&&◌, Option, none, some, List, [], ◌∷◌, Bytes,
}
use dsql_cli.Error.{ApplicationError, Result, ok, err}
use dsql_cli.App.Session.{Environment, simple}
use dsql_cli.Shell.Execution.{StatementExecution}
use dsql_cli.Shell.Loop.{
  Runtime, Flow, next, stop, hung, panic, returned, Shell, execute_with_signals, after_execution,
  after_statement, monitored, run_statement, with_session,
}

abbrev pub is_next : Flow → Bool
is_next next = true
is_next stop = false
is_next hung = false
is_next panic = false
is_next (returned r) = false

abbrev is_ok : Result (Unit {0}) → Bool
is_ok (ok done) = true
is_ok (err e) = false

-- A statement whose execution ended without an error and without a failed cancellation.
abbrev pub succeeded : Option (Result StatementExecution) → Bool
succeeded none = false
succeeded (some (err e)) = false
succeeded (some (ok x)) = not x.cancellation_failed && is_ok x.result

-- Without the monitor for signals a statement is not given to the session.
abbrev pub succeeds_with : Option ApplicationError → Option (Result StatementExecution) → Bool
succeeds_with none outcome = succeeded outcome
succeeds_with (some e) outcome = false

abbrev pub handed : Bytes → Option ApplicationError → List Bytes
handed b none = b ∷ []
handed b (some e) = []

module _ (E : Environment) (R : Runtime E) where
  abbrev pub succeeds : Bytes → Shell E R → Bool
  succeeds b s =
      succeeds_with (R.monitor s.world) (execute_with_signals E R (simple b) (s.world, s.session)).0

  -- Statements that all succeed, one after the other.
  pub data Executed : List Bytes → Shell E R → Shell E R → Type 0 where
    none_run : (s : Shell E R) → Executed [] s s
    one_run :
        (b : Bytes) (l : List Bytes) (s t : Shell E R)
        → succeeds b s ≡ true
        → Executed l (run_statement E R b s).0 t
        → Executed (b ∷ l) s t

  after_execution-is_next :
      (b : Bytes) (c : Bool) (r : Result (Unit {0})) (s : Shell E R)
      → is_next (after_execution E R b c r s).1 ≡ (not c && is_ok r)
  after_execution-is_next b true r s = refl
  after_execution-is_next b false (err e) s = refl
  after_execution-is_next b false (ok done) s = refl

  after_statement-is_next :
      (b : Bytes) (o : Option (Result StatementExecution)) (s : Shell E R)
      → is_next (after_statement E R b o s).1 ≡ succeeded o
  after_statement-is_next b none s = refl
  after_statement-is_next b (some (err e)) s = refl
  after_statement-is_next b (some (ok x)) s =
      after_execution-is_next b x.cancellation_failed x.result s

  monitored-is_next :
      (o : Option ApplicationError) (outcome : Option (Result StatementExecution))
      (x : Shell E R × Flow) (s : Shell E R)
      → is_next x.1 ≡ succeeded outcome
      → is_next (monitored E R o x s).1 ≡ succeeds_with o outcome
  monitored-is_next none outcome x s h = h
  monitored-is_next (some e) outcome x s h = refl

  pub run_statement-is_next :
      (b : Bytes) (s : Shell E R) → is_next (run_statement E R b s).1 ≡ succeeds b s
  unfolding run_statement
  run_statement-is_next b s =
      let ran = execute_with_signals E R (simple b) (s.world, s.session) in
      monitored-is_next (R.monitor s.world) ran.0
        (after_statement E R b ran.0 (with_session E R ran.1 s)) s
        (after_statement-is_next b ran.0 (with_session E R ran.1 s))
