-- ===== src/Shell/Loop/Statements.antt =====
-- The statements of one submission: in their order, up to the first that does not succeed.
use mathlib.Core.Path.{subst}
use dsql_cli.Prelude.{
  ◌≡◌, refl, sym, ap, ◌∙◌, arith, Bool, true, false, ◌||◌, Option, none, some, List, [], ◌∷◌, ◌++◌,
  map, ◌⊎◌, inl, inr, Bytes, append-nil, append_assoc,
}
use dsql_cli.Error.{ApplicationError, Result, ok, err}
use dsql_cli.App.Data.{invalidate}
use dsql_cli.App.Session.{Environment, ManagedSession, simple}
use dsql_cli.Sql.Keywords.{TransactionControl, is_schema_changing}
use dsql_cli.Shell.Execution.{
  StatementExecution, Phase, waiting, cancelling, ended, coordinate, start,
}
use dsql_cli.Shell.Submissions.{invalidate_after_schema_change}
use dsql_cli.Shell.Loop.Success.{
  is_next, succeeds_with, handed, succeeds, Executed, none_run, one_run, run_statement-is_next,
}
use dsql_cli.Shell.Loop.{
  Runtime, Flow, next, stop, hung, panic, returned, Shell, execute_with_signals, after_success,
  concluded, after_execution, after_statement, monitored, run_statement, then_run, run_statements,
  with_session,
}

abbrev pub changes_schema : List (Bytes × TransactionControl) → Bool
changes_schema [] = false
changes_schema ((b, c) ∷ l) = is_schema_changing b || changes_schema l

module _ (E : Environment) (R : Runtime E) (log : E.World → List Bytes) where
  -- The log of the world is the statements that the session was given.
  pub record LogsStatements : Type 0 where
    pub driving :
        (statement : Bytes) (w : E.World) (m : ManagedSession E)
        → log (R.drive (simple statement) (w, m)).0.0 ≡ log w ++ (statement ∷ [])

  -- All statements were given to the session and succeeded.
  abbrev pub Finished : List Bytes → Shell E R → Shell E R × Flow → Type 0
  Finished statements s x =
      Executed E R statements s x.0 × (x.1 ≡ next) × (log x.0.world ≡ log s.world ++ statements)

  -- Some succeeded and the next one did not: the run ends with this one.
  abbrev pub Stopped : List Bytes → Shell E R → Shell E R × Flow → Type 0
  Stopped statements s x =
      (before : List Bytes) × (b : Bytes) × (left : List Bytes) × (t : Shell E R) × (statements
        ≡ before ++ (b ∷ left))
      × Executed E R before s t
      × (succeeds E R b t ≡ false)
      × (x ≡ run_statement E R b t)
      × (is_next x.1 ≡ false)
      × (log x.0.world ≡ log s.world ++ (before ++ handed b (R.monitor t.world)))

  abbrev pub GivenUpTo : List Bytes → Shell E R → Shell E R × Flow → Type 0
  GivenUpTo statements s x = Finished statements s x ⊎ Stopped statements s x

  module _ (logs : LogsStatements) where
    concluded-world :
        (p : Option Phase) (x : E.World × ManagedSession E) → (concluded E R p x).1.0 ≡ x.0
    concluded-world (some (ended o)) x = refl
    concluded-world (some cancelling) x = refl
    concluded-world (some (waiting i f)) x = refl
    concluded-world none x = refl

    executed-world :
        (b : Bytes) (s : Shell E R)
        → (execute_with_signals E R (simple b) (s.world, s.session)).1.0
          ≡ (R.drive (simple b) (s.world, s.session)).0.0
    unfolding execute_with_signals
    executed-world b s =
        let d = R.drive (simple b) (s.world, s.session) in
        concluded-world (coordinate d.1 start d.2) d.0

    after_execution-world :
        (b : Bytes) (c : Bool) (r : Result (Unit {0})) (s : Shell E R)
        → (after_execution E R b c r s).0.world ≡ s.world
    unfolding after_success invalidate_after_schema_change
    after_execution-world b true r s = refl
    after_execution-world b false (err e) s = refl
    after_execution-world b false (ok done) s = ground arith

    after_statement-world :
        (b : Bytes) (o : Option (Result StatementExecution)) (s : Shell E R)
        → (after_statement E R b o s).0.world ≡ s.world
    after_statement-world b none s = refl
    after_statement-world b (some (err e)) s = refl
    after_statement-world b (some (ok x)) s =
        after_execution-world b x.cancellation_failed x.result s

    monitored-log :
        (b : Bytes) (o : Option ApplicationError) (x : Shell E R × Flow) (s : Shell E R)
        → log x.0.world ≡ log s.world ++ (b ∷ [])
        → log (monitored E R o x s).0.world ≡ log s.world ++ handed b o
    monitored-log b none x s e = e
    monitored-log b (some error) x s e = sym (append-nil (log s.world))

    run_statement-log :
        (b : Bytes) (s : Shell E R)
        → log (run_statement E R b s).0.world ≡ log s.world ++ handed b (R.monitor s.world)
    unfolding run_statement
    run_statement-log b s =
        let ran = execute_with_signals E R (simple b) (s.world, s.session) in
        monitored-log b (R.monitor s.world) (after_statement E R b ran.0 (with_session E R ran.1 s))
          s
          (ap log (after_statement-world b ran.0 (with_session E R ran.1 s) ∙ executed-world b s)
            ∙ logs.driving b s.world s.session)

    handed-succeeds :
        (b : Bytes) (o : Option ApplicationError) (outcome : Option (Result StatementExecution))
        → succeeds_with o outcome ≡ true
        → handed b o ≡ b ∷ []
    handed-succeeds b none outcome h = refl
    handed-succeeds b (some e) outcome h = absurd (cc)

    longer :
        (b : Bytes) (s t : Shell E R) (more all : List Bytes)
        → log t.world ≡ log s.world ++ (b ∷ [])
        → all ≡ log t.world ++ more
        → all ≡ log s.world ++ (b ∷ more)
    longer b s t more all e h =
        h ∙ ap (λ (k : List Bytes). k ++ more) e ∙ append_assoc (log s.world) (b ∷ []) more

    -- A statement that succeeds before the others.
    one_before :
        (b : Bytes) (l : List Bytes) (s t : Shell E R) (x : Shell E R × Flow)
        → t ≡ (run_statement E R b s).0
        → succeeds E R b s ≡ true
        → log t.world ≡ log s.world ++ (b ∷ [])
        → GivenUpTo l t x
        → GivenUpTo (b ∷ l) s x
    one_before b l s t x same yes_ran e (inl f) = inl (
      one_run b l s x.0 yes_ran (subst (λ z. Executed E R l z x.0) same f.0),
      f.1,
      longer b s t l (log x.0.world) e f.2,
    )
    one_before b l s t x same yes_ran e (inr f) = inr (
      b ∷ f.0,
      f.1,
      f.2,
      f.3,
      ap (λ (k : List Bytes). b ∷ k) f.4,
      one_run b f.0 s f.3 yes_ran (subst (λ z. Executed E R f.0 z f.3) same f.5),
      f.6,
      f.7,
      f.8,
      longer b s t (f.0 ++ handed f.1 (R.monitor f.3.world)) (log x.0.world) e f.9,
    )

    halted :
        (b : Bytes) (l : List Bytes) (s : Shell E R) (x : Shell E R × Flow)
        → x ≡ run_statement E R b s
        → succeeds E R b s ≡ false
        → is_next x.1 ≡ false
        → log x.0.world ≡ log s.world ++ handed b (R.monitor s.world)
        → GivenUpTo (b ∷ l) s x
    halted b l s x same failing stops e =
        inr ([], b, l, s, refl, none_run s, failing, same, stops, e)

    then_run-GivenUpTo :
        (b : Bytes) (l : List Bytes) (s : Shell E R) (rest : Shell E R → Shell E R × Flow)
        (x : Shell E R × Flow)
        → ((t : Shell E R) → GivenUpTo l t (rest t))
        → x ≡ run_statement E R b s
        → is_next x.1 ≡ succeeds E R b s
        → log x.0.world ≡ log s.world ++ handed b (R.monitor s.world)
        → GivenUpTo (b ∷ l) s (then_run E R rest x)
    then_run-GivenUpTo b l s rest (t, next) f same went e =
        one_before b l s t (rest t) (ap (λ (y : Shell E R × Flow). y.0) same) (sym went)
          (e
            ∙ ap (λ (k : List Bytes). log s.world ++ k)
                (handed-succeeds b (R.monitor s.world)
                  (execute_with_signals E R (simple b) (s.world, s.session)).0 (sym went)))
          (f t)
    then_run-GivenUpTo b l s rest (t, stop) f same went e =
        halted b l s (t, stop) same (sym went) refl e
    then_run-GivenUpTo b l s rest (t, hung) f same went e =
        halted b l s (t, hung) same (sym went) refl e
    then_run-GivenUpTo b l s rest (t, panic) f same went e =
        halted b l s (t, panic) same (sym went) refl e
    then_run-GivenUpTo b l s rest (t, returned r) f same went e =
        halted b l s (t, returned r) same (sym went) refl e

    -- The statements of a submission are given to the session in their order, each once, as long as
    -- each succeeds: without an error and without a failed cancellation. At the first that does not
    -- succeed the run ends with what that statement comes to, and none behind it is given; a
    -- statement for which no monitor of signals is to be had is not given itself.
    pub run_statements-GivenUpTo :
        (l : List (Bytes × TransactionControl)) (s : Shell E R)
        → GivenUpTo (map (λ x. x.0) l) s (run_statements E R l s)
    unfolding run_statements
    run_statements-GivenUpTo [] s = inl (none_run s, refl, sym (append-nil (log s.world)))
    run_statements-GivenUpTo ((b, c) ∷ l) s =
        then_run-GivenUpTo b (map (λ x. x.0) l) s (run_statements E R l) (run_statement E R b s)
          (run_statements-GivenUpTo l) refl (run_statement-is_next E R b s) (run_statement-log b s)

module _ (E : Environment) (R : Runtime E) where
  -- What a round that goes on does to the snapshot.
  abbrev Staled : Bytes → Shell E R → Shell E R × Flow → Type 0
  Staled b s x =
      (is_next x.1 ≡ false) ⊎ (x.0.snapshot.stale ≡ (is_schema_changing b || s.snapshot.stale))

  after_execution-Staled :
      (b : Bytes) (c : Bool) (r : Result (Unit {0})) (s : Shell E R)
      → Staled b s (after_execution E R b c r s)
  unfolding after_success invalidate_after_schema_change invalidate
  after_execution-Staled b true r s = inl refl
  after_execution-Staled b false (err e) s = inl refl
  after_execution-Staled b false (ok done) s = inr (ground arith)

  after_statement-Staled :
      (b : Bytes) (o : Option (Result StatementExecution)) (s : Shell E R)
      → Staled b s (after_statement E R b o s)
  after_statement-Staled b none s = inl refl
  after_statement-Staled b (some (err e)) s = inl refl
  after_statement-Staled b (some (ok x)) s =
      after_execution-Staled b x.cancellation_failed x.result s

  monitored-Staled :
      (b : Bytes) (o : Option ApplicationError) (x : Shell E R × Flow) (s : Shell E R)
      → Staled b s x
      → Staled b s (monitored E R o x s)
  monitored-Staled b none x s h = h
  monitored-Staled b (some e) x s h = inl refl

  run_statement-Staled : (b : Bytes) (s : Shell E R) → Staled b s (run_statement E R b s)
  unfolding run_statement
  run_statement-Staled b s =
      let ran = execute_with_signals E R (simple b) (s.world, s.session) in
      monitored-Staled b (R.monitor s.world)
        (after_statement E R b ran.0 (with_session E R ran.1 s)) s
        (after_statement-Staled b ran.0 (with_session E R ran.1 s))

  then_run-stale :
      (b : Bytes) (changes : Bool) (s : Shell E R) (rest : Shell E R → Shell E R × Flow)
      (x : Shell E R × Flow)
      → ((t : Shell E R)
          → (is_next (rest t).1 ≡ false)
            ⊎ ((rest t).0.snapshot.stale ≡ (changes || t.snapshot.stale)))
      → Staled b s x
      → (is_next (then_run E R rest x).1 ≡ false)
        ⊎ ((then_run E R rest x).0.snapshot.stale
            ≡ ((is_schema_changing b || changes) || s.snapshot.stale))
  then_run-stale b c s rest (t, next) f (inr e) = let r = f t in ground arith
  then_run-stale b c s rest (t, next) f (inl e) = absurd (cc)
  then_run-stale b c s rest (t, stop) f h = inl refl
  then_run-stale b c s rest (t, hung) f h = inl refl
  then_run-stale b c s rest (t, panic) f h = inl refl
  then_run-stale b c s rest (t, returned r) f h = inl refl

  -- Where all statements of a submission succeeded, the completions are stale exactly if they were
  -- before or one of the statements changes the schema.
  pub run_statements-stale :
      (l : List (Bytes × TransactionControl)) (s : Shell E R)
      → (is_next (run_statements E R l s).1 ≡ false)
        ⊎ ((run_statements E R l s).0.snapshot.stale ≡ (changes_schema l || s.snapshot.stale))
  unfolding run_statements
  run_statements-stale [] s = inr refl
  run_statements-stale ((b, c) ∷ l) s =
      then_run-stale b (changes_schema l) s (run_statements E R l) (run_statement E R b s)
        (run_statements-stale l) (run_statement-Staled b s)
