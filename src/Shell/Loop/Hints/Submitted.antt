-- ===== src/Shell/Loop/Hints/Submitted.antt =====
-- The notices of a submission: how many a shell has printed, and what its statements add to them.
use dsql_cli.Prelude.{
  ℕ, ◌+◌, ◌≤◌, arith, Bool, true, false, Bool-cases, inl, inr, Option, none, some, List, [], ◌∷◌,
  Bytes, if◌then◌else◌,
}
use dsql_cli.Error.{ApplicationError, Result, ok, err}
use dsql_cli.App.Session.{Environment, simple}
use dsql_cli.Sql.Keywords.{TransactionControl, is_schema_changing}
use dsql_cli.Shell.Execution.{StatementExecution}
use dsql_cli.Shell.Submissions.{frame_submission, invalidate_after_schema_change}
use dsql_cli.Shell.Loop.{
  Line, error_line, refused_line, message_line, stale_notice, reconnect_notice, refresh_refused,
  refreshed, Runtime, Flow, next, stop, hung, panic, returned, Shell, announce_reconnect,
  execute_with_signals, after_success, after_execution, after_statement, monitored, run_statement,
  then_run, run_statements, announced, run_framed, submit_input, with_session,
}

abbrev pub hints : List Line → ℕ
hints [] = 0
hints (stale_notice ∷ lines) = 1 + hints lines
hints (error_line e ∷ lines) = hints lines
hints (refused_line t ∷ lines) = hints lines
hints (message_line t ∷ lines) = hints lines
hints (reconnect_notice ∷ lines) = hints lines
hints (refresh_refused ∷ lines) = hints lines
hints (refreshed b ∷ lines) = hints lines

abbrev pub refreshes : List Line → ℕ
refreshes [] = 0
refreshes (refreshed b ∷ lines) = 1 + refreshes lines
refreshes (stale_notice ∷ lines) = refreshes lines
refreshes (error_line e ∷ lines) = refreshes lines
refreshes (refused_line t ∷ lines) = refreshes lines
refreshes (message_line t ∷ lines) = refreshes lines
refreshes (reconnect_notice ∷ lines) = refreshes lines
refreshes (refresh_refused ∷ lines) = refreshes lines

module _ (E : Environment) (R : Runtime E) where
  -- A hint that is still to come counts as given.
  pub record Hinted (s : Shell E R) : Type 0 where
    pub bound : hints s.printed + (if s.refresh_hint_shown then 0 else 1) ≤ refreshes s.printed + 1

  pub if-Hinted : (b : Bool) (s t : Shell E R) → Hinted s → Hinted t → Hinted (if b then s else t)
  if-Hinted true s t h k = h
  if-Hinted false s t h k = k

  pub announce_reconnect-Hinted : (s : Shell E R) → Hinted s → Hinted (announce_reconnect E R s)
  unfolding announce_reconnect
  announce_reconnect-Hinted s h =
      if-Hinted s.session.reconnected _ _ (record { bound = h.bound }) (record { bound = h.bound })

  pub after_success-Hinted : (b : Bytes) (s : Shell E R) → Hinted s → Hinted (after_success E R b s)
  unfolding after_success invalidate_after_schema_change
  after_success-Hinted b s h = elim (Bool-cases (is_schema_changing b)) [
    | inl e ↦ (elim (Bool-cases s.refresh_hint_shown) [
      | inl f ↦ rw (e, f) (record { bound = (let k = h.bound in ground arith) })
      | inr f ↦ rw (e, f) (record { bound = (let k = h.bound in ground arith) })
    ])
    | inr e ↦ rw e (record { bound = h.bound })
  ]

  pub record HintedFlow (x : Shell E R × Flow) : Type 0 where
    pub kept : Hinted x.0

  pub flow : (s : Shell E R) (f : Flow) → Hinted s → HintedFlow (s, f)
  flow s f h = record { kept = h }

  pub if-HintedFlow :
      (b : Bool) (x y : Shell E R × Flow)
      → HintedFlow x
      → HintedFlow y
      → HintedFlow (if b then x else y)
  if-HintedFlow true x y h k = h
  if-HintedFlow false x y h k = k

  pub after_execution-Hinted :
      (b : Bytes) (f : Bool) (r : Result (Unit {0})) (s : Shell E R)
      → Hinted s
      → HintedFlow (after_execution E R b f r s)
  after_execution-Hinted b true r s h = flow _ _ (record { bound = h.bound })
  after_execution-Hinted b false (err e) s h = flow _ _ (record { bound = h.bound })
  after_execution-Hinted b false (ok done) s h = flow _ _ (after_success-Hinted b s h)

  pub after_statement-Hinted :
      (b : Bytes) (o : Option (Result StatementExecution)) (s : Shell E R)
      → Hinted s
      → HintedFlow (after_statement E R b o s)
  after_statement-Hinted b none s h = flow _ _ h
  after_statement-Hinted b (some (err e)) s h = flow _ _ h
  after_statement-Hinted b (some (ok x)) s h =
      after_execution-Hinted b x.cancellation_failed x.result s h

  pub monitored-Hinted :
      (o : Option ApplicationError) (x : Shell E R × Flow) (s : Shell E R)
      → HintedFlow x
      → Hinted s
      → HintedFlow (monitored E R o x s)
  monitored-Hinted none x s h k = h
  monitored-Hinted (some e) x s h k = flow _ _ k

  pub run_statement-Hinted :
      (b : Bytes) (s : Shell E R) → Hinted s → HintedFlow (run_statement E R b s)
  unfolding run_statement
  run_statement-Hinted b s h =
      let ran = execute_with_signals E R (simple b) (s.world, s.session) in
      monitored-Hinted (R.monitor s.world) (after_statement E R b ran.0 (with_session E R ran.1 s))
        s (after_statement-Hinted b ran.0 (with_session E R ran.1 s) (record { bound = h.bound })) h

  pub then_run-Hinted :
      (rest : Shell E R → Shell E R × Flow) (x : Shell E R × Flow)
      → ((s : Shell E R) → Hinted s → HintedFlow (rest s))
      → HintedFlow x
      → HintedFlow (then_run E R rest x)
  then_run-Hinted rest (s, next) f h = f s h.kept
  then_run-Hinted rest (s, stop) f h = h
  then_run-Hinted rest (s, hung) f h = h
  then_run-Hinted rest (s, panic) f h = h
  then_run-Hinted rest (s, returned r) f h = h

  pub run_statements-Hinted :
      (l : List (Bytes × TransactionControl)) (s : Shell E R)
      → Hinted s
      → HintedFlow (run_statements E R l s)
  unfolding run_statements
  run_statements-Hinted [] s h = flow _ _ h
  run_statements-Hinted ((b, c) ∷ l) s h =
      then_run-Hinted (run_statements E R l) (run_statement E R b s) (run_statements-Hinted l)
        (run_statement-Hinted b s h)

  pub announced-Hinted : (x : Shell E R × Flow) → HintedFlow x → HintedFlow (announced E R x)
  announced-Hinted (s, next) h = flow _ _ (announce_reconnect-Hinted s h.kept)
  announced-Hinted (s, stop) h = flow _ _ (announce_reconnect-Hinted s h.kept)
  announced-Hinted (s, hung) h = flow _ _ h.kept
  announced-Hinted (s, panic) h = flow _ _ h.kept
  announced-Hinted (s, returned r) h = flow _ _ h.kept

  pub run_framed-Hinted :
      (r : Result (List (Bytes × TransactionControl))) (s : Shell E R)
      → Hinted s
      → HintedFlow (run_framed E R r s)
  run_framed-Hinted (err e) s h = flow _ _ (record { bound = h.bound })
  run_framed-Hinted (ok l) s h =
      announced-Hinted (run_statements E R l s) (run_statements-Hinted l s h)

  pub submit_input-Hinted :
      (b : Bytes) (s : Shell E R) → Hinted s → HintedFlow (submit_input E R b s)
  unfolding submit_input
  submit_input-Hinted b s h = run_framed-Hinted (frame_submission b) s h
