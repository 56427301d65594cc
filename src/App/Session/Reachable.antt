-- ===== src/App/Session/Reachable.antt =====
-- The states a managed session reaches: every public method is a step.
use dsql_cli.Prelude.{
  ℕ, zero, suc, ◌≡◌, refl, ◌%◌, ◌+◌, ltb, codes, arith, true, false, not, ◌||◌, if◌then◌else◌, List,
}
use dsql_cli.App.Data.{ConnectionIntent, SessionSetting, SessionLiveness, alive, lost}
use dsql_cli.Error.{ApplicationError, runtime, Result, ok, err}
use dsql_cli.App.Session.{
  Environment, ManagedSession, Outcome, Request, statement_of, after_attempt, reconnect_rounds,
  reconnect_delay, reconnect, prepare, finalize, after_error, with_settings, submit, execute_at,
  is_uncertain, is_idle, mark_uncertain, require_reconnect, take_reconnected, new_session,
  transition_transaction_state,
}
use dsql_cli.Sql.Keywords.{TransactionControl, classify_transaction_control}

module _ (E : Environment) where
  -- One call of a method of the session, and what the world does between the calls.
  pub data Step : E.World × ManagedSession E → E.World × ManagedSession E → Type 0 where
    executed :
        (r : Request) (now : ℕ) (w : E.World) (m : ManagedSession E)
        → Step (w, m) ((execute_at E r now m w).0, (execute_at E r now m w).1)
    marked : (w : E.World) (m : ManagedSession E) → Step (w, m) (w, mark_uncertain E m)
    reconnect_asked : (w : E.World) (m : ManagedSession E) → Step (w, m) (w, require_reconnect E m)
    notice_taken : (w : E.World) (m : ManagedSession E) → Step (w, m) (w, (take_reconnected E m).0)

  pub data Steps : E.World × ManagedSession E → E.World × ManagedSession E → Type 0 where
    none_left : (x : E.World × ManagedSession E) → Steps x x
    then_step : (x y z : E.World × ManagedSession E) → Steps x y → Step y z → Steps x z

  -- A session that has recorded that its connection is to be replaced is at an idle boundary, or its
  -- state is uncertain. A handle that was lost without a call on it is not recorded.
  abbrev pub WellFormed : ManagedSession E → Type 0
  WellFormed m = (not m.reconnect_required || (is_idle m.state || is_uncertain m.state)) ≡ true

  -- A state that is uncertain.
  abbrev pub Lost : ManagedSession E → Type 0
  Lost m = is_uncertain m.state ≡ true

  after_attempt-WellFormed :
      (now : ℕ) (m : ManagedSession E) (again : ApplicationError → E.World → Outcome E)
      (x : E.World × Result E.Handle)
      → ((e : ApplicationError) (v : E.World) → WellFormed (again e v).1)
      → WellFormed (after_attempt E m now again x).1
  after_attempt-WellFormed now m again (v, ok h) rest = refl
  after_attempt-WellFormed now m again (v, err e) rest = rest e v

  reconnect_rounds-WellFormed :
      (n attempt : ℕ) (intent : ConnectionIntent) (seed now : ℕ) (m : ManagedSession E)
      (last : ApplicationError) (w : E.World)
      → WellFormed m
      → WellFormed (reconnect_rounds E n attempt intent seed now m last w).1
  unfolding reconnect_rounds
  reconnect_rounds-WellFormed zero attempt intent seed now m last w wf = wf
  reconnect_rounds-WellFormed (suc n) attempt intent seed now m last w wf =
      after_attempt-WellFormed now m
        (λ e v.
          reconnect_rounds E n (attempt + 1) intent seed now m e
            (if ltb attempt 2 then E.sleep (reconnect_delay attempt seed) v else v))
        (E.connect_restoring intent m.settings w)
        (λ e v. reconnect_rounds-WellFormed n (attempt + 1) intent seed now m e _ wf)

  prepare-WellFormed :
      (m : ManagedSession E) (now : ℕ) (w : E.World)
      → WellFormed m
      → WellFormed (prepare E m now w).1
  unfolding prepare reconnect
  prepare-WellFormed m now w wf =
      (let h =
          reconnect_rounds-WellFormed 3 0 (E.metadata m.session).intent (now % 1_000_000_000) now m
            (runtime (codes "could not reconnect database session")) w wf in
        ground arith)

  -- Once the statement may go out, no reconnect is pending.
  after_attempt-cleared :
      (now : ℕ) (m : ManagedSession E) (again : ApplicationError → E.World → Outcome E)
      (x : E.World × Result E.Handle)
      → ((e : ApplicationError) (v : E.World)
          → (again e v).2 ≡ ok tt
          → (again e v).1.reconnect_required ≡ false)
      → (after_attempt E m now again x).2 ≡ ok tt
      → (after_attempt E m now again x).1.reconnect_required ≡ false
  after_attempt-cleared now m again (v, ok h) rest done = refl
  after_attempt-cleared now m again (v, err e) rest done = rest e v done

  reconnect_rounds-cleared :
      (n attempt : ℕ) (intent : ConnectionIntent) (seed now : ℕ) (m : ManagedSession E)
      (last : ApplicationError) (w : E.World)
      → (reconnect_rounds E n attempt intent seed now m last w).2 ≡ ok tt
      → (reconnect_rounds E n attempt intent seed now m last w).1.reconnect_required ≡ false
  unfolding reconnect_rounds
  reconnect_rounds-cleared zero attempt intent seed now m last w done = absurd (grind arith)
  reconnect_rounds-cleared (suc n) attempt intent seed now m last w done =
      after_attempt-cleared now m
        (λ e v.
          reconnect_rounds E n (attempt + 1) intent seed now m e
            (if ltb attempt 2 then E.sleep (reconnect_delay attempt seed) v else v))
        (E.connect_restoring intent m.settings w)
        (λ e v. reconnect_rounds-cleared n (attempt + 1) intent seed now m e _) done

  reconnect-cleared :
      (m : ManagedSession E) (now : ℕ) (w : E.World)
      → (reconnect E m now w).2 ≡ ok tt
      → (reconnect E m now w).1.reconnect_required ≡ false
  unfolding reconnect
  reconnect-cleared m now w =
      reconnect_rounds-cleared 3 0 (E.metadata m.session).intent (now % 1_000_000_000) now m
        (runtime (codes "could not reconnect database session")) w

  prepare-cleared :
      (m : ManagedSession E) (now : ℕ) (w : E.World)
      → (prepare E m now w).2 ≡ ok tt
      → (prepare E m now w).1.reconnect_required ≡ false
  unfolding prepare
  prepare-cleared m now w done = (let h = reconnect-cleared m now w in ground arith)

  after_error-WellFormed :
      (m : ManagedSession E) (t : TransactionControl) (l : SessionLiveness)
      → m.reconnect_required ≡ false
      → WellFormed (after_error E m t l)
  unfolding after_error
  after_error-WellFormed m t l cleared = elim l [ lost ↦ ground arith | alive ↦ ground arith ]

  with_settings-reconnect_required :
      (m : ManagedSession E) (r : Result (List SessionSetting))
      → (with_settings E m r).reconnect_required ≡ m.reconnect_required
  with_settings-reconnect_required m (ok settings) = refl
  with_settings-reconnect_required m (err e) = refl

  finalize-WellFormed :
      (m : ManagedSession E) (r : Result (Unit {0})) (t : TransactionControl) (w : E.World)
      → m.reconnect_required ≡ false
      → WellFormed (finalize E m r t w).1
  unfolding finalize
  finalize-WellFormed m (err e) t w cleared =
      after_error-WellFormed m t (E.liveness m.session w) cleared
  finalize-WellFormed m (ok done) t w cleared =
      (let same =
          with_settings-reconnect_required
            (record m { state = transition_transaction_state m.state t })
            (E.capture m.session w).1 in
        ground arith)

  submit-WellFormed :
      (r : Request) (o : Outcome E)
      → WellFormed o.1
      → (o.2 ≡ ok tt → o.1.reconnect_required ≡ false)
      → WellFormed (submit E r o).1
  unfolding submit
  submit-WellFormed r (w, m, err e) wf cleared = wf
  submit-WellFormed r (w, m, ok tt) wf cleared =
      let after = E.execute m.session r w in
      finalize-WellFormed (record m { session = after.1 }) after.2
        (classify_transaction_control (statement_of r)) after.0 (cleared refl)

  execute_at-WellFormed :
      (r : Request) (now : ℕ) (m : ManagedSession E) (w : E.World)
      → WellFormed m
      → WellFormed (execute_at E r now m w).1
  unfolding execute_at
  execute_at-WellFormed r now m w wf =
      submit-WellFormed r (prepare E m now w) (prepare-WellFormed m now w wf)
        (prepare-cleared m now w)

  Step-WellFormed : (x y : E.World × ManagedSession E) → Step x y → WellFormed x.1 → WellFormed y.1
  unfolding mark_uncertain require_reconnect take_reconnected
  Step-WellFormed _ _ (executed r now w m) wf = execute_at-WellFormed r now m w wf
  Step-WellFormed _ _ (marked w m) wf = ground arith
  Step-WellFormed _ _ (reconnect_asked w m) wf = ground arith
  Step-WellFormed _ _ (notice_taken w m) wf = wf

  Steps-keep : (x y : E.World × ManagedSession E) → Steps x y → WellFormed x.1 → WellFormed y.1
  Steps-keep _ _ (none_left _) wf = wf
  Steps-keep _ _ (then_step x y z before last) wf =
      Step-WellFormed y z last (Steps-keep x y before wf)

  -- From a new session on, whatever the calls and their results, the flag `reconnect_required` is
  -- set only where the state is idle or uncertain.
  pub Steps-WellFormed :
      (h : E.Handle) (now : ℕ) (w : E.World) (y : E.World × ManagedSession E)
      → Steps (w, new_session E h now) y
      → WellFormed y.1
  unfolding new_session
  Steps-WellFormed h now w y steps = Steps-keep (w, new_session E h now) y steps refl
