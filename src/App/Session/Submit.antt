-- ===== src/App/Session/Submit.antt =====
-- How often a statement is submitted, whatever the connection does.
use dsql_cli.Prelude.{
  ℕ, zero, suc, ◌+◌, ◌≤◌, ◌≡◌, refl, ◌∙◌, arith, Bool, true, false, ◌⊎◌, inl, inr, if◌then◌else◌,
  ltb, List, codes,
}
use dsql_cli.App.Data.{ConnectionIntent, SessionSetting}
use dsql_cli.Error.{ApplicationError, runtime, Result, ok, err}
use dsql_cli.App.Session.{
  Environment, ManagedSession, Outcome, Request, statement_of, after_attempt, reconnect_rounds,
  reconnect_delay, reconnect, prepare, finalize, submit, execute_at,
}
use dsql_cli.Sql.Keywords.{TransactionControl, classify_transaction_control}

-- A number that an observer reads off the world, and that only a submission raises, by one.
pub record CountsSubmissions (E : Environment) (count : E.World → ℕ) : Type 0 where
  pub executing :
      (h : E.Handle) (r : Request) (w : E.World) → count (E.execute h r w).0 ≡ count w + 1
  pub capturing : (h : E.Handle) (w : E.World) → count (E.capture h w).0 ≡ count w
  pub connecting :
      (intent : ConnectionIntent) (settings : List SessionSetting) (w : E.World)
      → count (E.connect_restoring intent settings w).0 ≡ count w
  pub sleeping : (ms : ℕ) (w : E.World) → count (E.sleep ms w) ≡ count w

module _ (E : Environment) (count : E.World → ℕ) (c : CountsSubmissions E count) where
  after_attempt-count :
      (now k : ℕ) (m : ManagedSession E) (again : ApplicationError → E.World → Outcome E)
      (x : E.World × Result E.Handle)
      → count x.0 ≡ k
      → ((e : ApplicationError) (v : E.World) → count v ≡ k → count (again e v).0 ≡ k)
      → count (after_attempt E m now again x).0 ≡ k
  after_attempt-count now k m again (v, ok h) same rest = same
  after_attempt-count now k m again (v, err e) same rest = rest e v same

  slept-count :
      (b : Bool) (ms k : ℕ) (v : E.World) → count v ≡ k → count (if b then E.sleep ms v else v) ≡ k
  slept-count true ms k v same = c.sleeping ms v ∙ same
  slept-count false ms k v same = same

  reconnect_rounds-count :
      (n attempt : ℕ) (intent : ConnectionIntent) (seed now : ℕ) (m : ManagedSession E)
      (last : ApplicationError) (w : E.World) (k : ℕ)
      → count w ≡ k
      → count (reconnect_rounds E n attempt intent seed now m last w).0 ≡ k
  unfolding reconnect_rounds
  reconnect_rounds-count zero attempt intent seed now m last w k same = same
  reconnect_rounds-count (suc n) attempt intent seed now m last w k same =
      after_attempt-count now k m
        (λ e v.
          reconnect_rounds E n (attempt + 1) intent seed now m e
            (if ltb attempt 2 then E.sleep (reconnect_delay attempt seed) v else v))
        (E.connect_restoring intent m.settings w) (c.connecting intent m.settings w ∙ same)
        (λ e v kept.
          reconnect_rounds-count n (attempt + 1) intent seed now m e _ k
            (slept-count (ltb attempt 2) (reconnect_delay attempt seed) k v kept))

  reconnect-count :
      (m : ManagedSession E) (now : ℕ) (w : E.World) → count (reconnect E m now w).0 ≡ count w
  unfolding reconnect
  reconnect-count m now w =
      reconnect_rounds-count 3 0 _ _ now m (runtime (codes "could not reconnect database session"))
        w (count w) refl

  prepare-count :
      (m : ManagedSession E) (now : ℕ) (w : E.World) → count (prepare E m now w).0 ≡ count w
  unfolding prepare
  prepare-count m now w = (let h = reconnect-count m now w in ground arith)

  finalize-count :
      (m : ManagedSession E) (r : Result (Unit {0})) (t : TransactionControl) (w : E.World)
      → count (finalize E m r t w).0 ≡ count w
  unfolding finalize
  finalize-count m (ok tt) t w = c.capturing m.session w
  finalize-count m (err e) t w = refl

  -- What became of a statement: reported as done, and then submitted, or failed, before or after
  -- it was submitted.
  abbrev pub SubmittedOnce : ℕ → Outcome E → Type 0
  SubmittedOnce k o =
      ((o.2 ≡ ok tt) × (count o.0 ≡ k + 1))
      ⊎ ((e : ApplicationError) × (o.2 ≡ err e) × (count o.0 ≤ k + 1))

  finalize-result :
      (m : ManagedSession E) (r : Result (Unit {0})) (t : TransactionControl) (w : E.World)
      → (finalize E m r t w).2 ≡ r
  unfolding finalize
  finalize-result m (ok tt) t w = refl
  finalize-result m (err e) t w = refl

  executed-SubmittedOnce :
      (k : ℕ) (o : Outcome E) (r : Result (Unit {0}))
      → o.2 ≡ r
      → count o.0 ≡ k + 1
      → SubmittedOnce k o
  executed-SubmittedOnce k o (ok done) same counted = inl (same, counted)
  executed-SubmittedOnce k o (err e) same counted = inr (e, same, omega arith)

  submit-SubmittedOnce : (r : Request) (o : Outcome E) → SubmittedOnce (count o.0) (submit E r o)
  unfolding submit
  submit-SubmittedOnce r (w, m, err e) = inr (e, refl, omega arith)
  submit-SubmittedOnce r (w, m, ok done) =
      let after = E.execute m.session r w in
      let m' = record m { session = after.1 } in
      let t = classify_transaction_control (statement_of r) in
      executed-SubmittedOnce (count w) (finalize E m' after.2 t after.0) after.2
        (finalize-result m' after.2 t after.0)
        (finalize-count m' after.2 t after.0 ∙ c.executing m.session r w)

  -- A statement is submitted at most once, however many attempts the reconnect before it made and
  -- whatever became of it; and it was submitted exactly once where the call reports success.
  pub execute_at-SubmittedOnce :
      (r : Request) (now : ℕ) (m : ManagedSession E) (w : E.World)
      → SubmittedOnce (count w) (execute_at E r now m w)
  unfolding execute_at
  execute_at-SubmittedOnce r now m w =
      rw (← prepare-count m now w) (submit-SubmittedOnce r (prepare E m now w))
