-- ===== src/App/Session/Uncertain.antt =====
-- An uncertain session stays uncertain and is never used again.
use dsql_cli.Prelude.{ℕ, ◌≡◌, refl, ◌∙◌, ap, codes, arith}
use dsql_cli.App.Session.{
  Environment, ManagedSession, Request, prepare, submit, execute_at, is_uncertain, mark_uncertain,
  require_reconnect, take_reconnected, refuse,
}
use dsql_cli.App.Session.Reachable.{
  Step, executed, marked, reconnect_asked, notice_taken, Steps, none_left, then_step, Lost,
}

module _ (E : Environment) where
  prepare-Lost :
      (m : ManagedSession E) (now : ℕ) (w : E.World)
      → Lost E m
      → prepare E m now w
        ≡ refuse E (codes "database session state is uncertain; statement was not submitted") m w
  unfolding prepare
  prepare-Lost m now w gone = ground arith

  execute_at-Lost :
      (r : Request) (now : ℕ) (m : ManagedSession E) (w : E.World)
      → Lost E m
      → ((execute_at E r now m w).0 ≡ w) × ((execute_at E r now m w).1 ≡ m)
  unfolding execute_at submit
  execute_at-Lost r now m w gone = (rw (prepare-Lost m now w gone), rw (prepare-Lost m now w gone))

  -- What a step from an uncertain state keeps: the world, and the uncertainty.
  Step-Lost :
      (x y : E.World × ManagedSession E) → Step E x y → Lost E x.1 → (y.0 ≡ x.0) × Lost E y.1
  unfolding mark_uncertain require_reconnect take_reconnected
  Step-Lost _ _ (executed r now w m) gone =
      let same = execute_at-Lost r now m w gone in
      (same.0, ap (λ s. is_uncertain s.state) same.1 ∙ gone)
  Step-Lost _ _ (marked w m) gone = (refl, refl)
  Step-Lost _ _ (reconnect_asked w m) gone = (refl, ground arith)
  Step-Lost _ _ (notice_taken w m) gone = (refl, gone)

  -- An uncertain state is for ever: whatever is called on the session afterwards, nothing of it
  -- reaches the world, and the state stays uncertain.
  pub Steps-Lost :
      (x y : E.World × ManagedSession E) → Steps E x y → Lost E x.1 → (y.0 ≡ x.0) × Lost E y.1
  Steps-Lost _ _ (none_left _) gone = (refl, gone)
  Steps-Lost _ _ (then_step x y z before last) gone =
      let first = Steps-Lost x y before gone in
      let later = Step-Lost y z last first.1 in (later.0 ∙ first.0, later.1)
