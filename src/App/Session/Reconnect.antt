-- ===== src/App/Session/Reconnect.antt =====
-- Reconnecting: the delays between the attempts, their number, and what an attempt may change.
use dsql_cli.Prelude.{
  ℕ, zero, suc, ◌+◌, ◌*◌, ◌^◌, ◌≤◌, ◌<◌, ◌≡◌, refl, arith, Bool, true, false, ◌⊎◌, inl, inr,
  if◌then◌else◌, ltb, List, [], ◌∷◌, ◌++◌, length, codes, sym, ap, ◌∙◌, append_assoc, append-nil,
}
use dsql_cli.App.Data.{ConnectionIntent, SessionSetting}
use dsql_cli.Error.{ApplicationError, runtime, Result, ok, err}
use dsql_cli.App.Session.{
  Environment, ManagedSession, Outcome, replace, after_attempt, reconnect_rounds, reconnect_delay,
  reconnect,
}

-- The jitter adds at most a quarter to the base of 50, 100 and 200 milliseconds.
pub reconnect_delay_bounds :
    (attempt seed : ℕ)
    → attempt < 3
    → (50 * 2 ^ attempt ≤ reconnect_delay attempt seed)
      × (4 * reconnect_delay attempt seed ≤ 5 * (50 * 2 ^ attempt))
unfolding reconnect_delay
reconnect_delay_bounds zero seed h = omega arith
reconnect_delay_bounds (suc zero) seed h = omega arith
reconnect_delay_bounds (suc (suc zero)) seed h = omega arith
reconnect_delay_bounds (suc (suc (suc n))) seed h = absurd (omega arith)

-- An attempt to connect: the intent and the settings to restore, and what came of it.
abbrev pub Attempt : Type 0 → Type 0
Attempt H = ConnectionIntent × List SessionSetting × Result H

-- A log that an observer reads off the world, and to which each attempt to connect is added.
pub record LogsAttempts (E : Environment) (log : E.World → List (Attempt E.Handle)) : Type 0 where
  pub connecting :
      (intent : ConnectionIntent) (settings : List SessionSetting) (w : E.World)
      → log (E.connect_restoring intent settings w).0
        ≡ log w ++ ((intent, settings, (E.connect_restoring intent settings w).1) ∷ [])
  pub sleeping : (ms : ℕ) (w : E.World) → log (E.sleep ms w) ≡ log w

-- The attempts that failed with these errors.
abbrev pub attempts_failed :
    {H : Type 0} → ConnectionIntent → List SessionSetting → List ApplicationError → List (Attempt H)
attempts_failed intent settings [] = []
attempts_failed intent settings (e ∷ errors) =
    (intent, settings, err e) ∷ attempts_failed intent settings errors

abbrev pub last_error : ApplicationError → List ApplicationError → ApplicationError
last_error e [] = e
last_error e (f ∷ errors) = last_error f errors

module _ (E : Environment) (log : E.World → List (Attempt E.Handle)) where
  -- Fewer than `n` attempts failed, and the next one gave the session.
  abbrev pub Replaced : ℕ → ConnectionIntent → ℕ → ManagedSession E → E.World → Outcome E → Type 0
  Replaced n intent now m w o =
      (errors : List ApplicationError) × (h : E.Handle) × (length errors < n)
      × (log o.0
          ≡ log w
            ++ (attempts_failed intent m.settings errors ++ ((intent, m.settings, ok h) ∷ [])))
      × (o.1 ≡ replace E m now h)
      × (o.2 ≡ ok tt)

  -- All `n` attempts failed, and the last error is returned.
  abbrev pub GivenUp :
      ℕ → ConnectionIntent → ApplicationError → ManagedSession E → E.World → Outcome E → Type 0
  GivenUp n intent last m w o =
      (errors : List ApplicationError) × (length errors ≡ n)
      × (log o.0 ≡ log w ++ attempts_failed intent m.settings errors)
      × (o.1 ≡ m)
      × (o.2 ≡ err (last_error last errors))

  abbrev Rounds :
      ℕ → ConnectionIntent → ℕ → ApplicationError → ManagedSession E → E.World → Outcome E → Type 0
  Rounds n intent now last m w o = Replaced n intent now m w o ⊎ GivenUp n intent last m w o

  -- What a reconnect comes to after `n` attempts at most.
  abbrev pub Reconnected : ℕ → ℕ → ManagedSession E → E.World → Outcome E → Type 0
  Reconnected n now m w o =
      Rounds n (E.metadata m.session).intent now
        (runtime (codes "could not reconnect database session")) m w o

  module _ (logs : LogsAttempts E log) where
    longer :
        (intent : ConnectionIntent) (m : ManagedSession E) (e : ApplicationError) (v w : E.World)
        (more : List (Attempt E.Handle))
        → log v ≡ log w ++ ((intent, m.settings, err e) ∷ [])
        → log v ++ more ≡ log w ++ ((intent, m.settings, err e) ∷ more)
    longer intent m e v w more added =
        ap (λ (l : List (Attempt E.Handle)). l ++ more) added
        ∙ append_assoc (log w) ((intent, m.settings, err e) ∷ []) more

    after_failure :
        (n now : ℕ) (intent : ConnectionIntent) (m : ManagedSession E) (last e : ApplicationError)
        (v w : E.World) (o : Outcome E)
        → log v ≡ log w ++ ((intent, m.settings, err e) ∷ [])
        → Rounds n intent now e m v o
        → Rounds (suc n) intent now last m w o
    after_failure n now intent m last e v w o added (inl r) =
        inl (
          e ∷ r.0,
          r.1,
          (let h = r.2 in omega arith),
          r.3 ∙ longer intent m e v w _ added,
          r.4,
          r.5,
        )
    after_failure n now intent m last e v w o added (inr r) =
        inr (e ∷ r.0, (let h = r.1 in omega arith), r.2 ∙ longer intent m e v w _ added, r.3, r.4)

    after_attempt-Rounds :
        (n now : ℕ) (intent : ConnectionIntent) (m : ManagedSession E) (last : ApplicationError)
        (w : E.World) (again : ApplicationError → E.World → Outcome E)
        (x : E.World × Result E.Handle)
        → log x.0 ≡ log w ++ ((intent, m.settings, x.1) ∷ [])
        → ((e : ApplicationError) (v : E.World)
            → (u : E.World) × (log u ≡ log v) × Rounds n intent now e m u (again e v))
        → Rounds (suc n) intent now last m w (after_attempt E m now again x)
    after_attempt-Rounds n now intent m last w again (v, ok h) added rest =
        inl ([], h, omega arith, added, refl, refl)
    after_attempt-Rounds n now intent m last w again (v, err e) added rest =
        let r = rest e v in after_failure n now intent m last e r.0 w (again e v) (r.1 ∙ added) r.2

    if-logged : (b : Bool) (ms : ℕ) (v : E.World) → log (if b then E.sleep ms v else v) ≡ log v
    if-logged true ms v = logs.sleeping ms v
    if-logged false ms v = refl

    reconnect_rounds-Rounds :
        (n attempt : ℕ) (intent : ConnectionIntent) (seed now : ℕ) (m : ManagedSession E)
        (last : ApplicationError) (w : E.World)
        → Rounds n intent now last m w (reconnect_rounds E n attempt intent seed now m last w)
    unfolding reconnect_rounds
    reconnect_rounds-Rounds zero attempt intent seed now m last w =
        inr ([], refl, sym (append-nil (log w)), refl, refl)
    reconnect_rounds-Rounds (suc n) attempt intent seed now m last w =
        after_attempt-Rounds n now intent m last w _ (E.connect_restoring intent m.settings w)
          (logs.connecting intent m.settings w)
          (λ e v. (
            (if ltb attempt 2 then E.sleep (reconnect_delay attempt seed) v else v),
            if-logged (ltb attempt 2) (reconnect_delay attempt seed) v,
            reconnect_rounds-Rounds n (attempt + 1) intent seed now m e _,
          ))

    -- A reconnect makes attempts to connect with the intent and the settings of the session, one
    -- after the other, until one succeeds, and three at most. Where one succeeds, it installs the
    -- handle of that attempt with a current clock, clears the requirement and sets the notice; where
    -- all three fail it leaves the session as it was and returns the last attempt's error.
    pub reconnect-Reconnected :
        (m : ManagedSession E) (now : ℕ) (w : E.World) → Reconnected 3 now m w (reconnect E m now w)
    unfolding reconnect
    reconnect-Reconnected m now w =
        reconnect_rounds-Rounds 3 0 (E.metadata m.session).intent _ now m
          (runtime (codes "could not reconnect database session")) w
