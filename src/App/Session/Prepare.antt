-- ===== src/App/Session/Prepare.antt =====
-- What the prompt says about the connection is what the next statement does.
use dsql_cli.Prelude.{ℕ, ◌≡◌, arith, codes, if◌then◌else◌}
use dsql_cli.App.Data.{ReconnectState, connected, due, deferred, required}
use dsql_cli.Error.{ok}
use dsql_cli.App.Session.{
  Environment, ManagedSession, Outcome, reconnect_state, prepare, reconnect, refuse, is_idle,
}

module _ (E : Environment) where
  -- A due connection is replaced, if the settings to restore are known.
  abbrev pub replace_or_refuse : ManagedSession E → ℕ → E.World → Outcome E
  replace_or_refuse m now w =
      if m.settings_current
      then reconnect E m now w
      else refuse E
          (codes
            "current session settings could not be captured; automatic reconnect is unsafe and the statement was not submitted")
          m w

  -- What `reconnect_state` announces for the next statement.
  abbrev pub announced : ReconnectState → ManagedSession E → ℕ → E.World → Outcome E
  announced connected m now w = (w, m, ok tt)
  announced deferred m now w = (w, m, ok tt)
  announced due m now w = replace_or_refuse m now w
  announced required m now w =
      if is_idle m.state
      then replace_or_refuse m now w
      else refuse E
          (codes
            "database connection requires reconnect but transaction state is not idle; statement was not submitted")
          m w
  announced ReconnectState.uncertain m now w =
      refuse E (codes "database session state is uncertain; statement was not submitted") m w

  -- Preparing a statement does what the announced state says: nothing while the session is
  -- connected or deferred; where a reconnect is due, or required at an idle boundary, a reconnect
  -- if the settings to restore are current and else a refusal; and a refusal in the other states. A
  -- refusal leaves the session and the world alone.
  pub prepare-reconnect_state :
      (m : ManagedSession E) (now : ℕ) (w : E.World)
      → prepare E m now w ≡ announced (reconnect_state E m now w) m now w
  unfolding prepare reconnect_state
  prepare-reconnect_state m now w = ground arith
