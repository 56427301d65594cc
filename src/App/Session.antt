-- ===== src/App/Session.antt =====
-- src/app.rs, `ManagedSession`: transaction state and reconnecting. The database adapter and the
-- connector stand behind trait objects; they are the environment, which acts on a world of its own.
pub mod Reconnect
pub mod Prepare
pub mod Submit
pub mod Reachable
pub mod Uncertain
use dsql_cli.Prelude.{
  ℕ, zero, suc, ◌+◌, ◌-◌, ◌*◌, ◌/◌, ◌%◌, ◌^◌, Bool, true, false, not, ◌&&◌, ◌||◌, Option, none,
  some, List, [], ◌∷◌, Bytes, Chars, codes, ltb, leb, if◌then◌else◌,
}
use dsql_cli.App.Data.{
  ConnectionIntent, TransactionState, idle, active, failed, SessionLiveness, alive, lost,
  ReconnectState, connected, due, deferred, required, SessionSetting, SessionMetadata,
}
use dsql_cli.Error.{ApplicationError, runtime, Result, ok, err}
use dsql_cli.Sql.Keywords.{
  TransactionControl, begin, commit, rollback, savepoint, release, rollback_to, other,
  classify_transaction_control,
}

unfoldable pub transition_transaction_state :
    TransactionState → TransactionControl → TransactionState
transition_transaction_state state begin = active
transition_transaction_state TransactionState.uncertain commit = TransactionState.uncertain
transition_transaction_state state commit = idle
transition_transaction_state TransactionState.uncertain rollback = TransactionState.uncertain
transition_transaction_state state rollback = idle
transition_transaction_state state savepoint = state
transition_transaction_state state release = state
transition_transaction_state state rollback_to = state
transition_transaction_state state other = state

-- 55 minutes, in nanoseconds.
abbrev pub proactive_reconnect_after : ℕ
proactive_reconnect_after = 55 * 60 * 1_000_000_000

-- `duration_since` fails where the clock went back.
unfoldable pub connection_is_due : ℕ → ℕ → Bool
connection_is_due connected_at now =
    leb connected_at now && leb proactive_reconnect_after (now - connected_at)

abbrev pub u64_mod : ℕ
u64_mod = 18446744073709551616

-- In milliseconds; `saturating_mul` does not saturate at the attempts that are made.
unfoldable pub reconnect_delay : ℕ → ℕ → ℕ
reconnect_delay attempt jitter_seed =
    let base = dsql_cli.Prelude.min (50 * 2 ^ attempt) (u64_mod - 1) in
    base + (jitter_seed * (attempt + 1) % u64_mod) % (base / 4 + 1)

abbrev pub is_idle : TransactionState → Bool
is_idle idle = true
is_idle _ = false

abbrev pub is_active : TransactionState → Bool
is_active active = true
is_active _ = false

abbrev pub is_uncertain : TransactionState → Bool
is_uncertain TransactionState.uncertain = true
is_uncertain _ = false

abbrev pub is_lost : SessionLiveness → Bool
is_lost lost = true
is_lost alive = false

abbrev pub is_begin : TransactionControl → Bool
is_begin begin = true
is_begin _ = false

-- A submitted statement: `execute` or `execute_params`.
pub data Request : Type 0 where
  simple : Bytes → Request
  with_params : Bytes → List Chars → Request

abbrev pub statement_of : Request → Bytes
statement_of (simple statement) = statement
statement_of (with_params statement params) = statement

-- The traits `SessionHandle` and `SessionConnector`, and the clock that sleeps. Rows go to the
-- caller's sink, which is part of the world.
pub record Environment : Type 1 where
  pub World : Type 0
  pub Handle : Type 0
  pub metadata : Handle → SessionMetadata
  pub liveness : Handle → World → SessionLiveness
  pub execute : Handle → Request → World → World × Handle × Result (Unit {0})
  pub capture : Handle → World → World × Result (List SessionSetting)
  pub connect_restoring : ConnectionIntent → List SessionSetting → World → World × Result Handle
  pub sleep : ℕ → World → World

module _ (E : Environment) where
  open E use {World, Handle, metadata, liveness, execute, capture, connect_restoring, sleep}

  pub record ManagedSession : Type 0 where
    pub session : Handle
    pub connected_at : ℕ
    pub state : TransactionState
    pub settings : List SessionSetting
    pub settings_current : Bool
    pub reconnect_required : Bool
    pub reconnected : Bool

  unfoldable pub new_session : Handle → ℕ → ManagedSession
  new_session session now = record {
    session = session;
    connected_at = now;
    state = (metadata session).transaction_state;
    settings = (metadata session).session_settings;
    settings_current = true;
    reconnect_required = false;
    reconnected = false;
  }

  unfoldable pub reconnect_state : ManagedSession → ℕ → World → ReconnectState
  reconnect_state m now w =
      if is_uncertain m.state
      then ReconnectState.uncertain
      else if m.reconnect_required || is_lost (liveness m.session w)
      then required
      else if connection_is_due m.connected_at now
      then (if is_idle m.state then due else deferred)
      else connected

  unfoldable pub mark_uncertain : ManagedSession → ManagedSession
  mark_uncertain m = record m { state = TransactionState.uncertain }

  unfoldable pub require_reconnect : ManagedSession → ManagedSession
  unfolding mark_uncertain
  require_reconnect m =
      if is_idle m.state then record m { reconnect_required = true } else mark_uncertain m

  unfoldable pub take_reconnected : ManagedSession → ManagedSession × Bool
  take_reconnected m = (record m { reconnected = false }, m.reconnected)

  -- A call on the session: the world behind it, the session, and the result.
  abbrev pub Outcome : Type 0
  Outcome = World × ManagedSession × Result (Unit {0})

  abbrev pub replace : ManagedSession → ℕ → Handle → ManagedSession
  replace m now handle = record m {
    session = handle;
    connected_at = now;
    reconnect_required = false;
    reconnected = true;
  }

  -- What a result of an attempt leads to: the replacement, or the next attempt.
  abbrev pub after_attempt :
      ManagedSession → ℕ → (ApplicationError → World → Outcome) → World × Result Handle → Outcome
  after_attempt m now again (w, ok handle) = (w, replace m now handle, ok tt)
  after_attempt m now again (w, err e) = again e w

  -- The rounds of `for attempt in 0..3` that are left, and the attempt's number.
  unfoldable pub reconnect_rounds :
      ℕ → ℕ → ConnectionIntent → ℕ → ℕ → ManagedSession → ApplicationError → World → Outcome
  reconnect_rounds zero attempt intent seed now m last w = (w, m, err last)
  reconnect_rounds (suc left) attempt intent seed now m last w =
      after_attempt m now
        (λ e w'.
          reconnect_rounds left (attempt + 1) intent seed now m e
            (if ltb attempt 2 then sleep (reconnect_delay attempt seed) w' else w'))
        (connect_restoring intent m.settings w)

  unfoldable pub reconnect : ManagedSession → ℕ → World → Outcome
  unfolding reconnect_rounds
  reconnect m now w =
      reconnect_rounds 3 0 (metadata m.session).intent (now % 1_000_000_000) now m
        (runtime (codes "could not reconnect database session")) w

  abbrev pub refuse : Chars → ManagedSession → World → Outcome
  refuse diagnostic m w = (w, m, err (runtime diagnostic))

  unfoldable pub prepare : ManagedSession → ℕ → World → Outcome
  prepare m now w =
      let must = m.reconnect_required || is_lost (liveness m.session w) in
      if is_uncertain m.state
      then refuse (codes "database session state is uncertain; statement was not submitted") m w
      else if must && not (is_idle m.state)
      then refuse
          (codes
            "database connection requires reconnect but transaction state is not idle; statement was not submitted")
          m w
      else if must || (is_idle m.state && connection_is_due m.connected_at now)
      then (if not m.settings_current
          then refuse
              (codes
                "current session settings could not be captured; automatic reconnect is unsafe and the statement was not submitted")
              m w
          else reconnect m now w)
      else (w, m, ok tt)

  abbrev with_settings : ManagedSession → Result (List SessionSetting) → ManagedSession
  with_settings m (ok settings) = record m { settings = settings; settings_current = true }
  with_settings m (err e) = record m { settings_current = false }

  -- What an error of the statement does to the session.
  unfoldable pub after_error :
      ManagedSession → TransactionControl → SessionLiveness → ManagedSession
  after_error m control lost = record m {
    reconnect_required = true;
    state =
        (if not (is_idle m.state) || is_begin control then TransactionState.uncertain else m.state);
  }
  after_error m control alive = if is_active m.state then record m { state = failed } else m

  unfoldable pub finalize :
      ManagedSession → Result (Unit {0}) → TransactionControl → World → Outcome
  unfolding after_error
  finalize m (ok done) control w =
      let (w', settings) = capture m.session w in
      (
        w',
        with_settings (record m { state = transition_transaction_state m.state control }) settings,
        ok done,
      )
  finalize m (err e) control w = (w, after_error m control (liveness m.session w), err e)

  -- `execute_at` and `execute_params`: prepare, submit, finalize.
  submit : Request → Outcome → Outcome
  submit request (w, m, err e) = (w, m, err e)
  submit request (w, m, ok done) =
      let (w', handle, result) = execute m.session request w in
      finalize (record m { session = handle }) result
        (classify_transaction_control (statement_of request)) w'

  unfoldable pub execute_at : Request → ℕ → ManagedSession → World → Outcome
  unfolding submit
  execute_at request now m w = submit request (prepare m now w)
