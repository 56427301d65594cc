-- ===== src/Tests/Session.antt =====
-- src/app.rs: a session over an environment that counts, and the theorems at it.
use dsql_cli.Prelude.{
  ℕ, ◌+◌, ◌≡◌, refl, true, false, none, List, [], ◌∷◌, ◌++◌, length, codes, if◌then◌else◌, leb,
}
use dsql_cli.App.Data.{
  TransactionState, idle, alive, ConnectionIntent, cancellation_unavailable, ClusterTarget, admin,
}
use dsql_cli.Error.{runtime, Result, ok, err}
use dsql_cli.App.Session
use dsql_cli.App.Session.{
  Environment, ManagedSession, Request, simple, new_session, execute_at, reconnect, prepare,
  mark_uncertain, require_reconnect, reconnect_state, is_uncertain, is_idle, reconnect_delay,
}
use dsql_cli.App.Session.Reconnect.{Attempt, LogsAttempts, Reconnected, reconnect-Reconnected}
use dsql_cli.App.Session.Prepare.{announced, prepare-reconnect_state}
use dsql_cli.App.Session.Submit.{CountsSubmissions, SubmittedOnce, execute_at-SubmittedOnce}
use dsql_cli.App.Session.Reachable.{
  executed, marked, reconnect_asked, Steps, none_left, then_step, WellFormed, Steps-WellFormed,
}
use dsql_cli.App.Session.Uncertain.{Steps-Lost}

abbrev target : ClusterTarget
target = record {
  id = codes "cluster";
  region = codes "us-east-1";
  endpoint = none;
  arn = none;
  status = none;
  display_name = none;
}

abbrev intent : ConnectionIntent
intent = record { target = target; role = admin; tls_roots = []; application_name = codes "dsql" }

-- The world counts submissions and attempts. The first attempt to connect fails.
abbrev connect_second : ℕ → Result ℕ
connect_second attempts = if leb 1 attempts then ok 7 else err (runtime (codes "refused"))

abbrev counting : Environment
counting = record {
  World = ℕ × ℕ;
  Handle = ℕ;
  metadata = λ h. record {
    intent = intent;
    connected_at = 0;
    cancellation = cancellation_unavailable;
    transaction_state = idle;
    session_settings = [];
  };
  liveness = λ h w. alive;
  execute = λ h r w. ((w.0 + 1, w.1), h, ok tt);
  capture = λ h w. (w, ok []);
  connect_restoring = λ i settings w. ((w.0, w.1 + 1), connect_second w.1);
  sleep = λ ms w. w;
}

abbrev submissions : ℕ × ℕ → ℕ
submissions w = w.0

counting-CountsSubmissions : CountsSubmissions counting submissions
counting-CountsSubmissions = record {
  executing = λ h r w. refl;
  capturing = λ h w. refl;
  connecting = λ i s w. refl;
  sleeping = λ ms w. refl;
}

abbrev start : ManagedSession counting
start = record {
  session = 3;
  connected_at = 0;
  state = idle;
  settings = [];
  settings_current = true;
  reconnect_required = false;
  reconnected = false;
}

abbrev begin_request : Request
begin_request = simple (codes "BEGIN")

-- An hour later the session is due: the second attempt connects, and the statement goes out.
due_reconnect : (execute_at counting begin_request 3_600_000_000_000 start (0, 0)).0 ≡ (1, 2)
unfolding execute_at prepare reconnect reconnect_delay Session.connection_is_due Session.finalize
due_reconnect = refl

execute_at-SubmittedOnce_example :
    SubmittedOnce counting submissions counting-CountsSubmissions 0
      (execute_at counting begin_request 3_600_000_000_000 start (0, 0))
execute_at-SubmittedOnce_example =
    execute_at-SubmittedOnce counting submissions counting-CountsSubmissions begin_request
      3_600_000_000_000 start (0, 0)

-- The world is the attempts that were made. The first one fails.
abbrev recording : Environment
recording = record {
  World = List (Attempt ℕ);
  Handle = ℕ;
  metadata = λ h. record {
    intent = intent;
    connected_at = 0;
    cancellation = cancellation_unavailable;
    transaction_state = idle;
    session_settings = [];
  };
  liveness = λ h w. alive;
  execute = λ h r w. (w, h, ok tt);
  capture = λ h w. (w, ok []);
  connect_restoring = λ i settings w.
      (w ++ ((i, settings, connect_second (length w)) ∷ []), connect_second (length w));
  sleep = λ ms w. w;
}

abbrev attempts_of : List (Attempt ℕ) → List (Attempt ℕ)
attempts_of w = w

recording-LogsAttempts : LogsAttempts recording attempts_of
recording-LogsAttempts = record { connecting = λ i s w. refl; sleeping = λ ms w. refl }

abbrev stale_session : ManagedSession recording
stale_session = record {
  session = 3;
  connected_at = 0;
  state = idle;
  settings = [];
  settings_current = true;
  reconnect_required = true;
  reconnected = false;
}

reconnect-Reconnected_example :
    Reconnected recording attempts_of 3 5 stale_session [] (reconnect recording stale_session 5 [])
reconnect-Reconnected_example =
    reconnect-Reconnected recording attempts_of recording-LogsAttempts stale_session 5 []

prepare-reconnect_state_example :
    prepare counting start 3_600_000_000_000 (0, 0)
    ≡ announced counting
        (reconnect_state counting start 3_600_000_000_000 (0, 0))
        start
        3_600_000_000_000
        (0, 0)
prepare-reconnect_state_example = prepare-reconnect_state counting start 3_600_000_000_000 (0, 0)

-- A statement, a reconnect that is asked for while the session is idle, and then the caller gives
-- the session up.
abbrev after_select : (ℕ × ℕ) × ManagedSession counting
after_select = (
  (execute_at counting (simple (codes "SELECT 1")) 5 (new_session counting 3 0) (0, 0)).0,
  (execute_at counting (simple (codes "SELECT 1")) 5 (new_session counting 3 0) (0, 0)).1,
)

abbrev after_asking : (ℕ × ℕ) × ManagedSession counting
after_asking = (after_select.0, require_reconnect counting after_select.1)

abbrev after_mark : (ℕ × ℕ) × ManagedSession counting
after_mark = (after_asking.0, mark_uncertain counting after_asking.1)

flag_is_set : after_mark.1.reconnect_required ≡ true
unfolding execute_at prepare reconnect reconnect_delay Session.connection_is_due Session.finalize
    require_reconnect mark_uncertain new_session Session.transition_transaction_state
    dsql_cli.Sql.Keywords.classify_transaction_control
flag_is_set = refl

asked_and_marked : Steps counting ((0, 0), new_session counting 3 0) after_mark
asked_and_marked =
    then_step _ after_asking _
      (then_step _ after_select _
        (then_step _ ((0, 0), new_session counting 3 0) _ (none_left _)
          (executed (simple (codes "SELECT 1")) 5 (0, 0) (new_session counting 3 0)))
        (reconnect_asked after_select.0 after_select.1))
      (marked after_asking.0 after_asking.1)

Steps-WellFormed_example : WellFormed counting (mark_uncertain counting after_asking.1)
Steps-WellFormed_example = Steps-WellFormed counting 3 0 (0, 0) after_mark asked_and_marked

abbrev given_up : ManagedSession counting
given_up = record start { state = TransactionState.uncertain }

abbrev refused : (ℕ × ℕ) × ManagedSession counting
refused = (
  (execute_at counting begin_request 5 given_up (4, 1)).0,
  (execute_at counting begin_request 5 given_up (4, 1)).1,
)

given_up_and_called : Steps counting ((4, 1), given_up) refused
given_up_and_called =
    then_step _ ((4, 1), given_up) _ (none_left _) (executed begin_request 5 (4, 1) given_up)

Steps-Lost_example : (refused.0 ≡ (4, 1)) × (is_uncertain refused.1.state ≡ true)
Steps-Lost_example = Steps-Lost counting ((4, 1), given_up) refused given_up_and_called refl
