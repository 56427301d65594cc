-- ===== src/Dashboard.antt =====
-- src/dashboard/events.rs: the metrics dashboard as a machine over what its `select!`s observe. The
-- terminal that draws and the fetch that is started are operations of a world.
pub mod Displayed
pub mod Traces
use dsql_cli.Prelude.{
  ℕ, Bool, true, false, not, ◌||◌, Option, none, some, ◌>>=◌, List, [], ◌∷◌, Chars, codes, ◌==◌,
  if◌then◌else◌,
}
use dsql_cli.Error.{ApplicationError, runtime, Result, ok, err}

pub data MetricsRange : Type 0 where
  fifteen_minutes one_hour six_hours twenty_four_hours : MetricsRange

pub data MetricsFetchStatus : Type 0 where
  fresh stale unavailable : MetricsFetchStatus

-- The samples are floating-point numbers of a type that nothing here computes with.
pub record MetricSeries (Float : Type 0) : Type 0 where
  pub metric : Chars
  pub samples : List (Option Float)

pub record MetricsSnapshot (Float : Type 0) : Type 0 where
  pub range : MetricsRange
  pub fetched_at : Option ℕ
  pub series : List (MetricSeries Float)
  pub status : MetricsFetchStatus

unfoldable pub empty_metrics : {Float : Type 0} → MetricsRange → MetricsSnapshot Float
empty_metrics range = record { range = range; fetched_at = none; series = []; status = unavailable }

pub data DashboardAction : Type 0 where
  quit refresh : DashboardAction
  select_range : MetricsRange → DashboardAction

-- What crossterm reports of a key.
pub data KeyEventKind : Type 0 where
  press repeated release : KeyEventKind

pub data KeyCode : Type 0 where
  char : ℕ → KeyCode
  esc other_key : KeyCode

pub record KeyEvent : Type 0 where
  pub code : KeyCode
  pub no_modifiers : Bool
  pub kind : KeyEventKind

pub data DashboardEvent : Type 0 where
  key_event : KeyEvent → DashboardEvent
  other_terminal_event terminate : DashboardEvent

abbrev pub is_release : KeyEventKind → Bool
is_release release = true
is_release press = false
is_release repeated = false

abbrev pub action_for_code : KeyCode → Option DashboardAction
action_for_code esc = some quit
action_for_code other_key = none
action_for_code (char c) =
    if c == b'q'
    then some quit
    else if c == b'r'
    then some refresh
    else if c == b'1'
    then some (select_range fifteen_minutes)
    else if c == b'2'
    then some (select_range one_hour)
    else if c == b'3'
    then some (select_range six_hours)
    else if c == b'4'
    then some (select_range twenty_four_hours)
    else none

unfoldable pub action_for_key : KeyEvent → Option DashboardAction
action_for_key key =
    if is_release key.kind || not key.no_modifiers then none else action_for_code key.code

unfoldable pub event_action : Option (Result DashboardEvent) → Result (Option DashboardAction)
unfolding action_for_key
event_action (some (ok (key_event key))) = ok (action_for_key key)
event_action (some (ok other_terminal_event)) = ok none
event_action (some (ok terminate)) =
    err (runtime (codes "terminated while the metrics dashboard was active"))
event_action (some (err e)) = err e
event_action none = err (runtime (codes "metrics dashboard event monitor stopped unexpectedly"))

-- The terminal, and the start of a fetch.
pub record Screen (Float : Type 0) : Type 1 where
  pub World : Type 0
  pub fetch : MetricsRange → World → World
  pub draw : Result (MetricsSnapshot Float) → World → World × Option ApplicationError

module _ (Float : Type 0) (U : Screen Float) where
  -- Waiting for the fetch of a range, or for the refresh with the timer running.
  pub data Mode : Type 0 where
    fetching : MetricsRange → Mode
    resting : Mode

  pub record Dashboard : Type 0 where
    pub world : U.World
    pub range : MetricsRange
    pub displayed : Option (Result (MetricsSnapshot Float))
    pub mode : Mode

  pub data Occurrence : Type 0 where
    fetched : Result (MetricsSnapshot Float) → Occurrence
    event : Option (Result DashboardEvent) → Occurrence
    refresh_due : Occurrence

  pub data Progress : Type 0 where
    running panicked : Progress
    ended : Result (Unit {0}) → Progress

  -- The top of the loop `'dashboard`.
  unfoldable pub start_fetch : Dashboard → Dashboard
  start_fetch d = record d { world = U.fetch d.range d.world; mode = fetching d.range }

  abbrev pub drawn : Dashboard → U.World × Option ApplicationError → Dashboard × Progress
  drawn d (w, none) = (record d { world = w }, running)
  drawn d (w, some e) = (record d { world = w }, ended (err e))

  abbrev pub show : Result (MetricsSnapshot Float) → Dashboard → Dashboard × Progress
  show snapshot d = drawn d (U.draw snapshot d.world)

  -- `if let Some(data)` while a fetch is awaited, and `expect` behind it.
  abbrev pub redraw :
      Mode → Option (Result (MetricsSnapshot Float)) → Dashboard → Dashboard × Progress
  redraw mode (some snapshot) d = show snapshot d
  redraw (fetching range) none d = (d, running)
  redraw resting none d = (d, panicked)

  -- What an event comes to, in both of the loops.
  abbrev pub take_action : Result (Option DashboardAction) → Dashboard → Dashboard × Progress
  take_action (err e) d = (d, ended (err e))
  take_action (ok (some quit)) d = (d, ended (ok tt))
  take_action (ok (some refresh)) d = (start_fetch d, running)
  take_action (ok (some (select_range range))) d =
      (start_fetch (record d { range = range }), running)
  take_action (ok none) d = redraw d.mode d.displayed d

  -- One `select!`; none where it does not poll what occurs.
  unfoldable pub observe_dashboard : Mode → Occurrence → Dashboard → Option (Dashboard × Progress)
  unfolding start_fetch event_action
  observe_dashboard (fetching range) (fetched snapshot) d =
      some (show snapshot (record d { displayed = some snapshot; mode = resting }))
  observe_dashboard resting refresh_due d = some (start_fetch d, running)
  observe_dashboard mode (event e) d = some (take_action (event_action e) d)
  observe_dashboard _ _ d = none

  unfoldable pub run_dashboard_with :
      List Occurrence → Dashboard × Progress → Option (Dashboard × Progress)
  unfolding observe_dashboard
  run_dashboard_with [] x = some x
  run_dashboard_with (o ∷ trace) (d, ended r) = none
  run_dashboard_with (o ∷ trace) (d, panicked) = none
  run_dashboard_with (o ∷ trace) (d, running) =
      observe_dashboard d.mode o d >>= run_dashboard_with trace

  unfoldable pub new_dashboard : U.World → Dashboard
  unfolding start_fetch
  new_dashboard w =
      start_fetch (record { world = w; range = one_hour; displayed = none; mode = resting })
