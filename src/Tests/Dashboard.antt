-- ===== src/Tests/Dashboard.antt =====
-- src/dashboard/events.rs: keys and a run of the dashboard, and the theorem at it.
use dsql_cli.Prelude.{ℕ, ◌≡◌, refl, true, false, none, some, List, [], ◌∷◌}
use dsql_cli.Error.{Result, ok}
use dsql_cli.Dashboard
use dsql_cli.Dashboard.{
  MetricsRange, one_hour, six_hours, MetricsSnapshot, empty_metrics, quit, select_range, press,
  release, char, KeyEvent, key_event, action_for_key, Screen, Occurrence, fetched, event,
  refresh_due, running, ended, run_dashboard_with, new_dashboard, Progress,
}
use dsql_cli.Dashboard.Displayed.{LogsScreen, Displays, new_dashboard-Displays}

abbrev key : ℕ → KeyEvent
key c = record { code = char c; no_modifiers = true; kind = press }

keys :
    (action_for_key (key b'3') ≡ some (select_range six_hours))
    × (action_for_key (record (key b'q') { kind = release }) ≡ none)
    × (action_for_key (record (key b'q') { no_modifiers = false }) ≡ none)
unfolding action_for_key
keys = (refl, refl, refl)

-- The ranges that were asked for, and what was drawn.
abbrev asking : Screen (Unit {0})
asking = record {
  World = List MetricsRange × List (Result (MetricsSnapshot (Unit {0})));
  fetch = λ r w. (r ∷ w.0, w.1);
  draw = λ s w. ((w.0, s ∷ w.1), none);
}

abbrev asked_for : asking.World → List MetricsRange
asked_for w = w.0

abbrev drawn_on : asking.World → List (Result (MetricsSnapshot (Unit {0})))
drawn_on w = w.1

asking-LogsScreen : LogsScreen (Unit {0}) asking asked_for drawn_on
asking-LogsScreen = record {
  fetching_adds = λ r w. (refl, refl);
  drawing_adds = λ s w. (refl, refl);
}

abbrev shown : Result (MetricsSnapshot (Unit {0}))
shown = ok (empty_metrics one_hour)

abbrev trace : List (Occurrence (Unit {0}) asking)
trace =
    fetched shown
    ∷ event (some (ok (key_event (key b'3'))))
    ∷ event (some (ok (key_event (key b'q'))))
    ∷ []

asks :
    run_dashboard_with (Unit {0}) asking trace (new_dashboard (Unit {0}) asking ([], []), running)
    ≡ some (
      record {
        world = (six_hours ∷ one_hour ∷ [], shown ∷ []);
        range = six_hours;
        displayed = some shown;
        mode = Dashboard.fetching six_hours;
      },
      ended (ok tt),
    )
unfolding run_dashboard_with new_dashboard action_for_key
asks = refl

new_dashboard-Displays_example :
    Displays
      (Unit {0})
      asking
      asked_for
      drawn_on
      six_hours
      (some shown)
      (six_hours ∷ one_hour ∷ [])
      (shown ∷ [])
      (
        record {
          world = (six_hours ∷ one_hour ∷ [], shown ∷ []);
          range = six_hours;
          displayed = some shown;
          mode = Dashboard.fetching six_hours;
        },
        ended (ok tt),
      )
unfolding Dashboard.event_action action_for_key
new_dashboard-Displays_example =
    new_dashboard-Displays (Unit {0}) asking asked_for drawn_on asking-LogsScreen trace ([], []) _
      asks
