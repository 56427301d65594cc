-- ===== src/Dashboard/Traces.antt =====
-- What a trace of occurrences selects, shows, fetches and draws, by itself.
use dsql_cli.Prelude.{Option, none, some, List, [], ◌∷◌}
use dsql_cli.Error.{Result, ok, err}
use dsql_cli.Dashboard.{
  MetricsRange, MetricsSnapshot, DashboardAction, quit, refresh, select_range, event_action, Screen,
  Occurrence, fetched, event, refresh_due,
}

module _ (Float : Type 0) (U : Screen Float) where
  abbrev pub after_action : Result (Option DashboardAction) → MetricsRange → MetricsRange
  after_action (ok (some (select_range r))) range = r
  after_action (ok (some quit)) range = range
  after_action (ok (some refresh)) range = range
  after_action (ok none) range = range
  after_action (err e) range = range

  -- The range that was selected last.
  abbrev pub selected : List (Occurrence Float U) → MetricsRange → MetricsRange
  selected [] range = range
  selected (fetched s ∷ trace) range = selected trace range
  selected (refresh_due ∷ trace) range = selected trace range
  selected (event e ∷ trace) range = selected trace (after_action (event_action e) range)

  -- The result that was fetched last, a snapshot or an error.
  abbrev pub latest :
      List (Occurrence Float U)
      → Option (Result (MetricsSnapshot Float))
      → Option (Result (MetricsSnapshot Float))
  latest [] shown = shown
  latest (fetched s ∷ trace) shown = latest trace (some s)
  latest (refresh_due ∷ trace) shown = latest trace shown
  latest (event e ∷ trace) shown = latest trace shown

  -- The fetches that the trace asks for, the newest first.
  abbrev pub asked_by :
      Result (Option DashboardAction) → MetricsRange → List MetricsRange → List MetricsRange
  asked_by (ok (some (select_range r))) range before = r ∷ before
  asked_by (ok (some refresh)) range before = range ∷ before
  asked_by (ok (some quit)) range before = before
  asked_by (ok none) range before = before
  asked_by (err e) range before = before

  abbrev pub asked :
      List (Occurrence Float U) → MetricsRange → List MetricsRange → List MetricsRange
  asked [] range before = before
  asked (fetched s ∷ trace) range before = asked trace range before
  asked (refresh_due ∷ trace) range before = asked trace range (range ∷ before)
  asked (event e ∷ trace) range before =
      asked trace (after_action (event_action e) range) (asked_by (event_action e) range before)

  -- What the trace has drawn, the newest first: every result as it comes, and the one that is shown
  -- again behind an event that is no action.
  abbrev pub drawn_again :
      Result (Option DashboardAction)
      → Option (Result (MetricsSnapshot Float))
      → List (Result (MetricsSnapshot Float))
      → List (Result (MetricsSnapshot Float))
  drawn_again (ok none) (some s) before = s ∷ before
  drawn_again (ok none) none before = before
  drawn_again (ok (some action)) shown before = before
  drawn_again (err e) shown before = before

  abbrev pub drawings :
      List (Occurrence Float U)
      → Option (Result (MetricsSnapshot Float))
      → List (Result (MetricsSnapshot Float))
      → List (Result (MetricsSnapshot Float))
  drawings [] shown before = before
  drawings (fetched s ∷ trace) shown before = drawings trace (some s) (s ∷ before)
  drawings (refresh_due ∷ trace) shown before = drawings trace shown before
  drawings (event e ∷ trace) shown before =
      drawings trace shown (drawn_again (event_action e) shown before)
