-- ===== src/Dashboard/Displayed.antt =====
-- What the dashboard shows and waits for, after any events.
use mathlib.Core.Path.{subst}
use dsql_cli.Prelude.{
  ◌≡◌, refl, ap, ◌∙◌, Bool, true, false, Option, none, some, ◌>>=◌, List, [], ◌∷◌,
}
use dsql_cli.Error.{ApplicationError, Result, ok, err}
use dsql_cli.Dashboard.Traces.{
  after_action, selected, latest, asked_by, asked, drawn_again, drawings,
}
use dsql_cli.Dashboard.{
  MetricsRange, one_hour, MetricsSnapshot, DashboardAction, quit, refresh, select_range,
  event_action, Screen, Mode, fetching, resting, Dashboard, Occurrence, fetched, event, refresh_due,
  Progress, running, panicked, ended, start_fetch, drawn, show, redraw, take_action,
  observe_dashboard, run_dashboard_with, new_dashboard,
}

module _ (Float : Type 0) (U : Screen Float) where
  -- A fetch that is awaited is one of the range; there is something to show where none is.
  abbrev pub Coherent :
      MetricsRange → Option (Result (MetricsSnapshot Float)) → Mode Float U → Type 0
  Coherent range displayed (fetching asked) = asked ≡ range
  Coherent range displayed resting = (s : Result (MetricsSnapshot Float)) × (displayed ≡ some s)

  abbrev pub is_panicked : Progress Float U → Bool
  is_panicked running = false
  is_panicked panicked = true
  is_panicked (ended r) = false

module _ (Float : Type 0) (U : Screen Float) (fetches : U.World → List MetricsRange)
    (draws : U.World → List (Result (MetricsSnapshot Float))) where
  -- The logs of the world are the fetches that were started and the results that the terminal was
  -- given to draw, the newest first.
  pub record LogsScreen : Type 0 where
    pub fetching_adds :
        (range : MetricsRange) (w : U.World)
        → (fetches (U.fetch range w) ≡ range ∷ fetches w) × (draws (U.fetch range w) ≡ draws w)
    pub drawing_adds :
        (s : Result (MetricsSnapshot Float)) (w : U.World)
        → (fetches (U.draw s w).0 ≡ fetches w) × (draws (U.draw s w).0 ≡ s ∷ draws w)

  pub record Displays (range : MetricsRange) (shown : Option (Result (MetricsSnapshot Float)))
      (fs : List MetricsRange) (ds : List (Result (MetricsSnapshot Float)))
      (x : Dashboard Float U × Progress Float U) : Type 0 where
    pub range_is : x.0.range ≡ range
    pub displayed_is : x.0.displayed ≡ shown
    pub fetches_are : fetches x.0.world ≡ fs
    pub draws_are : draws x.0.world ≡ ds
    pub coherent : Coherent Float U x.0.range x.0.displayed x.0.mode
    pub not_panicked : is_panicked Float U x.1 ≡ false

  module _ (logs : LogsScreen) where
    drawn-Displays :
        (range : MetricsRange) (shown : Option (Result (MetricsSnapshot Float)))
        (fs : List MetricsRange) (ds : List (Result (MetricsSnapshot Float)))
        (s : Result (MetricsSnapshot Float)) (d : Dashboard Float U)
        (r : U.World × Option ApplicationError)
        → fetches r.0 ≡ fetches d.world
        → draws r.0 ≡ s ∷ draws d.world
        → Displays range shown fs ds (d, running)
        → Displays range shown fs (s ∷ ds) (drawn Float U d r)
    drawn-Displays range shown fs ds s d (w, none) f g h = record {
      range_is = h.range_is;
      displayed_is = h.displayed_is;
      fetches_are = f ∙ h.fetches_are;
      draws_are = g ∙ ap (λ (l : List (Result (MetricsSnapshot Float))). s ∷ l) h.draws_are;
      coherent = h.coherent;
      not_panicked = refl;
    }
    drawn-Displays range shown fs ds s d (w, some e) f g h = record {
      range_is = h.range_is;
      displayed_is = h.displayed_is;
      fetches_are = f ∙ h.fetches_are;
      draws_are = g ∙ ap (λ (l : List (Result (MetricsSnapshot Float))). s ∷ l) h.draws_are;
      coherent = h.coherent;
      not_panicked = refl;
    }

    show-Displays :
        (range : MetricsRange) (shown : Option (Result (MetricsSnapshot Float)))
        (fs : List MetricsRange) (ds : List (Result (MetricsSnapshot Float)))
        (s : Result (MetricsSnapshot Float)) (d : Dashboard Float U)
        → Displays range shown fs ds (d, running)
        → Displays range shown fs (s ∷ ds) (show Float U s d)
    show-Displays range shown fs ds s d h =
        drawn-Displays range shown fs ds s d (U.draw s d.world) (logs.drawing_adds s d.world).0
          (logs.drawing_adds s d.world).1 h

    redraw-Displays :
        (d : Dashboard Float U) (mode : Mode Float U) (o : Option (Result (MetricsSnapshot Float)))
        → d.mode ≡ mode
        → d.displayed ≡ o
        → Displays d.range o (fetches d.world) (draws d.world) (d, running)
        → Displays d.range o
            (fetches d.world)
            (drawn_again Float U (ok none) o (draws d.world))
            (redraw Float U mode o d)
    redraw-Displays d mode (some s) e f h =
        show-Displays d.range (some s) (fetches d.world) (draws d.world) s d h
    redraw-Displays d (fetching asked) none e f h = h
    redraw-Displays d resting none e f h =
        absurd
          (let c = subst (Coherent Float U d.range d.displayed) e h.coherent in let g = c.1 in cc)

    start_fetch-Displays :
        (d : Dashboard Float U)
        → Displays d.range d.displayed
            (d.range ∷ fetches d.world)
            (draws d.world)
            (start_fetch Float U d, running)
    unfolding start_fetch
    start_fetch-Displays d = record {
      range_is = refl;
      displayed_is = refl;
      fetches_are = (logs.fetching_adds d.range d.world).0;
      draws_are = (logs.fetching_adds d.range d.world).1;
      coherent = refl;
      not_panicked = refl;
    }

    -- What the dashboard holds by itself.
    abbrev Now : Dashboard Float U × Progress Float U → Type 0
    Now x = Displays x.0.range x.0.displayed (fetches x.0.world) (draws x.0.world) x

    now :
        (d : Dashboard Float U) (p : Progress Float U)
        → Coherent Float U d.range d.displayed d.mode
        → is_panicked Float U p ≡ false
        → Now (d, p)
    now d p c n = record {
      range_is = refl;
      displayed_is = refl;
      fetches_are = refl;
      draws_are = refl;
      coherent = c;
      not_panicked = n;
    }

    take_action-Displays :
        (d : Dashboard Float U) (a : Result (Option DashboardAction))
        → Now (d, running)
        → Displays
            (after_action Float U a d.range)
            d.displayed
            (asked_by Float U a d.range (fetches d.world))
            (drawn_again Float U a d.displayed (draws d.world))
            (take_action Float U a d)
    take_action-Displays d (err e) h = now d (ended (err e)) h.coherent refl
    take_action-Displays d (ok (some quit)) h = now d (ended (ok tt)) h.coherent refl
    take_action-Displays d (ok (some refresh)) h = start_fetch-Displays d
    take_action-Displays d (ok (some (select_range r))) h =
        start_fetch-Displays (record d { range = r })
    take_action-Displays d (ok none) h = redraw-Displays d d.mode d.displayed refl refl h

    -- What a trace makes of what is selected, shown, fetched and drawn.
    abbrev pub After :
        List (Occurrence Float U)
        → Dashboard Float U
        → Dashboard Float U × Progress Float U
        → Type 0
    After trace d x =
        Displays (selected Float U trace d.range) (latest Float U trace d.displayed)
          (asked Float U trace d.range (fetches d.world))
          (drawings Float U trace d.displayed (draws d.world)) x

    abbrev Next :
        Occurrence Float U
        → Dashboard Float U
        → Option (Dashboard Float U × Progress Float U)
        → Type 0
    Next o d none = Unit
    Next o d (some x) = After (o ∷ []) d x

    observe-Next :
        (mode : Mode Float U) (o : Occurrence Float U) (d : Dashboard Float U)
        → Now (d, running)
        → Next o d (observe_dashboard Float U mode o d)
    unfolding observe_dashboard
    observe-Next (fetching asked) (fetched s) d h =
        let t = record d { displayed = some s; mode = resting } in
        show-Displays d.range (some s) (fetches d.world) (draws d.world) s t
          (now t running (s, refl) refl)
    observe-Next resting (fetched s) d h = tt
    observe-Next resting refresh_due d h = start_fetch-Displays d
    observe-Next (fetching asked) refresh_due d h = tt
    observe-Next (fetching asked) (event e) d h = take_action-Displays d (event_action e) h
    observe-Next resting (event e) d h = take_action-Displays d (event_action e) h

    some-injective : (x y : Dashboard Float U × Progress Float U) → some x ≡ some y → x ≡ y
    some-injective x y e = cc

    abbrev RunDisplays : List (Occurrence Float U) → Type 0
    RunDisplays trace =
        (d : Dashboard Float U) (x : Dashboard Float U × Progress Float U)
        → Now (d, running)
        → run_dashboard_with Float U trace (d, running) ≡ some x
        → After trace d x

    -- The rest of a trace, from a dashboard whose values and logs are known.
    along :
        (trace : List (Occurrence Float U)) (t : Dashboard Float U)
        (x : Dashboard Float U × Progress Float U) (range : MetricsRange)
        (shown : Option (Result (MetricsSnapshot Float))) (fs : List MetricsRange)
        (ds : List (Result (MetricsSnapshot Float)))
        → t.range ≡ range
        → t.displayed ≡ shown
        → fetches t.world ≡ fs
        → draws t.world ≡ ds
        → After trace t x
        → Displays
            (selected Float U trace range)
            (latest Float U trace shown)
            (asked Float U trace range fs)
            (drawings Float U trace shown ds)
            x
    along trace t x range shown fs ds e f g h r = record {
      range_is = r.range_is ∙ ap (selected Float U trace) e;
      displayed_is = r.displayed_is ∙ ap (latest Float U trace) f;
      fetches_are =
          r.fetches_are
          ∙ ap (λ q. asked Float U trace q (fetches t.world)) e
          ∙ ap (asked Float U trace range) g;
      draws_are =
          r.draws_are
          ∙ ap (λ q. drawings Float U trace q (draws t.world)) f
          ∙ ap (drawings Float U trace shown) h;
      coherent = r.coherent;
      not_panicked = r.not_panicked;
    }

    prepend-After :
        (o : Occurrence Float U) (trace : List (Occurrence Float U)) (d t : Dashboard Float U)
        (p : Progress Float U) (x : Dashboard Float U × Progress Float U)
        → After (o ∷ []) d (t, p)
        → After trace t x
        → After (o ∷ trace) d x
    prepend-After (fetched s) trace d t p x h r =
        along trace t x _ _ _ _ h.range_is h.displayed_is h.fetches_are h.draws_are r
    prepend-After refresh_due trace d t p x h r =
        along trace t x _ _ _ _ h.range_is h.displayed_is h.fetches_are h.draws_are r
    prepend-After (event e) trace d t p x h r =
        along trace t x _ _ _ _ h.range_is h.displayed_is h.fetches_are h.draws_are r

    -- The rest of a run behind one occurrence.
    goes_on :
        (o : Occurrence Float U) (trace : List (Occurrence Float U)) (d : Dashboard Float U)
        (x y : Dashboard Float U × Progress Float U)
        → RunDisplays trace
        → After (o ∷ []) d y
        → run_dashboard_with Float U trace y ≡ some x
        → After (o ∷ trace) d x
    unfolding run_dashboard_with
    goes_on o trace d x (t, running) ih h e =
        prepend-After o trace d t running x h (ih t x (now t running h.coherent refl) e)
    goes_on o trace d x (t, panicked) ih h e = absurd (let g = h.not_panicked in cc)
    goes_on o [] d x (t, ended r) ih h e =
        subst (After (o ∷ []) d) (some-injective (t, ended r) x e) h
    goes_on o (o' ∷ trace) d x (t, ended r) ih h e = absurd (cc)

    observed :
        (o : Occurrence Float U) (trace : List (Occurrence Float U)) (d : Dashboard Float U)
        (x : Dashboard Float U × Progress Float U)
        (next : Option (Dashboard Float U × Progress Float U))
        → RunDisplays trace
        → Next o d next
        → (next >>= run_dashboard_with Float U trace) ≡ some x
        → After (o ∷ trace) d x
    observed o trace d x none ih h e = absurd (cc)
    observed o trace d x (some y) ih h e = goes_on o trace d x y ih h e

    run-Displays : (trace : List (Occurrence Float U)) → RunDisplays trace
    unfolding run_dashboard_with
    run-Displays [] d x h e = subst (After [] d) (some-injective (d, running) x e) h
    run-Displays (o ∷ trace) d x h e =
        observed o trace d x (observe_dashboard Float U d.mode o d) (run-Displays trace)
          (observe-Next d.mode o d h) e

    -- Whatever occurs, the terminal was given to draw every result as it was fetched, and the one
    -- shown again behind an event that is no action, in that order; a fetch was started at first,
    -- for each refresh, and for each selection, of the range that is selected then. The dashboard
    -- holds what was fetched last and the range that was selected last; a fetch that it awaits is
    -- one of that range; and it never comes to draw with nothing to draw.
    pub new_dashboard-Displays :
        (trace : List (Occurrence Float U)) (w : U.World) (x : Dashboard Float U × Progress Float U)
        → run_dashboard_with Float U trace (new_dashboard Float U w, running) ≡ some x
        → Displays
            (selected Float U trace one_hour)
            (latest Float U trace none)
            (asked Float U trace one_hour (one_hour ∷ fetches w))
            (drawings Float U trace none (draws w))
            x
    unfolding new_dashboard start_fetch
    new_dashboard-Displays trace w x e =
        along trace (new_dashboard Float U w) x _ _ _ _ refl refl (logs.fetching_adds one_hour w).0
          (logs.fetching_adds one_hour w).1
          (run-Displays trace (new_dashboard Float U w) x
            (now (new_dashboard Float U w) running refl refl) e)
