-- ===== src/Shell/Execution/Settled.antt =====
-- How a coordination ends: in how many steps, always within the user's reach, and with the session
-- marked unless the statement is known to have finished.
use dsql_cli.Prelude.{
  ℕ, zero, suc, ◌+◌, ◌≤◌, ◌≡◌, refl, ap, ◌∙◌, arith, Bool, true, false, Option, none, some, ◌>>=◌,
  ◌⊎◌, inl, inr, List, [], ◌∷◌, ◌++◌, length,
}
use mathlib.Core.Path.{subst}
use dsql_cli.Error.{Result, ok}
use dsql_cli.App.Session.{Environment, ManagedSession, mark_uncertain}
use dsql_cli.App.Session.Reachable.{Steps, Lost}
use dsql_cli.App.Session.Uncertain.{Steps-Lost}
use dsql_cli.Shell.Execution.{
  QuerySignal, interrupt, terminate, StatementExecution, Phase, waiting, cancelling, ended,
  receive_cancelling, Occurrence, execution_finished, signalled, cancellation_returned, receive,
  observe, coordinate, start, leaves_uncertain, settle,
}

-- The steps that are left at most.
abbrev pub left : Phase → ℕ
left (waiting false failed) = 3
left cancelling = 2
left (waiting true failed) = 1
left (ended o) = 0

observe-left :
    (h : Bool) (p : Phase) (o : Occurrence) (q : Phase)
    → observe h p o ≡ some q
    → left q + 1 ≤ left p
unfolding observe
observe-left h p o q e = ground arith

observe-then :
    (h : Bool) (p q : Phase) (o : Occurrence) (trace : List Occurrence) (next : Option Phase)
    → observe h p o ≡ next
    → (next >>= λ n. coordinate h n trace) ≡ some q
    → (n : Phase) × (observe h p o ≡ some n) × (coordinate h n trace ≡ some q)
observe-then h p q o trace none e f = absurd (cc)
observe-then h p q o trace (some n) e f = (n, e, f)

-- A coordination observes at most three occurrences, whatever they are.
pub coordinate_terminates :
    (h : Bool) (p q : Phase) (trace : List Occurrence)
    → coordinate h p trace ≡ some q
    → length trace + left q ≤ left p
unfolding coordinate
coordinate_terminates h p q [] e = ground arith
coordinate_terminates h p q (o ∷ trace) e =
    let first = observe-then h p q o trace (observe h p o) refl e in
    omega
      (arith, observe-left h p o first.0 first.1, coordinate_terminates h first.0 q trace first.2)

-- The outcome of a statement that ran to its end, with no cancellation lost.
abbrev pub Settled : Result (Unit {0}) → Result StatementExecution
Settled r = ok (record { result = r; cancellation_failed = false })

-- What the last occurrence and the outcome are, where the session is not marked.
abbrev Sure : Occurrence → Phase → Type 0
Sure o (waiting i f) = Unit
Sure o cancelling = Unit
Sure o (ended outcome) =
    (leaves_uncertain outcome ≡ true)
    ⊎ ((r : Result (Unit {0})) × (o ≡ execution_finished r) × (outcome ≡ Settled r))

receive-Sure : (h i : Bool) (s : Option QuerySignal) → Sure (signalled s) (receive h i s)
unfolding receive leaves_uncertain
receive-Sure h i (some terminate) = inl refl
receive-Sure h true (some interrupt) = inl refl
receive-Sure true false (some interrupt) = tt
receive-Sure false false (some interrupt) = inl refl
receive-Sure h i none = inl refl

receive_cancelling-Sure : (s : Option QuerySignal) → Sure (signalled s) (receive_cancelling s)
unfolding receive_cancelling leaves_uncertain
receive_cancelling-Sure (some terminate) = inl refl
receive_cancelling-Sure (some interrupt) = inl refl
receive_cancelling-Sure none = inl refl

abbrev SureNext : Occurrence → Option Phase → Type 0
SureNext o none = Unit
SureNext o (some p) = Sure o p

observe-Sure : (h : Bool) (p : Phase) (o : Occurrence) → SureNext o (observe h p o)
unfolding observe leaves_uncertain
observe-Sure h (waiting i true) (execution_finished r) = inl refl
observe-Sure h (waiting i false) (execution_finished r) = inr (r, refl, refl)
observe-Sure h (waiting i f) (signalled s) = receive-Sure h i s
observe-Sure h (waiting i f) (cancellation_returned r) = tt
observe-Sure h cancelling (execution_finished r) = tt
observe-Sure h cancelling (signalled s) = receive_cancelling-Sure s
observe-Sure h cancelling (cancellation_returned r) = tt
observe-Sure h (ended q) o = tt

abbrev pub is_ended : Phase → Bool
is_ended (ended outcome) = true
is_ended (waiting i f) = false
is_ended cancelling = false

-- The statement is the last that a trace observes, by its end.
abbrev pub EndsBy : Result (Unit {0}) → List Occurrence → Type 0
EndsBy r trace = (before : List Occurrence) × (trace ≡ before ++ (execution_finished r ∷ []))

some-injective : (p q : Phase) → some p ≡ some q → p ≡ q
some-injective p q e = cc

goes_on :
    (h : Bool) (p q : Phase) (o : Occurrence) (trace : List Occurrence)
    → coordinate h p (o ∷ trace) ≡ some q
    → is_ended p ≡ false
unfolding coordinate observe
goes_on h (waiting i f) q o trace e = refl
goes_on h cancelling q o trace e = refl
goes_on h (ended outcome) q o trace e = absurd (cc)

only :
    (h : Bool) (p : Phase) (o : Occurrence) (q : Phase)
    → coordinate h p (o ∷ []) ≡ some q
    → observe h p o ≡ some q
unfolding coordinate
only h p o q e = let first = observe-then h p q o [] (observe h p o) refl e in first.1 ∙ first.2

Sure-Settled :
    (o : Occurrence) (outcome : Result StatementExecution)
    → leaves_uncertain outcome ≡ false
    → Sure o (ended outcome)
    → (r : Result (Unit {0})) × (o ≡ execution_finished r) × (outcome ≡ Settled r)
Sure-Settled o outcome f (inl t) = absurd (cc)
Sure-Settled o outcome f (inr found) = found

-- A statement that runs with signals either leaves its session marked as uncertain, or its end was
-- observed, as the last of what was: then the outcome is the result it ended with.
pub coordinate-Settled :
    (h : Bool) (p : Phase) (trace : List Occurrence) (outcome : Result StatementExecution)
    → is_ended p ≡ false
    → coordinate h p trace ≡ some (ended outcome)
    → leaves_uncertain outcome ≡ false
    → (r : Result (Unit {0})) × EndsBy r trace × (outcome ≡ Settled r)
unfolding coordinate
coordinate-Settled h p [] outcome running e f =
    let g = ap is_ended (some-injective p (ended outcome) e) in absurd (cc)
coordinate-Settled h p (o ∷ []) outcome running e f =
    let sure =
      Sure-Settled o outcome f
        (subst (SureNext o) (only h p o (ended outcome) e) (observe-Sure h p o)) in
    (sure.0, ([], ap (λ (x : Occurrence). x ∷ []) sure.1), sure.2)
coordinate-Settled h p (o ∷ o' ∷ trace) outcome running e f =
    let first = observe-then h p (ended outcome) o (o' ∷ trace) (observe h p o) refl e in
    let rest =
      coordinate-Settled h first.0 (o' ∷ trace) outcome
        (goes_on h first.0 (ended outcome) o' trace first.2) first.2 f in
    (rest.0, (o ∷ rest.1.0, ap (λ (x : List Occurrence). o ∷ x) rest.1.1), rest.2)

abbrev pub interrupts : ℕ → List Occurrence
interrupts zero = []
interrupts (suc n) = signalled (some interrupt) ∷ interrupts n

-- However a statement hangs, its user ends it: from every phase that waits, at most two interrupts
-- end the coordination, and they leave the session marked.
pub interrupts-is_ended :
    (h : Bool) (p : Phase)
    → is_ended p ≡ false
    → (n : ℕ) × (outcome : Result StatementExecution) × (n ≤ 2)
      × (coordinate h p (interrupts n) ≡ some (ended outcome))
      × (leaves_uncertain outcome ≡ true)
unfolding coordinate observe receive receive_cancelling leaves_uncertain
interrupts-is_ended true (waiting false f) running = (2, _, omega arith, refl, refl)
interrupts-is_ended false (waiting false f) running = (1, _, omega arith, refl, refl)
interrupts-is_ended true (waiting true f) running = (1, _, omega arith, refl, refl)
interrupts-is_ended false (waiting true f) running = (1, _, omega arith, refl, refl)
interrupts-is_ended true cancelling running = (1, _, omega arith, refl, refl)
interrupts-is_ended false cancelling running = (1, _, omega arith, refl, refl)
interrupts-is_ended h (ended outcome) running = absurd (cc)

abbrev pub finishes : List Occurrence → Bool
finishes [] = false
finishes (execution_finished r ∷ trace) = true
finishes (signalled s ∷ trace) = finishes trace
finishes (cancellation_returned r ∷ trace) = finishes trace

EndsBy-finishes :
    (r : Result (Unit {0})) (before : List Occurrence)
    → finishes (before ++ (execution_finished r ∷ [])) ≡ true
EndsBy-finishes r [] = refl
EndsBy-finishes r (execution_finished x ∷ before) = refl
EndsBy-finishes r (signalled s ∷ before) = EndsBy-finishes r before
EndsBy-finishes r (cancellation_returned x ∷ before) = EndsBy-finishes r before

coordinate-leaves_uncertain :
    (h : Bool) (trace : List Occurrence) (outcome : Result StatementExecution)
    → coordinate h start trace ≡ some (ended outcome)
    → finishes trace ≡ false
    → (b : Bool) → leaves_uncertain outcome ≡ b
    → leaves_uncertain outcome ≡ true
coordinate-leaves_uncertain h trace outcome e f true u = u
coordinate-leaves_uncertain h trace outcome e f false u =
    let known = coordinate-Settled h start trace outcome refl e u in
    let g = EndsBy-finishes known.0 known.1.0 in let d = ap finishes known.1.1 in absurd (cc)

module _ (E : Environment) where
  -- A statement whose end was not observed is the last of its session: whatever is called on the
  -- session afterwards, nothing of it reaches the world.
  pub settle-Steps :
      (h : Bool) (trace : List Occurrence) (outcome : Result StatementExecution) (w : E.World)
      (m : ManagedSession E) (y : E.World × ManagedSession E)
      → coordinate h start trace ≡ some (ended outcome)
      → finishes trace ≡ false
      → Steps E (w, settle E outcome m) y
      → (y.0 ≡ w) × Lost E y.1
  unfolding settle mark_uncertain
  settle-Steps h trace outcome w m y e f steps =
      let marked =
        coordinate-leaves_uncertain h trace outcome e f (leaves_uncertain outcome) refl in
      Steps-Lost E (w, settle E outcome m) y steps (rw marked refl)
