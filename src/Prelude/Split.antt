-- ===== src/Prelude/Split.antt =====
-- `str::split` at a character, and joining again.
use Prim.Native.Nat.{ℕ}
use mathlib.Core.Path.{◌≡◌, refl, ap, ◌∙◌}
use mathlib.Core.Logic.{inl, inr}
use mathlib.Core.Bool.{Bool, true, false, not, ◌&&◌}
use mathlib.Core.Option.{Option, none, some}
use mathlib.Core.List.{List, [], ◌∷◌, ◌++◌}
use native.Mathlib.Omega.{arith}
use dsql_cli.Prelude.Lists.{all}
use dsql_cli.Prelude.Tests.{◌==◌, ==_iff, Bool-cases, if◌then◌else◌}
use dsql_cli.Prelude.Text.{Bytes}

abbrev pub push_first : ℕ → List Bytes → List Bytes
push_first x [] = (x ∷ []) ∷ []
push_first x (p ∷ ps) = (x ∷ p) ∷ ps

unfoldable pub split : ℕ → Bytes → List Bytes
split c [] = [] ∷ []
split c (x ∷ xs) = let rest = split c xs in if x == c then [] ∷ rest else push_first x rest

abbrev pub join : ℕ → List Bytes → Bytes
join c [] = []
join c (p ∷ []) = p
join c (p ∷ q ∷ ps) = p ++ c ∷ join c (q ∷ ps)

-- The text does not contain the character.
abbrev pub free_of : ℕ → Bytes → Bool
free_of c s = all (λ x. not (x == c)) s

-- `strip_prefix`
abbrev pub strip_prefix : Bytes → Bytes → Option Bytes
strip_prefix s [] = some s
strip_prefix [] (y ∷ ys) = none
strip_prefix (x ∷ s) (y ∷ ys) = let rest = strip_prefix s ys in if x == y then rest else none

push_first-cons :
    (x : ℕ) (ps : List Bytes) → (p : Bytes) × (qs : List Bytes) × (push_first x ps ≡ p ∷ qs)
push_first-cons x [] = (_, _, refl)
push_first-cons x (p ∷ ps) = (_, _, refl)

if-cons :
    (b : Bool) (x : ℕ) (ps : List Bytes)
    → (p : Bytes) × (qs : List Bytes) × ((if b then [] ∷ ps else push_first x ps) ≡ p ∷ qs)
if-cons true x ps = (_, _, refl)
if-cons false x ps = push_first-cons x ps

pub split-cons : (c : ℕ) (s : Bytes) → (p : Bytes) × (qs : List Bytes) × (split c s ≡ p ∷ qs)
unfolding split
split-cons c [] = (_, _, refl)
split-cons c (x ∷ xs) = if-cons (x == c) x (split c xs)

join-push_first : (c x : ℕ) (ps : List Bytes) → join c (push_first x ps) ≡ x ∷ join c ps
join-push_first c x [] = refl
join-push_first c x (p ∷ []) = refl
join-push_first c x (p ∷ q ∷ ps) = refl

join-split-if :
    (c x : ℕ) (s : Bytes)
    → join c (if x == c then [] ∷ split c s else push_first x (split c s)) ≡ x ∷ join c (split c s)
join-split-if c x s = elim (Bool-cases (x == c)) [
  | inl h ↦ let same = (==_iff x c).0 h in let cons = split-cons c s in rw (h, same, cons.2) refl
  | inr h ↦ rw (h, join-push_first c x (split c s)) refl
]

pub join-split : (c : ℕ) (s : Bytes) → join c (split c s) ≡ s
unfolding split
join-split c [] = refl
join-split c (x ∷ xs) = join-split-if c x xs ∙ ap (◌∷◌ x) (join-split c xs)

-- A part without the separator is split off.
pub split-part : (c : ℕ) (p s : Bytes) → free_of c p ≡ true → split c (p ++ c ∷ s) ≡ p ∷ split c s
unfolding split
split-part c [] s h = ground arith
split-part c (x ∷ p) s h = ground (arith, split-part c p s)

pub split-free : (c : ℕ) (p : Bytes) → free_of c p ≡ true → split c p ≡ p ∷ []
unfolding split
split-free c [] h = refl
split-free c (x ∷ p) h = ground (arith, split-free c p)

pub strip_prefix-append : (p s : Bytes) → strip_prefix (p ++ s) p ≡ some s
strip_prefix-append [] s = refl
strip_prefix-append (x ∷ p) s = ground (arith, strip_prefix-append p s)

pub strip_prefix-some : (s p r : Bytes) → strip_prefix s p ≡ some r → s ≡ p ++ r
strip_prefix-some s [] r h = ground arith
strip_prefix-some [] (y ∷ ys) r h = absurd (grind arith)
strip_prefix-some (x ∷ s) (y ∷ ys) r h = ground (arith, strip_prefix-some s ys r)

pub all_mono :
    (p q : ℕ → Bool) (s : Bytes)
    → ((x : ℕ) → p x ≡ true → q x ≡ true)
    → all p s ≡ true
    → all q s ≡ true
all_mono p q [] f h = refl
all_mono p q (x ∷ s) f h = ground (arith, f x, all_mono p q s f)

pub all-append : (p : ℕ → Bool) (s t : Bytes) → all p (s ++ t) ≡ (all p s && all p t)
all-append p [] t = refl
all-append p (x ∷ s) t = ground (arith, all-append p s t)

pub all-join :
    (p : ℕ → Bool) (c : ℕ) (ps : List Bytes)
    → p c ≡ true
    → all (λ s. all p s) ps ≡ true
    → all p (join c ps) ≡ true
all-join p c [] hc h = refl
all-join p c (s ∷ []) hc h = ground arith
all-join p c (s ∷ t ∷ ps) hc h =
    ground (arith, all-append p s (c ∷ join c (t ∷ ps)), all-join p c (t ∷ ps) hc)

-- Parts without the separator are found again.
pub split-join :
    (c : ℕ) (p : Bytes) (ps : List Bytes)
    → all (free_of c) (p ∷ ps) ≡ true
    → split c (join c (p ∷ ps)) ≡ p ∷ ps
split-join c p [] h = split-free c p (ground arith)
split-join c p (q ∷ ps) h =
    split-part c p (join c (q ∷ ps)) (ground arith) ∙ ap (◌∷◌ p) (split-join c q ps (ground arith))
