-- ===== src/Sql/Lexer/Lookahead.antt =====
-- How a round of the scanner depends on the text behind it: more text changes a round only where
-- the text was too short to hold a further terminator.
use dsql_cli.Prelude.{
  ℕ, suc, ◌≤◌, ◌<◌, ◌≡◌, refl, sym, ◌∙◌, Bool, false, Option, none, some, [], ◌∷◌, ◌++◌, Bytes, All,
  arith, length, ◌⊎◌, inl, inr, ◌==◌, starts_with, starts_with-append, starts_with_le, ==_iff, ◌≢◌,
  Bool-cases,
}
use dsql_cli.Sql.Lexer.Boundary.{step_terminated}
use dsql_cli.Sql.Lexer.{
  LexicalState, normal, dollar_quoted_string, step, step_normal, step_quoted, step_escape,
  step_dollar, step_comment, dollar_tag, dollar_quote_delimiter, follows_identifier, open_dollar,
}
use dsql_cli.Sql.Lexer.Tags.{TagByte, Longer, dollar_tag-append}

-- The round at `c` is the same with `b` behind the text, or the text behind `c` cannot end a
-- statement and the longer text's round passes over all of it.
pub record Diverges (st : LexicalState) (before : Bytes) (c : ℕ) (a b : Bytes) : Type 0 where
  pub quiet : (step st before c a).terminated ≡ false
  pub passes : length a ≤ (step st before c (a ++ b)).skip
  pub goes_on : (step st before c (a ++ b)).terminated ≡ false
  pub silent :
      (length a ≡ 0)
      ⊎ (((step st before c a ≡ record { next = normal; skip = 0; terminated = false })
            × All TagByte a)
          ⊎ ((d : Bytes) × (step st before c a
                ≡ record { next = dollar_quoted_string d; skip = 0; terminated = false })
              × (length a < length d)))

abbrev pub Agrees : LexicalState → Bytes → ℕ → Bytes → Bytes → Type 0
Agrees st before c a b = step st before c (a ++ b) ≡ step st before c a

abbrev ends_here : LexicalState → ℕ → Bool
ends_here normal c = c == b';'
ends_here _ c = false

open_dollar-terminated : (d : Option Bytes) → (open_dollar d).terminated ≡ false
unfolding open_dollar
open_dollar-terminated none = refl
open_dollar-terminated (some d) = refl

step-ends_here :
    (st : LexicalState) (before : Bytes) (c : ℕ) (r : Bytes)
    → (step st before c r).terminated ≡ ends_here st c
unfolding step step_normal step_escape step_quoted step_dollar step_comment
step-ends_here normal before c r =
    ground (arith, open_dollar-terminated (dollar_quote_delimiter before r))
step-ends_here _ before c r = ground arith

at_last-Diverges :
    (st : LexicalState) (before : Bytes) (c : ℕ) (b : Bytes)
    → Agrees st before c [] b ⊎ Diverges st before c [] b
at_last-Diverges st before c b = elim (Bool-cases (ends_here st c)) [
  | inl e ↦ inl (
      (step_terminated st before c b (step-ends_here st before c b ∙ e)).1
      ∙ sym (step_terminated st before c [] (step-ends_here st before c [] ∙ e)).1)
  | inr e ↦ inr (record {
    quiet = step-ends_here st before c [] ∙ e;
    passes = omega arith;
    goes_on = step-ends_here st before c b ∙ e;
    silent = inl refl;
  })
]

-- At a dollar that begins no tag in the shorter text.
open_dollar-passes :
    (n : ℕ) (o : Option Bytes) → o ≢ none → Longer (suc n) o → n ≤ (open_dollar o).skip
unfolding open_dollar
open_dollar-passes n none h l = absurd (h refl)
open_dollar-passes n (some d) h l = omega arith

Option-eq_none : (o : Option Bytes) → (o ≡ none) ⊎ (o ≢ none)
Option-eq_none none = inl refl
Option-eq_none (some d) = inr (cc)

step-dollar :
    (before r : Bytes)
    → follows_identifier before ≡ false
    → step normal before b'$' r ≡ open_dollar (dollar_tag r)
unfolding step step_normal dollar_quote_delimiter
step-dollar before r f = rw f

dollar-Diverges :
    (before a b : Bytes) → Agrees normal before b'$' a b ⊎ Diverges normal before b'$' a b
dollar-Diverges before a b = elim (Bool-cases (follows_identifier before)) [
  | inl t ↦ inl (unfold step step_normal dollar_quote_delimiter in rw t)
  | inr f ↦ elim (dollar_tag-append a b) [
    | inl same ↦ inl (rw (step-dollar before (a ++ b) f, step-dollar before a f, same))
    | inr (short, tags, long) ↦ elim (Option-eq_none (dollar_tag (a ++ b))) [
      | inl none_too ↦
          inl (rw (step-dollar before (a ++ b) f, step-dollar before a f, short, none_too))
      | inr found ↦ inr (record {
        quiet = step-ends_here normal before b'$' a;
        passes =
            rw (step-dollar before (a ++ b) f)
              (open_dollar-passes (length a) (dollar_tag (a ++ b)) found long);
        goes_on = step-ends_here normal before b'$' (a ++ b);
        silent = inr (inl (rw (step-dollar before a f, short) (unfold open_dollar in refl), tags));
      })
    ]
  ]
]

step_normal-Diverges :
    (before : Bytes) (c : ℕ) (x : ℕ) (a b : Bytes)
    → Agrees normal before c (x ∷ a) b ⊎ Diverges normal before c (x ∷ a) b
step_normal-Diverges before c x a b = elim (Bool-cases (c == b'$')) [
  | inl e ↦ rw ((==_iff c b'$').0 e) (dollar-Diverges before (x ∷ a) b)
  | inr f ↦ inl (unfold step step_normal in ground arith)
]

step_dollar-Diverges :
    (d before : Bytes) (c : ℕ) (a b : Bytes)
    → Agrees (dollar_quoted_string d) before c a b ⊎ Diverges (dollar_quoted_string d) before c a b
step_dollar-Diverges d before c a b = elim (starts_with-append (c ∷ a) b d) [
  | inl same ↦ inl (unfold step step_dollar in rw same)
  | inr (t, short) ↦ elim (Bool-cases (starts_with (c ∷ a) d)) [
    | inl s ↦ absurd (omega (arith, starts_with_le (c ∷ a) d s))
    | inr f ↦ inr (record {
      quiet = step-ends_here (dollar_quoted_string d) before c a;
      passes = unfold step step_dollar in rw t (omega arith);
      goes_on = step-ends_here (dollar_quoted_string d) before c (a ++ b);
      silent = inr (inr (d, unfold step step_dollar in rw f, omega arith));
    })
  ]
]

pub step-Diverges :
    (st : LexicalState) (before : Bytes) (c : ℕ) (a b : Bytes)
    → Agrees st before c a b ⊎ Diverges st before c a b
step-Diverges (dollar_quoted_string d) before c a b = step_dollar-Diverges d before c a b
step-Diverges normal before c [] b = at_last-Diverges normal before c b
step-Diverges normal before c (x ∷ a) b = step_normal-Diverges before c x a b
step-Diverges st before c [] b = at_last-Diverges st before c b
step-Diverges _ before c (x ∷ a) b = inl (unfold step step_quoted step_escape step_comment in refl)
