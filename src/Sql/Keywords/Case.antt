-- ===== src/Sql/Keywords/Case.antt =====
-- Keywords are read without regard to ASCII case.
use dsql_cli.Prelude.{
  ℕ, zero, suc, ◌≡◌, refl, ◌∙◌, Bool, false, Option, none, some, List, [], ◌∷◌, map, Bytes, arith,
  inl, inr, is_ascii_alphabetic, to_ascii_lowercase, get_elem?,
}
use dsql_cli.Sql.Keywords.{
  Trivia, between, in_line, in_block, trivia_step, skip_from, skip_from-on, skip_from-suc,
  skip_from-stop, Round-cases, skip_trivia, word, behind_word, leading_keywords, push_word,
  keyword_is, classify_keywords, classify_transaction_control, schema_keywords, is_schema_changing,
  eq_ignore_ascii_case,
}

abbrev pub lower : Bytes → Bytes
lower = map to_ascii_lowercase

trivia_step-lower :
    (m : Trivia) (c : ℕ) (r : Bytes)
    → trivia_step m (to_ascii_lowercase c) (lower r) ≡ trivia_step m c r
unfolding trivia_step
trivia_step-lower between c [] = ground arith
trivia_step-lower between c (e ∷ r) = ground arith
trivia_step-lower in_line c r = ground arith
trivia_step-lower (in_block d) c [] = refl
trivia_step-lower (in_block d) c (e ∷ r) = ground arith

skip_from-lower :
    (k : ℕ) (m : Trivia) (r : Bytes) → skip_from k m (lower r) ≡ lower (skip_from k m r)
skip_from-lower k m [] = unfold skip_from in refl
skip_from-lower (suc k) m (c ∷ r) =
    rw (skip_from-suc k m (to_ascii_lowercase c) (lower r), skip_from-suc k m c r)
      (skip_from-lower k m r)
skip_from-lower zero m (c ∷ r) = elim (Round-cases (trivia_step m c r)) [
  | inl (k, m', e) ↦
      rw
        (
          skip_from-on m (to_ascii_lowercase c) (lower r) k m' (trivia_step-lower m c r ∙ e),
          skip_from-on m c r k m' e,
        )
        (skip_from-lower k m' r)
  | inr e ↦ rw (
    skip_from-stop m (to_ascii_lowercase c) (lower r) (trivia_step-lower m c r ∙ e),
    skip_from-stop m c r e,
  )
]

skip_trivia-lower : (r : Bytes) → skip_trivia (lower r) ≡ lower (skip_trivia r)
unfolding skip_trivia
skip_trivia-lower r = skip_from-lower 0 between r

is_ascii_alphabetic-lower :
    (c : ℕ) → is_ascii_alphabetic (to_ascii_lowercase c) ≡ is_ascii_alphabetic c
is_ascii_alphabetic-lower c = ground arith

word-lower : (r : Bytes) → word (lower r) ≡ lower (word r)
unfolding word
word-lower [] = refl
word-lower (c ∷ r) = ground (arith, is_ascii_alphabetic-lower c, word-lower r)

behind_word-lower : (r : Bytes) → behind_word (lower r) ≡ lower (behind_word r)
unfolding behind_word
behind_word-lower [] = refl
behind_word-lower (c ∷ r) = ground (arith, is_ascii_alphabetic-lower c, behind_word-lower r)

push_word-lower :
    (w : Bytes) (ws : List Bytes) → push_word (lower w) (map lower ws) ≡ map lower (push_word w ws)
push_word-lower [] ws = refl
push_word-lower (c ∷ w) ws = refl

leading_keywords-lower :
    (n : ℕ) (s : Bytes) → leading_keywords (lower s) n ≡ map lower (leading_keywords s n)
leading_keywords-lower zero s = unfold leading_keywords in refl
leading_keywords-lower (suc n) s = next (leading_keywords-lower n (behind_word (skip_trivia s)))
  where
    next :
        leading_keywords (lower (behind_word (skip_trivia s))) n
          ≡ map lower (leading_keywords (behind_word (skip_trivia s)) n)
        → leading_keywords (lower s) (suc n) ≡ map lower (leading_keywords s (suc n))
    next h =
        unfold leading_keywords in
        rw (skip_trivia-lower s, word-lower (skip_trivia s), behind_word-lower (skip_trivia s), h)
          (push_word-lower (word (skip_trivia s)) _)

to_ascii_lowercase_idem : (c : ℕ) → to_ascii_lowercase (to_ascii_lowercase c) ≡ to_ascii_lowercase c
to_ascii_lowercase_idem c = ground arith

lower_idem : (s : Bytes) → lower (lower s) ≡ lower s
lower_idem [] = refl
lower_idem (c ∷ s) = cc (to_ascii_lowercase_idem c, lower_idem s)

get_elem?-map :
    (ks : List Bytes) (i : ℕ)
    → get_elem? (map lower ks) i ≡ mathlib.Core.Option.map lower (get_elem? ks i)
get_elem?-map [] i = refl
get_elem?-map (k ∷ ks) zero = refl
get_elem?-map (k ∷ ks) (suc i) = get_elem?-map ks i

keyword_is-lower :
    (ks : List Bytes) (i : ℕ) (k : Bytes) → keyword_is (map lower ks) i k ≡ keyword_is ks i k
unfolding keyword_is
keyword_is-lower ks i k = rw (keyword_is, get_elem?-map ks i) (compare (get_elem? ks i))
  where
    compare :
        (o : Option Bytes)
        → (elim (mathlib.Core.Option.map lower o) as (λ _. Bool) [
          | none ↦ false
          | some w ↦ eq_ignore_ascii_case w k
        ])
          ≡ (elim o as (λ _. Bool) [ none ↦ false | some w ↦ eq_ignore_ascii_case w k ])
    compare none = refl
    compare (some w) = rw lower_idem

classify_keywords-lower :
    (ks : List Bytes) → classify_keywords (map lower ks) ≡ classify_keywords ks
unfolding classify_keywords
classify_keywords-lower ks = simp keyword_is-lower

schema_keywords-lower : (ks : List Bytes) → schema_keywords (map lower ks) ≡ schema_keywords ks
unfolding schema_keywords
schema_keywords-lower ks = simp keyword_is-lower

by_keywords :
    (s : Bytes)
    → (classify_transaction_control s ≡ classify_keywords (leading_keywords s 3))
      × (is_schema_changing s ≡ schema_keywords (leading_keywords s 3))
unfolding classify_transaction_control is_schema_changing
by_keywords s = (refl, refl)

-- A statement's transaction control, and whether it changes the schema, do not depend on the case
-- of its ASCII letters.
pub classify-lower :
    (s : Bytes)
    → (classify_transaction_control (lower s) ≡ classify_transaction_control s)
      × (is_schema_changing (lower s) ≡ is_schema_changing s)
classify-lower s = (
  rw ((by_keywords (lower s)).0, (by_keywords s).0, leading_keywords-lower 3 s)
      (classify_keywords-lower (leading_keywords s 3)),
  rw ((by_keywords (lower s)).1, (by_keywords s).1, leading_keywords-lower 3 s)
      (schema_keywords-lower (leading_keywords s 3)),
)
