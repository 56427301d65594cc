-- ===== src/Sql/Keywords/Skipped.antt =====
-- The rounds of `skip_trivia` skip a text of the grammar of trivia, and all of it.
use dsql_cli.Prelude.{
  ℕ, zero, suc, ◌+◌, ◌≤◌, ◌≡◌, refl, sym, ap, ◌∙◌, Bool, true, false, ◌&&◌, ◌||◌, ◌==◌, Bool-cases,
  inl, inr, [], ◌∷◌, ◌++◌, Bytes, arith, is_ascii_whitespace,
}
use dsql_cli.Sql.Keywords.Grammar.{
  is_line_end, opens, closes, is_mark, Trivial, nothing, blank, line_opens, line_goes_on, line_ends,
  block_opens, nested_opens, nested_closes, block_closes, inside, begins_trivia, Ends, Skips,
}
use dsql_cli.Sql.Keywords.{
  Trivia, between, in_line, in_block, on, stop, trivia_step, trivia_between, trivia_line,
  trivia_block, skip_from, skip_from-on, skip_from-stop, skip_from-suc,
}

nothing-Skips : (m : Trivia) (r : Bytes) → Ends m r → Skips m r r
nothing-Skips m r h = record {
  skipped = [];
  final = m;
  is_trivial = nothing m;
  splits = refl;
  ends = h;
}

one-Skips :
    (m next : Trivia) (c : ℕ) (r rest : Bytes)
    → ((e : Trivia) (s : Bytes) → Trivial next e s → Trivial m e (c ∷ s))
    → Skips next r rest
    → Skips m (c ∷ r) rest
one-Skips m next c r rest f h = record {
  skipped = c ∷ h.skipped;
  final = h.final;
  is_trivial = f h.final h.skipped h.is_trivial;
  splits = ap (◌∷◌ c) h.splits;
  ends = h.ends;
}

two-Skips :
    (m next : Trivia) (c x : ℕ) (r rest : Bytes)
    → ((e : Trivia) (s : Bytes) → Trivial next e s → Trivial m e (c ∷ x ∷ s))
    → Skips next r rest
    → Skips m (c ∷ x ∷ r) rest
two-Skips m next c x r rest f h = record {
  skipped = c ∷ x ∷ h.skipped;
  final = h.final;
  is_trivial = f h.final h.skipped h.is_trivial;
  splits = ap (λ (s : Bytes). c ∷ x ∷ s) h.splits;
  ends = h.ends;
}

is_mark-prefix : (c : ℕ) (s rest : Bytes) → is_mark c (s ++ rest) ≡ false → is_mark c s ≡ false
is_mark-prefix c [] rest h = refl
is_mark-prefix c (x ∷ s) rest h = h

inside-Skips :
    (d c : ℕ) (r rest : Bytes)
    → is_mark c r ≡ false
    → Skips (in_block d) r rest
    → Skips (in_block d) (c ∷ r) rest
inside-Skips d c r rest n h = record {
  skipped = c ∷ h.skipped;
  final = h.final;
  is_trivial =
      inside h.final d c h.skipped
        (is_mark-prefix c h.skipped rest (ap (is_mark c) (sym h.splits) ∙ n)) h.is_trivial;
  splits = ap (◌∷◌ c) h.splits;
  ends = h.ends;
}

-- A round over two bytes.
skip_from-two :
    (m next : Trivia) (c x : ℕ) (r : Bytes)
    → trivia_step m c (x ∷ r) ≡ on 1 next
    → skip_from 0 m (c ∷ x ∷ r) ≡ skip_from 0 next r
skip_from-two m next c x r e = skip_from-on m c (x ∷ r) 1 next e ∙ skip_from-suc 0 next x r

between-blank :
    (c : ℕ) (r : Bytes) → is_ascii_whitespace c ≡ true → trivia_step between c r ≡ on 0 between
unfolding trivia_step trivia_between
between-blank c r h = ground arith

between-line :
    (c x : ℕ) (r : Bytes)
    → is_ascii_whitespace c ≡ false
    → (c == b'-' && x == b'-') ≡ true
    → trivia_step between c (x ∷ r) ≡ on 1 in_line
unfolding trivia_step trivia_between
between-line c x r h k = ground arith

between-block :
    (c x : ℕ) (r : Bytes)
    → is_ascii_whitespace c ≡ false
    → (c == b'-' && x == b'-') ≡ false
    → opens c x ≡ true
    → trivia_step between c (x ∷ r) ≡ on 1 (in_block 1)
unfolding trivia_step trivia_between
between-block c x r h k l = ground arith

between-other : (c : ℕ) (r : Bytes) → begins_trivia (c ∷ r) ≡ false → trivia_step between c r ≡ stop
unfolding trivia_step trivia_between
between-other c r h = ground arith

line-end : (c : ℕ) (r : Bytes) → is_line_end c ≡ true → trivia_step in_line c r ≡ on 0 between
unfolding trivia_step trivia_line
line-end c r h = ground arith

line-other : (c : ℕ) (r : Bytes) → is_line_end c ≡ false → trivia_step in_line c r ≡ on 0 in_line
unfolding trivia_step trivia_line
line-other c r h = ground arith

block-opens :
    (d c x : ℕ) (r : Bytes)
    → opens c x ≡ true
    → trivia_step (in_block d) c (x ∷ r) ≡ on 1 (in_block (d + 1))
unfolding trivia_step trivia_block
block-opens d c x r h = ground arith

block-closes :
    (d c x : ℕ) (r : Bytes)
    → opens c x ≡ false
    → closes c x ≡ true
    → d ≤ 1
    → trivia_step (in_block d) c (x ∷ r) ≡ on 1 between
unfolding trivia_step trivia_block
block-closes d c x r h k l = ground arith

block-leaves :
    (d c x : ℕ) (r : Bytes)
    → opens c x ≡ false
    → closes c x ≡ true
    → trivia_step (in_block (suc (suc d))) c (x ∷ r) ≡ on 1 (in_block (suc d))
unfolding trivia_step trivia_block
block-leaves d c x r h k = ground arith

block-other :
    (d c x : ℕ) (r : Bytes)
    → is_mark c (x ∷ r) ≡ false
    → trivia_step (in_block d) c (x ∷ r) ≡ on 0 (in_block d)
unfolding trivia_step trivia_block
block-other d c x r h = ground arith

block-last : (d c : ℕ) → trivia_step (in_block d) c [] ≡ stop
unfolding trivia_step trivia_block
block-last d c = refl

skip_from-nil : (m : Trivia) → skip_from 0 m [] ≡ []
unfolding skip_from
skip_from-nil m = refl

nil-Ends : (m : Trivia) → Ends m []
nil-Ends between = refl
nil-Ends in_line = refl
nil-Ends (in_block d) = omega arith

not_both : (a b : Bool) → a ≡ false → b ≡ false → (a || b) ≡ false
not_both a b h k = ground arith

-- Behind the two bytes that close a comment.
closed :
    (d c x : ℕ) (r : Bytes)
    → opens c x ≡ false
    → closes c x ≡ true
    → Skips between r (skip_from 0 between r)
    → ((n : ℕ) → Skips (in_block n) r (skip_from 0 (in_block n) r))
    → Skips (in_block d) (c ∷ x ∷ r) (skip_from 0 (in_block d) (c ∷ x ∷ r))
closed zero c x r o k h nested =
    rw (skip_from-two (in_block 0) between c x r (block-closes 0 c x r o k (omega arith))) (
      two-Skips (in_block 0) between c x r (skip_from 0 between r)
        (λ f s t. block_closes f 0 c x s (omega arith) k t) h)
closed (suc zero) c x r o k h nested =
    rw (skip_from-two (in_block 1) between c x r (block-closes 1 c x r o k (omega arith))) (
      two-Skips (in_block 1) between c x r (skip_from 0 between r)
        (λ f s t. block_closes f 1 c x s (omega arith) k t) h)
closed (suc (suc d)) c x r o k h nested =
    rw (skip_from-two (in_block (suc (suc d))) (in_block (suc d)) c x r (block-leaves d c x r o k))
      (two-Skips (in_block (suc (suc d))) (in_block (suc d)) c x r
        (skip_from 0 (in_block (suc d)) r) (λ f s t. nested_closes f d c x s k t) (nested (suc d)))

-- Two bytes between the comments.
at_two :
    (c x : ℕ) (r : Bytes)
    → Skips between (x ∷ r) (skip_from 0 between (x ∷ r))
    → Skips in_line r (skip_from 0 in_line r)
    → Skips (in_block 1) r (skip_from 0 (in_block 1) r)
    → Skips between (c ∷ x ∷ r) (skip_from 0 between (c ∷ x ∷ r))
at_two c x r behind_blank behind_line behind_block = elim (Bool-cases (is_ascii_whitespace c)) [
  | inl e ↦ rw (skip_from-on between c (x ∷ r) 0 between (between-blank c (x ∷ r) e)) (
      one-Skips between between c (x ∷ r) (skip_from 0 between (x ∷ r)) (λ f s t. blank f c s e t)
        behind_blank)
  | inr e ↦ elim (Bool-cases (c == b'-' && x == b'-')) [
    | inl k ↦ rw (skip_from-two between in_line c x r (between-line c x r e k)) (
        two-Skips between in_line c x r (skip_from 0 in_line r) (λ f s t. line_opens f c x s k t)
          behind_line)
    | inr k ↦ elim (Bool-cases (opens c x)) [
      | inl o ↦ rw (skip_from-two between (in_block 1) c x r (between-block c x r e k o)) (
          two-Skips between (in_block 1) c x r (skip_from 0 (in_block 1) r)
            (λ f s t. block_opens f c x s o t) behind_block)
      | inr o ↦
          (let last : begins_trivia (c ∷ x ∷ r) ≡ false =
              not_both (is_ascii_whitespace c) _ e (not_both (c == b'-' && x == b'-') _ k o) in
            rw (skip_from-stop between c (x ∷ r) (between-other c (x ∷ r) last))
              (nothing-Skips between (c ∷ x ∷ r) last))
    ]
  ]
]

pub skip_from-Skips : (m : Trivia) (r : Bytes) → Skips m r (skip_from 0 m r)
skip_from-Skips m [] = rw (skip_from-nil m) (nothing-Skips m [] (nil-Ends m))
skip_from-Skips between (c ∷ []) = elim (Bool-cases (is_ascii_whitespace c)) [
  | inl e ↦ rw (skip_from-on between c [] 0 between (between-blank c [] e)) (
      one-Skips between between c [] (skip_from 0 between []) (λ f s t. blank f c s e t)
        (skip_from-Skips between []))
  | inr e ↦
      (let last : begins_trivia (c ∷ []) ≡ false = ground arith in
        rw (skip_from-stop between c [] (between-other c [] last))
          (nothing-Skips between (c ∷ []) last))
]
skip_from-Skips between (c ∷ x ∷ r) =
    at_two c x r (skip_from-Skips between (x ∷ r)) (skip_from-Skips in_line r)
      (skip_from-Skips (in_block 1) r)
skip_from-Skips in_line (c ∷ r) = elim (Bool-cases (is_line_end c)) [
  | inl e ↦ rw (skip_from-on in_line c r 0 between (line-end c r e)) (
      one-Skips in_line between c r (skip_from 0 between r) (λ f s t. line_ends f c s e t)
        (skip_from-Skips between r))
  | inr e ↦ rw (skip_from-on in_line c r 0 in_line (line-other c r e)) (
      one-Skips in_line in_line c r (skip_from 0 in_line r) (λ f s t. line_goes_on f c s e t)
        (skip_from-Skips in_line r))
]
skip_from-Skips (in_block d) (c ∷ []) =
    rw (skip_from-stop (in_block d) c [] (block-last d c))
      (nothing-Skips (in_block d) (c ∷ []) (omega arith))
skip_from-Skips (in_block d) (c ∷ x ∷ r) = elim (Bool-cases (opens c x)) [
  | inl o ↦ rw (skip_from-two (in_block d) (in_block (d + 1)) c x r (block-opens d c x r o)) (
      two-Skips (in_block d) (in_block (d + 1)) c x r (skip_from 0 (in_block (d + 1)) r)
        (λ f s t. nested_opens f d c x s o t) (skip_from-Skips (in_block (d + 1)) r))
  | inr o ↦ elim (Bool-cases (closes c x)) [
    | inl k ↦ closed d c x r o k (skip_from-Skips between r) (λ n. skip_from-Skips (in_block n) r)
    | inr k ↦
        (let plain = not_both (opens c x) (closes c x) o k in
          rw (skip_from-on (in_block d) c (x ∷ r) 0 (in_block d) (block-other d c x r plain)) (
            inside-Skips d c (x ∷ r) (skip_from 0 (in_block d) (x ∷ r)) plain
              (skip_from-Skips (in_block d) (x ∷ r))))
  ]
]
