-- ===== src/Sql/Keywords.antt =====
-- src/sql/scanner.rs, `skip_trivia`, `leading_keywords` and `classify_transaction_control`, and
-- `is_schema_changing` of src/sql/metadata.rs. An index into `bytes` is the list of the bytes from
-- that index on.
pub mod Case
pub mod Grammar
pub mod Skipped
pub mod Trivial
use dsql_cli.Prelude.{
  ℕ, zero, suc, ◌+◌, ◌-◌, Bool, false, ◌&&◌, ◌||◌, none, some, List, [], ◌∷◌, map, Bytes, codes,
  ◌==◌, if◌then◌else◌, text_eq, is_ascii_alphabetic, is_ascii_whitespace, to_ascii_lowercase,
  get_elem?, ◌≡◌, refl, ◌⊎◌, inl, inr,
}
use dsql_cli.Sql.Lexer.{next_is}

-- Where `skip_trivia` stands: in its whitespace loop, behind `--`, or in comments this deep.
pub data Trivia : Type 0 where
  between in_line : Trivia
  in_block : ℕ → Trivia

-- One round: go on behind the byte and `k` more, or return.
pub data Round : Type 0 where
  on : ℕ → Trivia → Round
  stop : Round

unfoldable pub trivia_between : ℕ → Bytes → Round
trivia_between c r =
    if is_ascii_whitespace c
    then on 0 between
    else if c == b'-' && next_is r b'-'
    then on 1 in_line
    else if c == b'/' && next_is r b'*'
    then on 1 (in_block 1)
    else stop

-- A newline ends the comment; the whitespace loop then skips the newline itself.
unfoldable pub trivia_line : ℕ → Round
trivia_line c = on 0 (if c == 10 || c == 13 then between else in_line)

-- `None => return index`: a comment that is open at the last byte.
unfoldable pub trivia_block : ℕ → ℕ → Bytes → Round
trivia_block depth c [] = stop
trivia_block depth c (e ∷ r) =
    if c == b'/' && e == b'*'
    then on 1 (in_block (depth + 1))
    else if c == b'*' && e == b'/'
    then on 1 (if depth - 1 == 0 then between else in_block (depth - 1))
    else on 0 (in_block depth)

unfoldable pub trivia_step : Trivia → ℕ → Bytes → Round
unfolding trivia_between trivia_line trivia_block
trivia_step between c r = trivia_between c r
trivia_step in_line c r = trivia_line c
trivia_step (in_block depth) c r = trivia_block depth c r

unfoldable pub skip_from : ℕ → Trivia → Bytes → Bytes
skip_from k m [] = []
skip_from (suc k) m (c ∷ r) = skip_from k m r
skip_from zero m (c ∷ r) = elim (trivia_step m c r) [ on k m' ↦ skip_from k m' r | stop ↦ c ∷ r ]

pub Round-cases : (x : Round) → ((k : ℕ) × (m : Trivia) × (x ≡ on k m)) ⊎ (x ≡ stop)
Round-cases (on k m) = inl (k, m, refl)
Round-cases stop = inr refl

pub skip_from-on :
    (m : Trivia) (c : ℕ) (r : Bytes) (k : ℕ) (m' : Trivia)
    → trivia_step m c r ≡ on k m'
    → skip_from 0 m (c ∷ r) ≡ skip_from k m' r
unfolding skip_from
skip_from-on m c r k m' e = rw (skip_from, e)

pub skip_from-stop :
    (m : Trivia) (c : ℕ) (r : Bytes) → trivia_step m c r ≡ stop → skip_from 0 m (c ∷ r) ≡ c ∷ r
unfolding skip_from
skip_from-stop m c r e = rw (skip_from, e)

pub skip_from-suc :
    (k : ℕ) (m : Trivia) (c : ℕ) (r : Bytes) → skip_from (suc k) m (c ∷ r) ≡ skip_from k m r
unfolding skip_from
skip_from-suc k m c r = refl

unfoldable pub skip_trivia : Bytes → Bytes
unfolding skip_from trivia_step
skip_trivia = skip_from 0 between

unfoldable pub word : Bytes → Bytes
word [] = []
word (c ∷ r) = if is_ascii_alphabetic c then c ∷ word r else []

unfoldable pub behind_word : Bytes → Bytes
behind_word [] = []
behind_word (c ∷ r) = if is_ascii_alphabetic c then behind_word r else c ∷ r

abbrev push_word : Bytes → List Bytes → List Bytes
push_word [] later = []
push_word (c ∷ w) later = (c ∷ w) ∷ later

unfoldable pub leading_keywords : Bytes → ℕ → List Bytes
leading_keywords input zero = []
leading_keywords input (suc limit) =
    let at = skip_trivia input in push_word (word at) (leading_keywords (behind_word at) limit)

abbrev pub eq_ignore_ascii_case : Bytes → Bytes → Bool
eq_ignore_ascii_case a b = text_eq (map to_ascii_lowercase a) (map to_ascii_lowercase b)

-- The closure `is`: `keywords.get(index).is_some_and(…)`.
unfoldable pub keyword_is : List Bytes → ℕ → Bytes → Bool
keyword_is keywords index keyword = elim (get_elem? keywords index) [
  | none ↦ false
  | some w ↦ eq_ignore_ascii_case w keyword
]

pub data TransactionControl : Type 0 where
  begin commit rollback savepoint release rollback_to other : TransactionControl

unfoldable pub classify_keywords : List Bytes → TransactionControl
classify_keywords k =
    if keyword_is k 0 (codes "BEGIN")
      || keyword_is k 0 (codes "START") && keyword_is k 1 (codes "TRANSACTION")
    then begin
    else if keyword_is k 0 (codes "COMMIT") || keyword_is k 0 (codes "END")
    then commit
    else if (keyword_is k 0 (codes "ROLLBACK") || keyword_is k 0 (codes "ABORT"))
        && keyword_is k 1 (codes "TO")
    then rollback_to
    else if keyword_is k 0 (codes "ROLLBACK") || keyword_is k 0 (codes "ABORT")
    then rollback
    else if keyword_is k 0 (codes "SAVEPOINT")
    then savepoint
    else if keyword_is k 0 (codes "RELEASE")
    then release
    else other

unfoldable pub classify_transaction_control : Bytes → TransactionControl
unfolding leading_keywords classify_keywords keyword_is skip_trivia word behind_word
classify_transaction_control statement = classify_keywords (leading_keywords statement 3)

-- The `matches!` on the first keyword in upper case compares it without regard to case.
unfoldable pub schema_keywords : List Bytes → Bool
schema_keywords k =
    (keyword_is k 0 (codes "CREATE")
      || keyword_is k 0 (codes "ALTER")
      || keyword_is k 0 (codes "DROP")
      || keyword_is k 0 (codes "TRUNCATE")
      || keyword_is k 0 (codes "COMMENT")
      || keyword_is k 0 (codes "GRANT")
      || keyword_is k 0 (codes "REVOKE"))
    || keyword_is k 0 (codes "SECURITY") && keyword_is k 1 (codes "LABEL")
    || (keyword_is k 0 (codes "AWS")
        && keyword_is k 1 (codes "IAM")
        && (keyword_is k 2 (codes "GRANT") || keyword_is k 2 (codes "REVOKE")))

unfoldable pub is_schema_changing : Bytes → Bool
unfolding leading_keywords schema_keywords keyword_is skip_trivia word behind_word
is_schema_changing statement = schema_keywords (leading_keywords statement 3)
