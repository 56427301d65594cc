-- ===== src/Error/Redact.antt =====
-- src/error.rs, `redact` and its helpers. Only ASCII bytes are tested, so the text is walked by
-- characters; an index is the text behind it, with the characters in front where they are read.
use dsql_cli.Prelude.{
  ℕ, zero, suc, ◌+◌, ◌-◌, ◌*◌, Bool, true, false, not, ◌&&◌, ◌||◌, Option, none, some, List, [],
  ◌∷◌, ◌++◌, map, Chars, codes, length, drop, leb, ◌==◌, if◌then◌else◌, text_eq, starts_with,
  is_ascii_alphabetic, is_ascii_digit, to_ascii_lowercase,
}

abbrev pub one_of : Chars → ℕ → Bool
one_of [] c = false
one_of (x ∷ xs) c = c == x || one_of xs c

-- The characters in front of the index, the nearest first.
pub is_key_boundary : Chars → Bool
is_key_boundary [] = true
is_key_boundary (p ∷ before) = one_of (codes "?&;, \t\n\r{[('\"") p

pub is_key_byte : ℕ → Bool
is_key_byte c = is_ascii_alphabetic c || is_ascii_digit c || one_of (codes "_-.%") c

abbrev pub is_blank : ℕ → Bool
is_blank c = c == b' ' || c == 9

abbrev pub is_quote : ℕ → Bool
is_quote c = c == b'\'' || c == b'"'

-- How many characters from here on pass the test.
abbrev pub span : (ℕ → Bool) → Chars → ℕ
span p [] = 0
span p (c ∷ r) = if p c then suc (span p r) else 0

abbrev pub prefix : (ℕ → Bool) → Chars → Chars
prefix p [] = []
prefix p (c ∷ r) = if p c then c ∷ prefix p r else []

-- `secret_value_end` and `header_value_end`, as lengths.
pub secret_value_end : Chars → ℕ
secret_value_end = span (λ c. not (one_of (codes "&;, \t\n\r") c))

pub header_value_end : Chars → ℕ
header_value_end = span (λ c. not (c == 10 || c == 13))

-- The text behind an opening quote: the length up to and with the closing one. A backslash takes
-- the next character along.
pub quoted_end : ℕ → Chars → Option ℕ
quoted_end quote [] = none
quoted_end quote (c ∷ []) = if c == b'\\' then none else if c == quote then some 1 else none
quoted_end quote (c ∷ d ∷ r) = elim (c == b'\\') [
  | true ↦ mathlib.Core.Option.map (λ n. suc (suc n)) (quoted_end quote r)
  | false ↦ elim (c == quote) [
    | true ↦ some 1
    | false ↦ mathlib.Core.Option.map suc (quoted_end quote (d ∷ r))
  ]
]

open_quote : ℕ → Chars → Option ℕ
open_quote blanks [] = none
open_quote blanks (c ∷ r) =
    if is_quote c then mathlib.Core.Option.map (λ n. blanks + (1 + n)) (quoted_end c r) else none

pub quoted_secret_value_end : Chars → Option ℕ
unfolding open_quote quoted_end
quoted_secret_value_end value =
    let blanks = span is_blank value in open_quote blanks (drop blanks value)

abbrev head_is_quote : Chars → Bool
head_is_quote [] = false
head_is_quote (c ∷ r) = is_quote c

pub starts_quoted_secret_value : Chars → Bool
starts_quoted_secret_value value = head_is_quote (drop (span is_blank value) value)

pub hex_value : ℕ → Option ℕ
hex_value c =
    if is_ascii_digit c
    then some (c - b'0')
    else if leb b'a' c && leb c b'f'
    then some (c - b'a' + 10)
    else if leb b'A' c && leb c b'F'
    then some (c - b'A' + 10)
    else none

-- The byte that `%xy` stands for, if both are hexadecimal digits.
hex_pair : Option ℕ → Option ℕ → Option ℕ
hex_pair (some high) (some low) = some (high * 16 + low)
hex_pair _ _ = none

-- The decoded bytes. They are compared with ASCII names only, so `from_utf8_lossy`, which turns
-- bytes that are no ASCII into characters that are none, is left out.
pub percent_decode : Chars → Chars
percent_decode [] = []
percent_decode (a ∷ []) = a ∷ []
percent_decode (a ∷ b ∷ []) = a ∷ b ∷ []
percent_decode (a ∷ b ∷ c ∷ r) = elim (a == b'%') [
  | false ↦ a ∷ percent_decode (b ∷ c ∷ r)
  | true ↦ elim (hex_pair (hex_value b) (hex_value c)) [
    | none ↦ a ∷ percent_decode (b ∷ c ∷ r)
    | some byte ↦ byte ∷ percent_decode r
  ]
]

abbrev any_text : List Chars → Chars → Bool
any_text [] s = false
any_text (k ∷ ks) s = text_eq s k || any_text ks s

abbrev secret_keys : List Chars
secret_keys =
    codes "access_token"
    ∷ codes "accesskey"
    ∷ codes "access_key"
    ∷ codes "access_key_id"
    ∷ codes "api_key"
    ∷ codes "aws_access_key_id"
    ∷ codes "aws_secret_access_key"
    ∷ codes "aws_session_token"
    ∷ codes "apikey"
    ∷ codes "authorization"
    ∷ codes "client_secret"
    ∷ codes "credential"
    ∷ codes "credentials"
    ∷ codes "id_token"
    ∷ codes "password"
    ∷ codes "passwd"
    ∷ codes "pwd"
    ∷ codes "secret"
    ∷ codes "secret_access_key"
    ∷ codes "security_token"
    ∷ codes "signature"
    ∷ codes "sig"
    ∷ codes "token"
    ∷ []

unfoldable pub is_secret_key : Chars → Bool
unfolding percent_decode hex_pair hex_value
is_secret_key key =
    let k = map to_ascii_lowercase (percent_decode key) in
    starts_with k (codes "x-amz-") || any_text secret_keys k

-- What a round of the loop decides at its index: copy so many characters, or copy so many, write
-- the mark, and drop so many.
pub data Decision : Type 0 where
  copy : ℕ → Decision
  redacted : ℕ → ℕ → Decision

-- A key in quotes may be followed by its closing quote and blanks: their number.
abbrev closing : Chars → Chars → ℕ
closing [] after = 0
closing (p ∷ before) [] = 0
closing (p ∷ before) (c ∷ r) = if is_quote p && c == p then suc (span is_blank r) else 0

value_end : ℕ → Chars → ℕ
unfolding quoted_secret_value_end header_value_end starts_quoted_secret_value secret_value_end
value_end separator value = elim (quoted_secret_value_end value) [
  | some n ↦ n
  | none ↦
      if separator == b':'
      then header_value_end value
      else if starts_quoted_secret_value value
      then length value
      else secret_value_end value
]

-- At the separator, `n` characters behind the key's start.
at_separator : Chars → ℕ → Chars → Decision
unfolding is_secret_key value_end
at_separator key n [] = copy 1
at_separator key n (s ∷ value) =
    if n == 0 || not (s == b'=' || s == b':')
    then copy 1
    else if not (is_secret_key key)
    then copy (suc n)
    else redacted (suc n) (value_end s value)

pub decide : Chars → Chars → Decision
unfolding is_key_boundary is_key_byte at_separator
decide before rest =
    if not (is_key_boundary before)
    then copy 1
    else (let k = span is_key_byte rest in
        let n = k + closing before (drop k rest) in
        at_separator (prefix is_key_byte rest) n (drop n rest))

abbrev pub redacted_mark : Chars
redacted_mark = codes "[REDACTED]"

-- What is left of the last round's decision.
pub data Plan : Type 0 where
  ready : Plan
  copying : ℕ → Plan
  marking : ℕ → ℕ → Plan
  dropping : ℕ → Plan

-- One character of the plan: what is written for it, and the plan behind it.
abbrev advance : Plan → ℕ → Chars × Plan
advance ready c = (c ∷ [], ready)
advance (copying zero) c = (c ∷ [], ready)
advance (copying (suc zero)) c = (c ∷ [], ready)
advance (copying (suc (suc n))) c = (c ∷ [], copying (suc n))
advance (marking zero d) c = (c ∷ [], ready)
advance (marking (suc zero) zero) c = (c ∷ redacted_mark, ready)
advance (marking (suc zero) (suc d)) c = (c ∷ redacted_mark, dropping (suc d))
advance (marking (suc (suc n)) d) c = (c ∷ [], marking (suc n) d)
advance (dropping zero) c = (c ∷ [], ready)
advance (dropping (suc zero)) c = ([], ready)
advance (dropping (suc (suc d))) c = ([], dropping (suc d))

abbrev plan_of : Decision → Plan
plan_of (copy n) = copying n
plan_of (redacted n d) = marking n d

-- A plan is asked for where none is left.
abbrev plan_at : Plan → Chars → Chars → Plan
plan_at ready before rest = plan_of (decide before rest)
plan_at plan before rest = plan

unfoldable pub redact_from : Plan → Chars → Chars → Chars
redact_from plan before [] = []
redact_from plan before (c ∷ r) =
    let (written, plan') = advance (plan_at plan before (c ∷ r)) c in
    written ++ redact_from plan' (c ∷ before) r

unfoldable pub redact : Chars → Chars
unfolding redact_from decide
redact input = redact_from ready [] input
