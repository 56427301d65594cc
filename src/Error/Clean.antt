-- ===== src/Error/Clean.antt =====
-- Every diagnostic that is kept is bounded in size and safe to print.
use dsql_cli.Prelude.{
  ℕ, zero, suc, ◌+◌, ◌-◌, ◌*◌, ◌/◌, ◌%◌, ◌≤◌, ◌<◌, ◌≡◌, refl, min, Bool, true, false, not, ◌&&◌,
  ◌||◌, List, [], ◌∷◌, ◌++◌, Chars, codes, arith, leb, ltb, ◌==◌, if◌then◌else◌, len_utf8, byte_len,
  is_control, unicode_escape, hex_digit, all, Bool-cases, inl, inr,
}
use dsql_cli.Error.Redact.{redact}
use dsql_cli.Error.Sanitize.{
  truncation_marker, keep, sanitize_terminal_text, floor_prefix, bound_diagnostic, sanitize_within,
}

byte_len-append : (s t : Chars) → byte_len (s ++ t) ≡ byte_len s + byte_len t
byte_len-append [] t = omega arith
byte_len-append (c ∷ s) t = omega (arith, byte_len-append s t)

floor_prefix-le : (s : Chars) (n : ℕ) → byte_len (floor_prefix s n) ≤ n
unfolding floor_prefix
floor_prefix-le [] n = omega arith
floor_prefix-le (c ∷ s) n = elim (Bool-cases (leb (len_utf8 c) n)) [
  | inl h ↦
      rw h (
        omega (arith, floor_prefix-le s (n - len_utf8 c), dsql_cli.Prelude.leb→le (len_utf8 c) n h))
  | inr h ↦ rw h (omega arith)
]

all-append : (p : ℕ → Bool) (s t : Chars) → all p (s ++ t) ≡ (all p s && all p t)
all-append p [] t = refl
all-append p (c ∷ s) t = ground (arith, all-append p s t)

hex_digit-keep : (d : ℕ) → d < 16 → keep (hex_digit d) ≡ true
hex_digit-keep d h = ground arith

unicode_escape-keep : (c : ℕ) → is_control c ≡ true → all keep (unicode_escape c) ≡ true
unicode_escape-keep c h =
    let small : c < 160 = ground arith in
    rw (hex_digit-keep (c / 16) (omega arith), hex_digit-keep (c % 16) (omega arith))

sanitize_terminal_text-keep : (s : Chars) → all keep (sanitize_terminal_text s) ≡ true
unfolding sanitize_terminal_text
sanitize_terminal_text-keep [] = refl
sanitize_terminal_text-keep (c ∷ s) =
    rw
      (
        all-append keep (if keep c then c ∷ [] else unicode_escape c) (sanitize_terminal_text s),
        sanitize_terminal_text-keep s,
      )
      (piece c)
  where
    piece : (c : ℕ) → (all keep (if keep c then c ∷ [] else unicode_escape c) && true) ≡ true
    piece c = elim (Bool-cases (keep c)) [
      | inl k ↦ rw (k, k)
      | inr k ↦ rw (k, unicode_escape-keep c (ground arith))
    ]

floor_prefix-keep : (s : Chars) (n : ℕ) → all keep s ≡ true → all keep (floor_prefix s n) ≡ true
unfolding floor_prefix
floor_prefix-keep [] n h = refl
floor_prefix-keep (c ∷ s) n h = ground (arith, floor_prefix-keep s (n - len_utf8 c))

bound_diagnostic-keep :
    (limit : ℕ) (b : Bool) (s : Chars)
    → all keep s ≡ true
    → all keep (bound_diagnostic limit b s) ≡ true
unfolding bound_diagnostic
bound_diagnostic-keep limit b s h =
    let n = min (byte_len s) (limit - byte_len truncation_marker) in
    ground (arith, floor_prefix-keep s n h, all-append keep (floor_prefix s n) truncation_marker)

bound_diagnostic-le :
    (limit : ℕ) (b : Bool) (s : Chars)
    → byte_len truncation_marker ≤ limit
    → byte_len (bound_diagnostic limit b s) ≤ limit
unfolding bound_diagnostic
bound_diagnostic-le limit b s h =
    let n = min (byte_len s) (limit - byte_len truncation_marker) in
    ground (arith, floor_prefix-le s n, byte_len-append (floor_prefix s n) truncation_marker)

-- A diagnostic fits the limit, and all its control characters are newlines and tabs.
pub sanitize_within_safe :
    (limit : ℕ) (input : Chars)
    → byte_len truncation_marker ≤ limit
    → (byte_len (sanitize_within limit input) ≤ limit)
      × (all keep (sanitize_within limit input) ≡ true)
unfolding sanitize_within
sanitize_within_safe limit input h =
    let head = floor_prefix input (min (byte_len input) limit) in
    (
      bound_diagnostic-le limit _ (sanitize_terminal_text (redact head)) h,
      bound_diagnostic-keep limit _ (sanitize_terminal_text (redact head))
          (sanitize_terminal_text-keep (redact head)),
    )
