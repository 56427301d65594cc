-- ===== src/Error/Sanitize.antt =====
-- src/error.rs, `sanitize_terminal_text` and `sanitize_diagnostic`.
use dsql_cli.Prelude.{
  ℕ, ◌-◌, ◌*◌, min, Bool, not, ◌&&◌, ◌||◌, [], ◌∷◌, ◌++◌, Chars, codes, leb, ltb, ◌==◌,
  if◌then◌else◌, len_utf8, byte_len, is_control, unicode_escape,
}
use dsql_cli.Error.Redact.{redact}

abbrev pub max_diagnostic_bytes : ℕ
max_diagnostic_bytes = 64 * 1024

abbrev pub truncation_marker : Chars
truncation_marker = codes "[truncated]"

abbrev pub keep : ℕ → Bool
keep c = c == 10 || c == 9 || not (is_control c)

unfoldable pub sanitize_terminal_text : Chars → Chars
sanitize_terminal_text [] = []
sanitize_terminal_text (c ∷ s) =
    (if keep c then c ∷ [] else unicode_escape c) ++ sanitize_terminal_text s

-- `&value[..floor_char_boundary(value, index)]`: the characters that end by that byte.
unfoldable pub floor_prefix : Chars → ℕ → Chars
floor_prefix [] index = []
floor_prefix (c ∷ s) index =
    if leb (len_utf8 c) index then c ∷ floor_prefix s (index - len_utf8 c) else []

unfoldable pub bound_diagnostic : ℕ → Bool → Chars → Chars
bound_diagnostic limit input_was_truncated sanitized =
    if not input_was_truncated && leb (byte_len sanitized) limit
    then sanitized
    else floor_prefix sanitized (min (byte_len sanitized) (limit - byte_len truncation_marker))
      ++ truncation_marker

unfoldable pub sanitize_within : ℕ → Chars → Chars
unfolding bound_diagnostic
sanitize_within limit input =
    let head = floor_prefix input (min (byte_len input) limit) in
    bound_diagnostic limit (ltb (byte_len head) (byte_len input))
      (sanitize_terminal_text (redact head))

unfoldable pub sanitize_diagnostic : Chars → Chars
unfolding sanitize_within
sanitize_diagnostic = sanitize_within max_diagnostic_bytes
