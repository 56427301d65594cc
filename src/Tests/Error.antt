-- ===== src/Tests/Error.antt =====
-- src/error.rs: what `redact` hides, and the theorem on diagnostics at a diagnostic.
use dsql_cli.Prelude.{◌≤◌, ◌≡◌, refl, arith, true, codes, all, byte_len}
use dsql_cli.Error.Redact.{redact}
use dsql_cli.Error.Sanitize.{keep, sanitize_within}
use dsql_cli.Error.Clean.{sanitize_within_safe}

redacts : redact (codes "password=abc; ok") ≡ codes "password=[REDACTED]; ok"
unfolding redact
redacts = refl

sanitize_within_safe_example :
    (byte_len (sanitize_within 40 (codes "token=abc and the rest of a long message\r\n")) ≤ 40)
    × (all keep (sanitize_within 40 (codes "token=abc and the rest of a long message\r\n")) ≡ true)
sanitize_within_safe_example =
    sanitize_within_safe 40 (codes "token=abc and the rest of a long message\r\n") (omega arith)

-- A secret directly behind another key's separator stays; behind a space it is hidden.
key_boundaries :
    (redact (codes "message:password=abc") ≡ codes "message:password=abc")
    × (redact (codes "message: password=abc") ≡ codes "message: password=[REDACTED]")
unfolding redact
key_boundaries = (refl, refl)
