-- ===== src/Tests/Shell.antt =====
-- src/shell/commands.rs: a quoted pattern.
use dsql_cli.Prelude.{◌≡◌, some, codes}
use dsql_cli.Shell.{parsed, parse_pattern}
use dsql_cli.Shell.Quoting.{parse_pattern-quote}

parse_pattern-quote_example :
    parse_pattern (codes "\\d") (codes "\"my \"\"table\"") ≡ parsed (some (codes "my \"table"))
parse_pattern-quote_example = parse_pattern-quote (codes "\\d") (codes "my \"table")
