-- ===== src/Lib.antt =====
-- dsql-cli, the command line of Amazon Aurora DSQL (src/ of the repository).
--
-- The program's parts and their files:
-- - Sql/Lexer, Sql/Keywords, Sql/Stream (src/sql/scanner.rs): the incremental splitter. `scan` runs
--   `step` over the bytes; `push_inner` cuts the buffer at the ends that it reports; the leading
--   keywords give a statement's transaction control, and `is_schema_changing` (src/sql/metadata.rs)
--   whether the completion metadata is stale. Sql/Keywords/Grammar has the trivia as a grammar.
--   Below Sql/Stream stand the specification `push_spec` (Frames), the lemmas on what a chunk may
--   change (Chunks) and on the limits (Limits).
-- - Sql/Catalog (src/sql/metadata.rs): the bounded sink of a catalog query, the loads, the snapshot
--   and the patterns of the shell's metadata commands.
-- - Error, Error/Redact, Error/Sanitize (src/error.rs): categories, exit codes, and the diagnostics,
--   which are redacted, escaped and bounded when an error is made. Every other part makes its
--   errors with `runtime` and `usage`.
-- - App/Data, App/Session (src/app.rs): the data that cross the parts, and `ManagedSession`, which
--   classifies a statement with the scanner, reconnects at an idle boundary, and submits it.
-- - Target (src/target.rs) and Cli (src/cli.rs): cluster selectors, the target that a selector gives
--   in a region, the role of a user name, the statements of a `-c` argument, the choice of a cluster
--   over prompts (Cli/Selection), and the scripts that are read in chunks (Cli/Script).
-- - Output, Output/Delimited, Output/Jsonl (src/output/mod.rs, delimited.rs, jsonl.rs): escaped
--   text, and the sinks that write a stream of execution events as CSV, TSV or JSON Lines.
-- - Output/Columns, Output/Table, Output/Expanded (src/output/table.rs, expanded.rs): the widths and
--   texts of a table's cells, and the two sinks that print a result for the terminal.
-- - Dashboard (src/dashboard/events.rs): the dashboard's keys and its loop; Dashboard/Traces says of
--   a trace of events alone what it selects, shows, fetches and draws.
-- - Clusters (src/aws/clusters.rs): the discovery of clusters, page by page, and their details.
-- - Shell, Shell/Commands (src/shell/commands.rs): the meta-commands, their parse and their effect.
-- - Shell/Execution (src/shell/mod.rs, `execute_with_signals`): a statement with the signals of the
--   user, as a step function over the occurrences that `select!` observes.
-- - Shell/Submissions, Shell/Loop, Shell/Rounds (src/shell/mod.rs): the framing of a submitted
--   text, and `run` itself over the lines that the editor reads, on the session of App/Session;
--   Sql/Queries (src/sql/metadata.rs) has the queries of its metadata commands.
-- - Tests: unit tests of the repository on the model, and the theorems at concrete inputs.
--
-- How the model corresponds to the code. A byte string is the list of its bytes (`Bytes`) and a
-- string whose characters matter the list of its code points (`Chars`); a loop over an index into
-- a buffer is a recursion over what is left of it, with what is behind it reversed, and a scanner
-- that advances by several bytes skips the rest of them (`skip`). An `async` method is a function
-- of the state and of a world: the database adapter, the connector and the sleep stand in the
-- record `Environment`, whose operations are arbitrary; the csv writer, the JSON serializer and
-- the diagnostics' stream likewise. What a future does until it ends or is dropped, and what was
-- observed meanwhile, is the operation `drive` of the shell's `Runtime`. The theorems that count
-- or list submissions, attempts to connect, records, frames, statements, fetches or drawings take
-- an observer of that world, with its laws as a record. Results are `Result` or `Option`.
--
-- Bounds. The fuel of `decimal` is one more than the number, and that of the growing columns one
-- more than the width to hand out, each round of which but the last takes from it;
-- `select_rounds` is given the rounds that a user takes. The other loops recurse on a text or a
-- trace, and the three rounds of a reconnect are counted down. Lengths are natural numbers, since
-- the code adds lengths of texts that are in memory; the jitter and the counters of the JSON
-- Lines sink wrap at 2 ^ 64.
--
-- Not modelled: argument parsing, the AWS clients, TLS, the terminal's drawing and the line
-- editor, which are calls of libraries; the chains of error sources; the rendering of the
-- inventory of clusters; the choice of the shell's sinks, the metrics and the dashboard's charts.
pub mod Prelude
pub mod Error
pub mod Sql
pub mod Target
pub mod App
pub mod Output
pub mod Shell
pub mod Cli
pub mod Dashboard
pub mod Clusters
mod Tests
