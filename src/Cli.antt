-- ===== src/Cli.antt =====
-- src/cli.rs: the command line's choices and the statements of a `-c` argument.
pub mod Command
pub mod Canonical
pub mod Selection
pub mod Script
use dsql_cli.Prelude.{
  ℕ, Bool, true, false, not, ◌&&◌, ◌||◌, Option, none, some, List, [], ◌∷◌, ◌++◌, map, Bytes, Chars,
  codes, length, leb, ltb, ◌==◌, all, text_eq, if◌then◌else◌,
}
use dsql_cli.Error.{ApplicationError, runtime, usage, Result, ok, err}
use dsql_cli.Sql.Stream.{
  Statement, StatementStream, empty, max_statement_bytes, push_bounded, pending_is_trivia,
  take_complete_statement,
}
use dsql_cli.App.Data.{ClusterTarget, resolved, DatabaseRole, admin, custom}
use dsql_cli.Target.{
  ClusterSelector, ClusterSelectorError, malformed, malformed_resolved_region, region_conflict,
  check_region,
}

-- `Display` of a selector's error.
unfoldable pub selector_message : ClusterSelectorError → Chars
selector_message (malformed selector) =
    codes "cluster selector must be a cluster ID, DSQL cluster ARN, or canonical DSQL endpoint"
selector_message (malformed_resolved_region region) = codes "resolved Region has invalid syntax"
selector_message (region_conflict selector_region resolved_region) =
    codes "cluster selector Region conflicts with the resolved Region"

abbrev pub unwrap_or : Option Bytes → Bytes → Bytes
unwrap_or none default = default
unwrap_or (some endpoint) default = endpoint

-- The endpoint of a cluster in a region.
abbrev pub endpoint_of : Bytes → Bytes → Bytes
endpoint_of identifier region = identifier ++ (codes ".dsql." ++ (region ++ codes ".on.aws"))

abbrev pub checked_target :
    ClusterSelector → Bytes → Option ClusterSelectorError → Result ClusterTarget
checked_target selector region (some error) = err (usage (selector_message error))
checked_target selector region none = ok (
    resolved selector.identifier region
      (some (unwrap_or selector.endpoint (endpoint_of selector.identifier region))) selector.arn)

unfoldable pub target_from_selector : ClusterSelector → Bytes → Result ClusterTarget
target_from_selector selector region = checked_target selector region (check_region selector region)

-- `char::is_whitespace`
abbrev pub is_whitespace : ℕ → Bool
is_whitespace c =
    (leb 9 c && leb c 13)
    || c == 32
    || c == 133
    || c == 160
    || c == 5760
    || (leb 8192 c && leb c 8202)
    || c == 8232
    || c == 8233
    || c == 8239
    || c == 8287
    || c == 12288

unfoldable pub database_role_from_username : Chars → Result DatabaseRole
database_role_from_username username =
    if text_eq username (codes "admin")
    then ok admin
    else if not (all is_whitespace username)
    then ok (custom username)
    else err (usage (codes "--username must not be empty"))

abbrev pub with_last : List Statement → Option Statement → Result (List Bytes)
with_last statements none =
    err (usage (codes "command input ends with an incomplete SQL statement"))
with_last statements (some statement) =
    ok (map (λ (s : Statement). s.text) (statements ++ statement ∷ []))

abbrev pub with_rest : StatementStream × Option (List Statement) → Result (List Bytes)
with_rest (stream, none) =
    err (usage (codes "command input contains a SQL statement larger than 16 MiB"))
with_rest (stream, some statements) =
    if not (pending_is_trivia stream)
    then with_last statements (take_complete_statement stream).1
    else ok (map (λ (s : Statement). s.text) statements)

unfoldable pub split_command_with_limit : Bytes → ℕ → Result (List Bytes)
split_command_with_limit input limit =
    if ltb limit (length input)
    then err (usage (codes "command input is larger than 16 MiB"))
    else with_rest (push_bounded empty input limit)

unfoldable pub split_command : Bytes → Result (List Bytes)
unfolding split_command_with_limit
split_command input = split_command_with_limit input max_statement_bytes
