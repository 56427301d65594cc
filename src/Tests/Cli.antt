-- ===== src/Tests/Cli.antt =====
-- src/cli.rs: the command splitter and the targets, at inputs.
use dsql_cli.Prelude.{◌≡◌, refl, arith, true, List, [], ◌∷◌, ◌++◌, none, some, Bytes, codes, concat}
use dsql_cli.Error.{ok}
use dsql_cli.Prelude.Split
use dsql_cli.Target
use dsql_cli.Target.{
  accepted, ClusterSelector, endpoint_selector, bare_selector, parse_cluster_selector,
}
use dsql_cli.App.Data.{ClusterTarget, resolved}
use dsql_cli.Sql.Lexer.{lexical_completeness, terminated_statement_ends}
use dsql_cli.Sql.Keywords.{skip_trivia}
use dsql_cli.Sql.Stream.{push_bounded, pending_is_trivia, take_complete_statement}
use dsql_cli.Sql.Stream.Frames.{frames}
use dsql_cli.Cli.{split_command_with_limit, target_from_selector, endpoint_of}
use dsql_cli.Cli.Command.{
  is_trivia, closing, split_command_with_limit-closing, split_command_with_limit-concat,
}
use dsql_cli.Cli.Canonical.{Canonical, target_from_selector-Canonical}

abbrev command : Bytes
command = codes "SELECT ';'; SELECT 2 -- done"

abbrev split_in_two : List Bytes
split_in_two = codes "SELECT ';';" ∷ codes " SELECT 2 -- done" ∷ []

splits : split_command_with_limit command 40 ≡ ok split_in_two
unfolding split_command_with_limit push_bounded terminated_statement_ends pending_is_trivia
    lexical_completeness skip_trivia take_complete_statement
splits = refl

split_command_with_limit-closing_example :
    split_command_with_limit command 40 ≡ closing (frames command)
split_command_with_limit-closing_example = split_command_with_limit-closing command 40 (omega arith)

split_command_with_limit-concat_example :
    (rest : Bytes) × (concat split_in_two ++ rest ≡ command) × (is_trivia rest ≡ true)
split_command_with_limit-concat_example =
    split_command_with_limit-concat command 40 split_in_two (omega arith) splits

abbrev identifier : Bytes
identifier = codes "0123456789abcdefghijklmnop"

abbrev region : Bytes
region = codes "us-east-1"

abbrev target : ClusterTarget
target = record {
  id = identifier;
  region = region;
  endpoint = some (endpoint_of identifier region);
  arn = none;
  status = none;
  display_name = none;
}

parses : parse_cluster_selector identifier ≡ accepted (bare_selector identifier)
unfolding parse_cluster_selector Target.parse_arn Target.parse_endpoint Target.is_identifier
parses = refl

resolves : target_from_selector (bare_selector identifier) region ≡ ok target
unfolding target_from_selector Target.check_region Target.is_region Target.region_parts Split.split
    resolved
resolves = refl

target_from_selector-Canonical_example : Canonical (bare_selector identifier) region target
target_from_selector-Canonical_example =
    target_from_selector-Canonical identifier region (bare_selector identifier) target parses
      resolves
