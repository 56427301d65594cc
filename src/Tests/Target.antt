-- ===== src/Tests/Target.antt =====
-- src/target.rs: selectors of its unit tests, and the theorems at them.
use dsql_cli.Prelude.{◌≡◌, refl, Bytes, codes, true, none, some}
use dsql_cli.Prelude.Split
use dsql_cli.Target
use dsql_cli.Target.{
  accepted, rejected, malformed, arn_selector, ClusterSelector, parse_cluster_selector,
  check_region, region_conflict,
}
use dsql_cli.Target.Grammar.{by_arn}
use dsql_cli.Target.Sound.{Written, parse_cluster_selector-Written}
use dsql_cli.Target.Complete.{parse_cluster_selector-print}

abbrev arn : Bytes
arn = codes "arn:aws:dsql:us-east-1:123456789012:cluster/0123456789abcdefghijklmnop"

abbrev selected : ClusterSelector
selected =
    arn_selector arn (codes "aws") (codes "us-east-1") (codes "123456789012")
      (codes "0123456789abcdefghijklmnop")

accepts : parse_cluster_selector arn ≡ accepted selected
unfolding parse_cluster_selector Target.parse_arn Target.arn_parts Target.arn_resource
    Target.is_partition Target.is_region Target.region_parts Target.partition_matches_region
    Target.is_account_id Target.is_identifier Split.split
accepts = refl

parse_cluster_selector-Written_example : Written arn selected
parse_cluster_selector-Written_example = parse_cluster_selector-Written arn selected accepts

conflicts :
    (check_region selected (codes "eu-west-1")
      ≡ some (region_conflict (codes "us-east-1") (codes "eu-west-1")))
    × (check_region selected (codes "us-east-1") ≡ none)
unfolding check_region Target.is_region Target.region_parts Split.split
conflicts = (refl, refl)

is_partition_aws :
    Target.arn_checks
      (codes "aws")
      (codes "us-east-1")
      (codes "123456789012")
      (codes "0123456789abcdefghijklmnop")
    ≡ true
unfolding Target.is_partition Target.is_region Target.partition_matches_region Target.is_account_id
    Target.is_identifier Target.region_parts Split.split
is_partition_aws = refl

parse_cluster_selector-print_example : parse_cluster_selector arn ≡ accepted selected
parse_cluster_selector-print_example =
    parse_cluster_selector-print
      (by_arn (codes "aws") (codes "us-east-1") (codes "123456789012")
        (codes "0123456789abcdefghijklmnop"))
      is_partition_aws
