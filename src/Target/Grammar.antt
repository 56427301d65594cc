-- ===== src/Target/Grammar.antt =====
-- The selectors as a grammar: what may be written, and what it selects.
use dsql_cli.Prelude.{Bool, ◌&&◌, [], ◌∷◌, ◌++◌, Bytes, codes, join}
use dsql_cli.Target.{
  ClusterSelector, is_identifier, is_region, bare_selector, arn_selector, endpoint_selector,
  arn_checks,
}

pub data Form : Type 0 where
  bare : Bytes → Form
  by_arn : Bytes → Bytes → Bytes → Bytes → Form
  by_endpoint : Bytes → Bytes → Form

abbrev pub print : Form → Bytes
print (bare identifier) = identifier
print (by_arn partition region account_id identifier) = join 58 (
    codes "arn"
    ∷ partition
    ∷ codes "dsql"
    ∷ region
    ∷ account_id
    ∷ (codes "cluster/" ++ identifier)
    ∷ [])
print (by_endpoint identifier region) =
    join 46 (identifier ∷ codes "dsql" ∷ region ∷ codes "on" ∷ codes "aws" ∷ [])

-- The conditions on the parts.
abbrev pub is_valid : Form → Bool
is_valid (bare identifier) = is_identifier identifier
is_valid (by_arn partition region account_id identifier) =
    arn_checks partition region account_id identifier
is_valid (by_endpoint identifier region) = is_identifier identifier && is_region region

-- What the form selects: the parts it names, and the text where it is an ARN or an endpoint.
abbrev pub selector_of : Form → ClusterSelector
selector_of (bare identifier) = bare_selector identifier
selector_of (by_arn partition region account_id identifier) =
    arn_selector (print (by_arn partition region account_id identifier)) partition region account_id
      identifier
selector_of (by_endpoint identifier region) =
    endpoint_selector (print (by_endpoint identifier region)) identifier region
