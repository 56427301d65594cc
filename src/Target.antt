-- ===== src/Target.antt =====
-- src/target.rs: cluster selectors, the three forms and their checks. A text is its bytes; `split`
-- is at ASCII characters.
pub mod Grammar
pub mod Sound
pub mod Complete
use dsql_cli.Prelude.{
  ℕ, Bool, true, false, not, ◌&&◌, ◌||◌, Option, none, some, List, [], ◌∷◌, ◌++◌, Bytes, codes,
  text_eq, starts_with, is_ascii_lowercase, is_ascii_digit, split, strip_prefix, free_of, length,
  all, leb, ltb, ◌==◌, if◌then◌else◌,
}

pub record ClusterSelector : Type 0 where
  pub identifier : Bytes
  pub region : Option Bytes
  pub account_id : Option Bytes
  pub partition : Option Bytes
  pub arn : Option Bytes
  pub endpoint : Option Bytes

pub data ClusterSelectorError : Type 0 where
  malformed : Bytes → ClusterSelectorError
  malformed_resolved_region : Bytes → ClusterSelectorError
  region_conflict : Bytes → Bytes → ClusterSelectorError

-- `Result` with a `ClusterSelectorError`.
pub data Selection : Type 0 where
  accepted : ClusterSelector → Selection
  rejected : ClusterSelectorError → Selection

abbrev pub is_lowercase_or_digit : ℕ → Bool
is_lowercase_or_digit byte = is_ascii_lowercase byte || is_ascii_digit byte

unfoldable pub is_identifier : Bytes → Bool
is_identifier value = length value == 26 && all is_lowercase_or_digit value

unfoldable pub is_account_id : Bytes → Bool
is_account_id value = length value == 12 && all is_ascii_digit value

abbrev pub is_one_of : List Bytes → Bytes → Bool
is_one_of [] value = false
is_one_of (x ∷ xs) value = text_eq value x || is_one_of xs value

abbrev pub partitions : List Bytes
partitions =
    codes "aws"
    ∷ codes "aws-cn"
    ∷ codes "aws-us-gov"
    ∷ codes "aws-iso"
    ∷ codes "aws-iso-b"
    ∷ codes "aws-iso-e"
    ∷ codes "aws-iso-f"
    ∷ []

unfoldable pub is_partition : Bytes → Bool
is_partition value = is_one_of partitions value

unfoldable pub partition_matches_region : Bytes → Bytes → Bool
partition_matches_region partition region =
    if text_eq partition (codes "aws")
    then not (starts_with region (codes "cn-"))
      && not (starts_with region (codes "us-gov-"))
      && not (starts_with region (codes "us-iso-"))
      && not (starts_with region (codes "us-isob-"))
      && not (starts_with region (codes "eu-isoe-"))
      && not (starts_with region (codes "us-isof-"))
    else if text_eq partition (codes "aws-cn")
    then starts_with region (codes "cn-")
    else if text_eq partition (codes "aws-us-gov")
    then starts_with region (codes "us-gov-")
    else if text_eq partition (codes "aws-iso")
    then starts_with region (codes "us-iso-")
    else if text_eq partition (codes "aws-iso-b")
    then starts_with region (codes "us-isob-")
    else if text_eq partition (codes "aws-iso-e")
    then starts_with region (codes "eu-isoe-")
    else if text_eq partition (codes "aws-iso-f")
    then starts_with region (codes "us-isof-")
    else false

abbrev pub is_empty : Bytes → Bool
is_empty [] = true
is_empty (x ∷ s) = false

-- The parts but the last, and the last.
unfoldable pub region_parts : List Bytes → Bool
region_parts [] = false
region_parts (part ∷ []) = not (is_empty part) && all is_ascii_digit part
region_parts (part ∷ next ∷ parts) =
    not (is_empty part) && all is_lowercase_or_digit part && region_parts (next ∷ parts)

unfoldable pub is_region : Bytes → Bool
is_region value =
    if is_empty value || ltb 20 (length value)
    then false
    else if ltb (length (split 45 value)) 3
    then false
    else region_parts (split 45 value)

-- The forms that the parsers accept.
abbrev pub bare_selector : Bytes → ClusterSelector
bare_selector input = record {
  identifier = input;
  region = none;
  account_id = none;
  partition = none;
  arn = none;
  endpoint = none;
}

abbrev pub arn_selector : Bytes → Bytes → Bytes → Bytes → Bytes → ClusterSelector
arn_selector input partition region account_id identifier = record {
  identifier = identifier;
  region = some region;
  account_id = some account_id;
  partition = some partition;
  arn = some input;
  endpoint = none;
}

abbrev pub endpoint_selector : Bytes → Bytes → Bytes → ClusterSelector
endpoint_selector input identifier region = record {
  identifier = identifier;
  region = some region;
  account_id = none;
  partition = none;
  arn = none;
  endpoint = some input;
}

abbrev pub arn_checks : Bytes → Bytes → Bytes → Bytes → Bool
arn_checks partition region account_id identifier =
    is_partition partition
    && is_region region
    && partition_matches_region partition region
    && is_account_id account_id
    && is_identifier identifier

unfoldable pub arn_resource : Bytes → Bytes → Bytes → Bytes → Option Bytes → Selection
arn_resource input partition region account_id none = rejected (malformed input)
arn_resource input partition region account_id (some identifier) =
    if arn_checks partition region account_id identifier
    then accepted (arn_selector input partition region account_id identifier)
    else rejected (malformed input)

unfoldable pub arn_parts : Bytes → List Bytes → Selection
arn_parts input (arn ∷ partition ∷ service ∷ region ∷ account_id ∷ resource ∷ []) =
    if text_eq arn (codes "arn") && text_eq service (codes "dsql")
    then arn_resource input partition region account_id (strip_prefix resource (codes "cluster/"))
    else rejected (malformed input)
arn_parts input _ = rejected (malformed input)

unfoldable pub parse_arn : Bytes → Option Selection
parse_arn input =
    if starts_with input (codes "arn:") then some (arn_parts input (split 58 input)) else none

unfoldable pub endpoint_labels : Bytes → List Bytes → Selection
endpoint_labels input (identifier ∷ service ∷ region ∷ on ∷ aws ∷ []) =
    if text_eq service (codes "dsql")
      && text_eq on (codes "on")
      && text_eq aws (codes "aws")
      && is_identifier identifier
      && is_region region
    then accepted (endpoint_selector input identifier region)
    else rejected (malformed input)
endpoint_labels input _ = rejected (malformed input)

unfoldable pub parse_endpoint : Bytes → Option Selection
parse_endpoint input =
    if free_of 46 input then none else some (endpoint_labels input (split 46 input))

abbrev pub or_else : Option Selection → Selection → Selection
or_else (some selection) next = selection
or_else none next = next

unfoldable pub parse_cluster_selector : Bytes → Selection
parse_cluster_selector input = or_else (parse_arn input) (
    or_else (parse_endpoint input)
      (if is_identifier input then accepted (bare_selector input) else rejected (malformed input)))

unfoldable pub check_region : ClusterSelector → Bytes → Option ClusterSelectorError
check_region selector resolved_region =
    if not (is_region resolved_region)
    then some (malformed_resolved_region resolved_region)
    else elim selector.region [
      | none ↦ none
      | some region ↦
          if not (text_eq region resolved_region)
          then some (region_conflict region resolved_region)
          else none
    ]
