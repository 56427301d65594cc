-- ===== src/Cli/Canonical.antt =====
-- The target of a selector: one endpoint, whichever form selected the cluster.
use dsql_cli.Prelude.{
  ◌≡◌, refl, sym, ap, ◌∙◌, arith, ◌⊎◌, inl, inr, Bool, true, false, not, Option, none, some, Bytes,
  text_eq, text_eq_iff, if◌then◌else◌,
}
use dsql_cli.Error.{ok}
use dsql_cli.App.Data.{ClusterTarget, resolved}
use dsql_cli.Target.{
  ClusterSelector, ClusterSelectorError, malformed_resolved_region, region_conflict, accepted,
  is_region, check_region, parse_cluster_selector,
}
use dsql_cli.Target.Grammar.{Form, bare, by_arn, by_endpoint, selector_of}
use dsql_cli.Target.Sound.{parse_cluster_selector-Written}
use dsql_cli.Cli.{unwrap_or, endpoint_of, checked_target, target_from_selector}

-- The target of a cluster in a region, with the region's own endpoint; and a selector that names
-- no other region.
pub record Canonical (selector : ClusterSelector) (region : Bytes) (target : ClusterTarget)
    : Type 0 where
  pub same_cluster : target.id ≡ selector.identifier
  pub same_region : target.region ≡ region
  pub own_endpoint : target.endpoint ≡ some (endpoint_of selector.identifier region)
  pub same_arn : target.arn ≡ selector.arn
  pub well_formed : is_region region ≡ true
  pub named_region : (selector.region ≡ none) ⊎ (selector.region ≡ some region)

target-injective : (a b : ClusterTarget) → ok a ≡ ok b → a ≡ b
target-injective a b h = cc

checked :
    (selector : ClusterSelector) (region : Bytes) (e : Option ClusterSelectorError)
    (target : ClusterTarget)
    → checked_target selector region e ≡ ok target
    → (e ≡ none)
      × (resolved selector.identifier region
            (some (unwrap_or selector.endpoint (endpoint_of selector.identifier region)))
            selector.arn
          ≡ target)
checked selector region none target h = (refl, target-injective _ target h)
checked selector region (some e) target h = absurd (grind arith)

no_error :
    (b : Bool) (e : ClusterSelectorError) (next : Option ClusterSelectorError)
    → (if not b then some e else next) ≡ none
    → (b ≡ true) × (next ≡ none)
no_error true e next h = (refl, h)
no_error false e next h = absurd (grind arith)

check_region-region :
    (selector : ClusterSelector) (region : Bytes)
    → check_region selector region ≡ none
    → is_region region ≡ true
unfolding check_region
check_region-region selector region h =
    (no_error (is_region region) (malformed_resolved_region region) _ h).0

check_region-named :
    (r region : Bytes) (e : ClusterSelectorError)
    → (if not (text_eq r region) then some e else none) ≡ none
    → r ≡ region
check_region-named r region e h = (text_eq_iff r region).0 (no_error (text_eq r region) e none h).0

check_region-arn :
    (p r a i region : Bytes)
    → check_region (selector_of (by_arn p r a i)) region ≡ none
    → r ≡ region
unfolding check_region
check_region-arn p r a i region h =
    check_region-named r region (region_conflict r region)
      (no_error (is_region region) (malformed_resolved_region region) _ h).1

check_region-endpoint :
    (i r region : Bytes) → check_region (selector_of (by_endpoint i r)) region ≡ none → r ≡ region
unfolding check_region
check_region-endpoint i r region h =
    check_region-named r region (region_conflict r region)
      (no_error (is_region region) (malformed_resolved_region region) _ h).1

-- A form that names a region names this one.
named_region :
    (f : Form) (region : Bytes)
    → check_region (selector_of f) region ≡ none
    → ((selector_of f).region ≡ none) ⊎ ((selector_of f).region ≡ some region)
named_region (bare i) region h = inl refl
named_region (by_arn p r a i) region h = inr (ap some (check_region-arn p r a i region h))
named_region (by_endpoint i r) region h = inr (ap some (check_region-endpoint i r region h))

-- Every form names the region's endpoint.
own_endpoint :
    (f : Form) (region : Bytes)
    → check_region (selector_of f) region ≡ none
    → unwrap_or (selector_of f).endpoint (endpoint_of (selector_of f).identifier region)
      ≡ endpoint_of (selector_of f).identifier region
own_endpoint (bare i) region h = refl
own_endpoint (by_arn p r a i) region h = refl
own_endpoint (by_endpoint i r) region h = ap (endpoint_of i) (check_region-endpoint i r region h)

form-Canonical :
    (f : Form) (region : Bytes) (target : ClusterTarget)
    → target_from_selector (selector_of f) region ≡ ok target
    → Canonical (selector_of f) region target
unfolding target_from_selector resolved
form-Canonical f region target h =
    let both = checked (selector_of f) region (check_region (selector_of f) region) target h in
    let same = sym both.1 in
    record {
      same_cluster = ap (λ (t : ClusterTarget). t.id) same;
      same_region = ap (λ (t : ClusterTarget). t.region) same;
      own_endpoint =
          ap (λ (t : ClusterTarget). t.endpoint) same ∙ ap some (own_endpoint f region both.0);
      same_arn = ap (λ (t : ClusterTarget). t.arn) same;
      well_formed = check_region-region (selector_of f) region both.0;
      named_region = named_region f region both.0;
    }

-- The target that a parsed selector gives in a region is the selector's cluster in that region,
-- and its endpoint is the cluster's own endpoint there, whichever form selected it; and a
-- selector that names a region, an ARN or an endpoint, names this one, so that one for another
-- region gives no target.
pub target_from_selector-Canonical :
    (input region : Bytes) (selector : ClusterSelector) (target : ClusterTarget)
    → parse_cluster_selector input ≡ accepted selector
    → target_from_selector selector region ≡ ok target
    → Canonical selector region target
target_from_selector-Canonical input region selector target parsed h =
    let written = parse_cluster_selector-Written input selector parsed in
    rw (← written.3) (
      form-Canonical written.0 region target
        (ap (λ s. target_from_selector s region) written.3 ∙ h))
