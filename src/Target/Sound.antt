-- ===== src/Target/Sound.antt =====
-- Every selector that is accepted was written in one of the valid forms.
use dsql_cli.Prelude.{
  ◌≡◌, refl, sym, ap, ◌∙◌, arith, Bool, true, false, ◌&&◌, Option, none, some, ◌⊎◌, List, [], ◌∷◌,
  ◌++◌, Bytes, codes, text_eq, text_eq_iff, starts_with, split, join, join-split, strip_prefix,
  strip_prefix-some, free_of, inl, inr, if◌then◌else◌,
}
use dsql_cli.Target.{
  ClusterSelector, ClusterSelectorError, malformed, Selection, accepted, rejected, is_identifier,
  is_region, arn_checks, bare_selector, arn_selector, endpoint_selector, arn_resource, arn_parts,
  parse_arn, endpoint_labels, parse_endpoint, or_else, parse_cluster_selector,
}
use dsql_cli.Target.Grammar.{Form, bare, by_arn, by_endpoint, print, is_valid, selector_of}

-- The selector stands for the input, in a valid form.
abbrev pub Written : Bytes → ClusterSelector → Type 0
Written input selector =
    (f : Form) × (is_valid f ≡ true) × (print f ≡ input) × (selector_of f ≡ selector)

accepted-injective : (a b : ClusterSelector) → accepted a ≡ accepted b → a ≡ b
accepted-injective a b h = cc

-- An accepted choice is the accepted branch of a test.
checked :
    (b : Bool) (a selector : ClusterSelector) (e : ClusterSelectorError)
    → (if b then accepted a else rejected e) ≡ accepted selector
    → (b ≡ true) × (a ≡ selector)
checked true a selector e h = (refl, accepted-injective a selector h)
checked false a selector e h = absurd (grind arith)

arn_resource-accepted :
    (input p r a : Bytes) (o : Option Bytes) (selector : ClusterSelector)
    → arn_resource input p r a o ≡ accepted selector
    → (i : Bytes) × (o ≡ some i)
      × (arn_checks p r a i ≡ true)
      × (arn_selector input p r a i ≡ selector)
unfolding arn_resource
arn_resource-accepted input p r a none selector h = absurd (grind arith)
arn_resource-accepted input p r a (some i) selector h =
    let both =
      checked (arn_checks p r a i) (arn_selector input p r a i) selector (malformed input) h in
    (i, refl, both.0, both.1)

passes_test :
    (b : Bool) (x : Selection) (selector : ClusterSelector) (e : ClusterSelectorError)
    → (if b then x else rejected e) ≡ accepted selector
    → (b ≡ true) × (x ≡ accepted selector)
passes_test true x selector e h = (refl, h)
passes_test false x selector e h = absurd (grind arith)

and_both : (a b : Bool) → (a && b) ≡ true → (a ≡ true) × (b ≡ true)
and_both a b h = ground arith

abbrev arn_line : Bytes → Bytes → Bytes → Bytes → Bytes → Bytes → Bytes
arn_line p r a arn s resource = arn ++ 58 ∷ (p ++ 58 ∷ (s ++ 58 ∷ (r ++ 58 ∷ (a ++ 58 ∷ resource))))

by_arn-Written :
    (input arn p s r a resource i : Bytes) (selector : ClusterSelector)
    → arn_line p r a arn s resource ≡ input
    → arn ≡ codes "arn"
    → s ≡ codes "dsql"
    → resource ≡ codes "cluster/" ++ i
    → arn_checks p r a i ≡ true
    → arn_selector input p r a i ≡ selector
    → Written input selector
by_arn-Written input arn p s r a resource i selector e h k l checks same =
    let printed =
      sym (ap (λ x. arn_line p r a x (codes "dsql") (codes "cluster/" ++ i)) h)
      ∙ sym (ap (λ x. arn_line p r a arn x (codes "cluster/" ++ i)) k)
      ∙ sym (ap (λ x. arn_line p r a arn s x) l)
      ∙ e in
    (by_arn p r a i, checks, printed, ap (λ x. arn_selector x p r a i) printed ∙ same)

arn_parts-Written :
    (input : Bytes) (parts : List Bytes) (selector : ClusterSelector)
    → join 58 parts ≡ input
    → arn_parts input parts ≡ accepted selector
    → Written input selector
unfolding arn_parts
arn_parts-Written input (arn ∷ p ∷ s ∷ r ∷ a ∷ resource ∷ []) selector e h =
    let first =
      passes_test (text_eq arn (codes "arn") && text_eq s (codes "dsql")) _ selector
        (malformed input) h in
    let names = and_both (text_eq arn (codes "arn")) (text_eq s (codes "dsql")) first.0 in
    let second =
      arn_resource-accepted input p r a (strip_prefix resource (codes "cluster/")) selector
        first.1 in
    by_arn-Written input arn p s r a resource second.0 selector e
      ((text_eq_iff arn (codes "arn")).0 names.0) ((text_eq_iff s (codes "dsql")).0 names.1)
      (strip_prefix-some resource (codes "cluster/") second.0 second.1) second.2 second.3
arn_parts-Written input _ selector e h = absurd (grind arith)

some_test : (b : Bool) (x y : Selection) → (if b then some x else none) ≡ some y → x ≡ y
some_test true x y h = cc
some_test false x y h = absurd (grind arith)

none_test : (b : Bool) (x y : Selection) → (if b then none else some x) ≡ some y → x ≡ y
none_test false x y h = cc
none_test true x y h = absurd (grind arith)

parse_arn-Written :
    (input : Bytes) (selector : ClusterSelector)
    → parse_arn input ≡ some (accepted selector)
    → Written input selector
unfolding parse_arn
parse_arn-Written input selector h =
    arn_parts-Written input (split 58 input) selector (join-split 58 input) (
      some_test (starts_with input (codes "arn:")) (arn_parts input (split 58 input))
        (accepted selector) h)

abbrev endpoint_line : Bytes → Bytes → Bytes → Bytes → Bytes → Bytes
endpoint_line i r s on aws = i ++ 46 ∷ (s ++ 46 ∷ (r ++ 46 ∷ (on ++ 46 ∷ aws)))

by_endpoint-Written :
    (input i s r on aws : Bytes) (selector : ClusterSelector)
    → endpoint_line i r s on aws ≡ input
    → s ≡ codes "dsql"
    → on ≡ codes "on"
    → aws ≡ codes "aws"
    → (is_identifier i && is_region r) ≡ true
    → endpoint_selector input i r ≡ selector
    → Written input selector
by_endpoint-Written input i s r on aws selector e h k l checks same =
    let printed =
      sym (ap (λ x. endpoint_line i r x (codes "on") (codes "aws")) h)
      ∙ sym (ap (λ x. endpoint_line i r s x (codes "aws")) k)
      ∙ sym (ap (λ x. endpoint_line i r s on x) l)
      ∙ e in
    (by_endpoint i r, checks, printed, ap (λ x. endpoint_selector x i r) printed ∙ same)

five_all :
    (a b c d e : Bool)
    → (a && b && c && d && e) ≡ true
    → (a ≡ true) × (b ≡ true) × (c ≡ true) × ((d && e) ≡ true)
five_all a b c d e h = ground arith

endpoint_labels-Written :
    (input : Bytes) (labels : List Bytes) (selector : ClusterSelector)
    → join 46 labels ≡ input
    → endpoint_labels input labels ≡ accepted selector
    → Written input selector
unfolding endpoint_labels
endpoint_labels-Written input (i ∷ s ∷ r ∷ on ∷ aws ∷ []) selector e h =
    let first =
      checked
        (text_eq s (codes "dsql")
          && text_eq on (codes "on")
          && text_eq aws (codes "aws")
          && is_identifier i
          && is_region r)
        (endpoint_selector input i r) selector (malformed input) h in
    let all_of =
      five_all (text_eq s (codes "dsql")) (text_eq on (codes "on")) (text_eq aws (codes "aws"))
        (is_identifier i) (is_region r) first.0 in
    by_endpoint-Written input i s r on aws selector e ((text_eq_iff s (codes "dsql")).0 all_of.0)
      ((text_eq_iff on (codes "on")).0 all_of.1) ((text_eq_iff aws (codes "aws")).0 all_of.2)
      all_of.3 first.1
endpoint_labels-Written input _ selector e h = absurd (grind arith)

parse_endpoint-Written :
    (input : Bytes) (selector : ClusterSelector)
    → parse_endpoint input ≡ some (accepted selector)
    → Written input selector
unfolding parse_endpoint
parse_endpoint-Written input selector h =
    endpoint_labels-Written input (split 46 input) selector (join-split 46 input)
      (none_test (free_of 46 input) (endpoint_labels input (split 46 input)) (accepted selector) h)

or_else-accepted :
    (o : Option Selection) (next : Selection) (selector : ClusterSelector)
    → or_else o next ≡ accepted selector
    → (o ≡ some (accepted selector)) ⊎ (next ≡ accepted selector)
or_else-accepted none next selector h = inr h
or_else-accepted (some x) next selector h = inl (ap some h)

bare-Written :
    (input : Bytes) (selector : ClusterSelector)
    → (if is_identifier input then accepted (bare_selector input) else rejected (malformed input))
      ≡ accepted selector
    → Written input selector
bare-Written input selector h =
    let both = checked (is_identifier input) (bare_selector input) selector (malformed input) h in
    (bare input, both.0, refl, both.1)

-- A selector that is accepted stands for the input: the input is one of the three forms with
-- parts that pass the checks, and the selector holds those parts.
pub parse_cluster_selector-Written :
    (input : Bytes) (selector : ClusterSelector)
    → parse_cluster_selector input ≡ accepted selector
    → Written input selector
unfolding parse_cluster_selector
parse_cluster_selector-Written input selector h =
    elim (or_else-accepted (parse_arn input) _ selector h) [
      | inl arn ↦ parse_arn-Written input selector arn
      | inr other ↦ elim (or_else-accepted (parse_endpoint input) _ selector other) [
        | inl endpoint ↦ parse_endpoint-Written input selector endpoint
        | inr plain ↦ bare-Written input selector plain
      ]
    ]
