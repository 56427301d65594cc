-- ===== src/Target/Complete.antt =====
-- Every valid form is accepted, as what it says.
use dsql_cli.Prelude.{
  ◌≡◌, refl, sym, ap, ◌∙◌, arith, ℕ, Bool, true, false, not, ◌&&◌, none, some, inl, inr, List, [],
  ◌∷◌, ◌++◌, Bytes, codes, text_eq, text_eq_iff, starts_with, split, join, join-split, split-join,
  free_of, all, all_mono, all-join, append-nil, Bool-cases, ◌==◌, is_ascii_digit,
}
use dsql_cli.Target.{
  accepted, is_identifier, is_region, is_partition, is_account_id, is_one_of, partitions,
  is_lowercase_or_digit, region_parts, arn_checks, arn_resource, arn_parts, parse_arn,
  endpoint_labels, parse_endpoint, parse_cluster_selector,
}
use dsql_cli.Target.Grammar.{Form, bare, by_arn, by_endpoint, print, is_valid, selector_of}

-- What may stand in a part: no separator of an ARN or an endpoint.
abbrev plain : ℕ → Bool
plain x = not (x == 58) && not (x == 46)

digit-plain : (x : ℕ) → is_ascii_digit x ≡ true → plain x ≡ true
digit-plain x h = ground arith

word-plain : (x : ℕ) → is_lowercase_or_digit x ≡ true → plain x ≡ true
word-plain x h = ground arith

is_identifier-plain : (s : Bytes) → is_identifier s ≡ true → all plain s ≡ true
unfolding is_identifier
is_identifier-plain s h = all_mono is_lowercase_or_digit plain s word-plain (ground arith)

is_account_id-plain : (s : Bytes) → is_account_id s ≡ true → all plain s ≡ true
unfolding is_account_id
is_account_id-plain s h = all_mono is_ascii_digit plain s digit-plain (ground arith)

is_one_of-plain :
    (ps : List Bytes) (s : Bytes)
    → all (λ p. all plain p) ps ≡ true
    → is_one_of ps s ≡ true
    → all plain s ≡ true
is_one_of-plain [] s h k = absurd (grind arith)
is_one_of-plain (p ∷ ps) s h k = elim (Bool-cases (text_eq s p)) [
  | inl same ↦ ap (all plain) ((text_eq_iff s p).0 same) ∙ (ground arith)
  | inr other ↦ is_one_of-plain ps s (ground arith) (ground arith)
]

is_partition-plain : (s : Bytes) → is_partition s ≡ true → all plain s ≡ true
unfolding is_partition
is_partition-plain s h = is_one_of-plain partitions s refl h

region_parts-plain : (ps : List Bytes) → region_parts ps ≡ true → all (λ p. all plain p) ps ≡ true
unfolding region_parts
region_parts-plain [] h = refl
region_parts-plain (p ∷ []) h = ground (arith, all_mono is_ascii_digit plain p digit-plain)
region_parts-plain (p ∷ q ∷ ps) h =
    ground (arith, all_mono is_lowercase_or_digit plain p word-plain, region_parts-plain (q ∷ ps))

is_region-plain : (s : Bytes) → is_region s ≡ true → all plain s ≡ true
unfolding is_region
is_region-plain s h =
    sym (ap (all plain) (join-split 45 s))
    ∙ all-join plain 45 (split 45 s) refl (region_parts-plain (split 45 s) (ground arith))

plain-colon : (s : Bytes) → all plain s ≡ true → free_of 58 s ≡ true
plain-colon s h = all_mono plain (λ x. not (x == 58)) s (λ x k. ground arith) h

plain-dot : (s : Bytes) → all plain s ≡ true → free_of 46 s ≡ true
plain-dot s h = all_mono plain (λ x. not (x == 46)) s (λ x k. ground arith) h

-- No identifier starts as an ARN does, whatever follows it.
is_identifier-arn :
    (s t : Bytes) → is_identifier s ≡ true → starts_with (s ++ t) (codes "arn:") ≡ false
unfolding is_identifier
is_identifier-arn [] t h = absurd (ground arith)
is_identifier-arn (a ∷ []) t h = absurd (ground arith)
is_identifier-arn (a ∷ b ∷ []) t h = absurd (ground arith)
is_identifier-arn (a ∷ b ∷ c ∷ []) t h = absurd (ground arith)
is_identifier-arn (a ∷ b ∷ c ∷ d ∷ s) t h = ground arith

and_left : (a b : Bool) → (a && b) ≡ true → (a ≡ true) × (b ≡ true)
and_left a b h = ground arith

by_arn-split :
    (p r a i : Bytes)
    → arn_checks p r a i ≡ true
    → split 58 (print (by_arn p r a i))
      ≡ codes "arn" ∷ p ∷ codes "dsql" ∷ r ∷ a ∷ (codes "cluster/" ++ i) ∷ []
by_arn-split p r a i h =
    let hp = plain-colon p (is_partition-plain p (ground arith)) in
    let hr = plain-colon r (is_region-plain r (ground arith)) in
    let ha = plain-colon a (is_account_id-plain a (ground arith)) in
    let hi = plain-colon i (is_identifier-plain i (ground arith)) in
    split-join 58 (codes "arn") (p ∷ codes "dsql" ∷ r ∷ a ∷ (codes "cluster/" ++ i) ∷ [])
      (ground arith)

by_arn-accepted :
    (p r a i : Bytes)
    → arn_checks p r a i ≡ true
    → parse_arn (print (by_arn p r a i)) ≡ some (accepted (selector_of (by_arn p r a i)))
unfolding parse_arn arn_parts arn_resource
by_arn-accepted p r a i h = rw (by_arn-split p r a i h, h)

by_endpoint-split :
    (i r : Bytes)
    → is_identifier i ≡ true
    → is_region r ≡ true
    → split 46 (print (by_endpoint i r)) ≡ i ∷ codes "dsql" ∷ r ∷ codes "on" ∷ codes "aws" ∷ []
by_endpoint-split i r h k =
    let hi = plain-dot i (is_identifier-plain i h) in
    let hr = plain-dot r (is_region-plain r k) in
    split-join 46 i (codes "dsql" ∷ r ∷ codes "on" ∷ codes "aws" ∷ []) (ground arith)

free_of-separated : (c : ℕ) (s t : Bytes) → free_of c (s ++ c ∷ t) ≡ false
free_of-separated c [] t = ground arith
free_of-separated c (x ∷ s) t = ground (arith, free_of-separated c s t)

by_endpoint-accepted :
    (i r : Bytes)
    → is_identifier i ≡ true
    → is_region r ≡ true
    → parse_endpoint (print (by_endpoint i r)) ≡ some (accepted (selector_of (by_endpoint i r)))
unfolding parse_endpoint endpoint_labels
by_endpoint-accepted i r h k = rw (
  free_of-separated 46 i (join 46 (codes "dsql" ∷ r ∷ codes "on" ∷ codes "aws" ∷ [])),
  by_endpoint-split i r h k,
  h,
  k,
)

identifier-no_arn : (i t : Bytes) → is_identifier i ≡ true → parse_arn (i ++ t) ≡ none
unfolding parse_arn
identifier-no_arn i t h = rw (is_identifier-arn i t h)

identifier-no_endpoint : (i : Bytes) → is_identifier i ≡ true → parse_endpoint i ≡ none
unfolding parse_endpoint
identifier-no_endpoint i h = rw (plain-dot i (is_identifier-plain i h))

-- Every valid form, as it is printed, is accepted as the selector that it stands for: so no text
-- is read in two ways.
pub parse_cluster_selector-print :
    (f : Form) → is_valid f ≡ true → parse_cluster_selector (print f) ≡ accepted (selector_of f)
unfolding parse_cluster_selector
parse_cluster_selector-print (bare i) h =
    rw (sym (ap parse_arn (append-nil i)) ∙ identifier-no_arn i [] h, identifier-no_endpoint i h, h)
parse_cluster_selector-print (by_arn p r a i) h = rw (by_arn-accepted p r a i h)
parse_cluster_selector-print (by_endpoint i r) h =
    let hi = and_left (is_identifier i) (is_region r) h in
    rw (
      identifier-no_arn i (46 ∷ join 46 (codes "dsql" ∷ r ∷ codes "on" ∷ codes "aws" ∷ [])) hi.0,
      by_endpoint-accepted i r hi.0 hi.1,
    )
