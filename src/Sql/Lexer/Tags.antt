-- ===== src/Sql/Lexer/Tags.antt =====
-- Dollar tags with more text behind: a tag stays, or the text was all of an unfinished one.
use dsql_cli.Prelude.{
  ℕ, suc, ◌<◌, ◌≡◌, refl, true, false, Option, none, some, [], ◌∷◌, ◌++◌, Bytes, All, arith, length,
  ◌⊎◌, inl, inr, ◌==◌, Bool-cases,
}
use mathlib.Core.Option
use dsql_cli.Sql.Lexer.{is_identifier_continue, is_identifier_start, tag_end, dollar_tag}

-- Text that may stand between the dollars of a tag.
abbrev pub TagByte : ℕ → Type 0
TagByte c = (is_identifier_continue c ≡ true) × ((c == b'$') ≡ false)

-- A tag, if there is one, is longer than this.
abbrev pub Longer : ℕ → Option Bytes → Type 0
Longer n none = Unit
Longer n (some t) = n < length t

pub Longer-map :
    (n c : ℕ) (o : Option Bytes) → Longer n o → Longer (suc n) (Option.map (λ t. c ∷ t) o)
Longer-map n c none h = tt
Longer-map n c (some t) h = omega arith

pub Longer-tag_end : (b : Bytes) → Longer 0 (tag_end b)
unfolding tag_end
Longer-tag_end [] = tt
Longer-tag_end (c ∷ b) = elim (Bool-cases (c == b'$')) [
  | inl t ↦ rw t (omega arith)
  | inr f ↦ elim (Bool-cases (is_identifier_continue c)) [
    | inl i ↦ rw (f, i) (skip c (tag_end b))
    | inr n ↦ rw (f, n) tt
  ]
]
  where
    skip : (c : ℕ) (o : Option Bytes) → Longer 0 (Option.map (λ t. c ∷ t) o)
    skip c none = tt
    skip c (some t) = omega arith

-- The search for a tag is the same with more text behind, or this text is all tag bytes, too
-- short for a tag that the longer text holds.
abbrev RunsOut : Bytes → Option Bytes → Option Bytes → Type 0
RunsOut a short long = (short ≡ none) × All TagByte a × Longer (length a) long

pub tag_end-append :
    (a b : Bytes) → (tag_end (a ++ b) ≡ tag_end a) ⊎ RunsOut a (tag_end a) (tag_end (a ++ b))
tag_end-append [] b = inr (unfold tag_end in refl, tt, Longer-tag_end b)
tag_end-append (c ∷ a) b = elim (Bool-cases (c == b'$')) [
  | inl t ↦ inl (unfold tag_end in rw t)
  | inr f ↦ elim (Bool-cases (is_identifier_continue c)) [
    | inr n ↦ inl (unfold tag_end in rw (f, n))
    | inl i ↦ elim (tag_end-append a b) [
      | inl same ↦ inl (unfold tag_end in rw (f, i, same))
      | inr (short, tags, long) ↦ inr (
        unfold tag_end in rw (f, i, short),
        ((i, f), tags),
        unfold tag_end in rw (f, i) (Longer-map (length a) c (tag_end (a ++ b)) long),
      )
    ]
  ]
]

pub identifier_start_continue :
    (c : ℕ) → is_identifier_start c ≡ true → is_identifier_continue c ≡ true
unfolding is_identifier_continue
identifier_start_continue c h = ground arith

pub Longer-map₂ :
    (n d c : ℕ) (o : Option Bytes)
    → Longer n o
    → Longer (suc (suc n)) (Option.map (λ t. d ∷ c ∷ t) o)
Longer-map₂ n d c none h = tt
Longer-map₂ n d c (some t) h = omega arith

pub Longer-dollar_tag : (b : Bytes) → Longer 1 (dollar_tag b)
unfolding dollar_tag
Longer-dollar_tag [] = tt
Longer-dollar_tag (c ∷ b) = elim (Bool-cases (c == b'$')) [
  | inl t ↦ rw t (omega arith)
  | inr f ↦ elim (Bool-cases (is_identifier_start c)) [
    | inl i ↦ rw (f, i) (skip (tag_end b))
    | inr n ↦ rw (f, n) tt
  ]
]
  where
    skip : (o : Option Bytes) → Longer 1 (Option.map (λ t. b'$' ∷ c ∷ t) o)
    skip none = tt
    skip (some t) = omega arith

pub dollar_tag-append :
    (a b : Bytes)
    → (dollar_tag (a ++ b) ≡ dollar_tag a)
      ⊎ ((dollar_tag a ≡ none) × All TagByte a × Longer (suc (length a)) (dollar_tag (a ++ b)))
dollar_tag-append [] b = inr (unfold dollar_tag in refl, tt, Longer-dollar_tag b)
dollar_tag-append (c ∷ a) b = elim (Bool-cases (c == b'$')) [
  | inl t ↦ inl (unfold dollar_tag in rw t)
  | inr f ↦ elim (Bool-cases (is_identifier_start c)) [
    | inr n ↦ inl (unfold dollar_tag in rw (f, n))
    | inl i ↦ elim (tag_end-append a b) [
      | inl same ↦ inl (unfold dollar_tag in rw (f, i, same))
      | inr (short, tags, long) ↦ inr (
        unfold dollar_tag in rw (f, i, short),
        ((identifier_start_continue c i, f), tags),
        unfold dollar_tag in rw (f, i) (Longer-map₂ (length a) b'$' c (tag_end (a ++ b)) long),
      )
    ]
  ]
]
