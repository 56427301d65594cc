-- ===== src/Shell/Commands/Total.antt =====
-- Where the slice behind the name cannot panic.
use dsql_cli.Prelude.{
  ℕ, ◌+◌, ◌-◌, ◌≡◌, refl, sym, ap, ◌∙◌, arith, Bool, true, false, not, some, List, [], ◌∷◌, Chars,
  byte_len, len_utf8, is_ascii_whitespace, push_first, leb, ◌==◌, ==_iff, if◌then◌else◌, Bool-cases,
  inl, inr,
}
use dsql_cli.Shell.{Parsed, parsed, message}
use dsql_cli.Shell.Commands.{
  MetaCommand, MetaParse, no_command, refused, panicked, parse_as, no_arguments, parse_named,
  parse_words, words_of, split_spaces, non_empty, slice_from, trim, one_line, parse_command, parse,
}

abbrev pub is_panicked : MetaParse → Bool
is_panicked panicked = true
is_panicked _ = false

-- White space directly behind the backslash.
abbrev pub spaced : Chars → Bool
spaced (c ∷ d ∷ s) = is_ascii_whitespace d
spaced _ = false

record Calm (p : MetaParse) : Type 0 where
  calm : is_panicked p ≡ false

if-Calm : (b : Bool) (x y : MetaParse) → Calm x → Calm y → Calm (if b then x else y)
if-Calm true x y f g = f
if-Calm false x y f g = g

parse_as-Calm {ℓ} : {A : Type ℓ} (f : A → MetaCommand) (p : Parsed A) → Calm (parse_as f p)
parse_as-Calm f (parsed a) = record { calm = refl }
parse_as-Calm f (message text) = record { calm = refl }

no_arguments-Calm : (name : Chars) (l : List Chars) (c : MetaCommand) → Calm (no_arguments name l c)
no_arguments-Calm name [] c = record { calm = refl }
no_arguments-Calm name (x ∷ l) c = record { calm = refl }

refused-Calm : (text : Chars) → Calm (refused text)
refused-Calm text = record { calm = refl }

no_command-Calm : Calm no_command
no_command-Calm = record { calm = refl }

ruleset branches = (if-Calm, parse_as-Calm, no_arguments-Calm, refused-Calm, no_command-Calm)

parse_named-Calm :
    (name : Chars) (arguments : List Chars) (text : Chars) → Calm (parse_named name arguments text)
unfolding parse_named
parse_named-Calm name l text = search branches depth 30

abbrev head_of : List Chars → Chars
head_of [] = []
head_of (p ∷ ps) = p

head_of-push_first : (c : ℕ) (ps : List Chars) → head_of (push_first c ps) ≡ c ∷ head_of ps
head_of-push_first c [] = refl
head_of-push_first c (p ∷ ps) = refl

Sliced : ℕ → Chars → Type 0
Sliced n s = (t : Chars) × (slice_from n s ≡ some t)

slice_from-zero : (s : Chars) → slice_from 0 s ≡ some s
unfolding slice_from
slice_from-zero [] = refl
slice_from-zero (c ∷ s) = refl

slice_from-next : (c n : ℕ) (s : Chars) → slice_from (len_utf8 c + n) (c ∷ s) ≡ slice_from n s
unfolding slice_from
slice_from-next c n s =
    let back : len_utf8 c + n - len_utf8 c ≡ n = omega arith in
    let some_bytes : (len_utf8 c + n == 0) ≡ false = ground arith in
    let enough : leb (len_utf8 c) (len_utf8 c + n) ≡ true = ground arith in
    rw (some_bytes, enough, back)

first_part :
    (s : Chars) → (t : Chars) × (slice_from (byte_len (head_of (split_spaces s))) s ≡ some t)
unfolding split_spaces
first_part [] = ([], slice_from-zero [])
first_part (c ∷ s) = elim (Bool-cases (is_ascii_whitespace c)) [
  | inl space ↦ (c ∷ s, rw space (slice_from-zero (c ∷ s)))
  | inr other ↦ (
    (first_part s).0,
    rw (other, head_of-push_first c (split_spaces s))
        (slice_from-next c (byte_len (head_of (split_spaces s))) s ∙ (first_part s).1),
  )
]

-- A name that is there is cut off at a character.
parse_words-Calm :
    (input : Chars) (words : List Chars)
    → ((name : Chars) (l : List Chars)
        → words ≡ name ∷ l
        → (t : Chars) × (slice_from (1 + byte_len name) input ≡ some t))
    → Calm (parse_words input words)
parse_words-Calm input [] cut = refused-Calm _
parse_words-Calm input (name ∷ l) cut =
    rw (cut name l refl).1 (parse_named-Calm name l (trim (cut name l refl).0))

abbrev tail_of : List Chars → List Chars
tail_of [] = []
tail_of (p ∷ ps) = ps

non_empty-push_first :
    (c : ℕ) (ps : List Chars)
    → non_empty (push_first c ps) ≡ head_of (push_first c ps) ∷ non_empty (tail_of ps)
unfolding non_empty
non_empty-push_first c [] = refl
non_empty-push_first c (p ∷ ps) = refl

same_head : (p q : Chars) (ps qs : List Chars) → p ∷ ps ≡ q ∷ qs → p ≡ q
same_head p q ps qs h = cc

first_word :
    (c : ℕ) (s name : Chars) (l : List Chars)
    → is_ascii_whitespace c ≡ false
    → words_of (c ∷ s) ≡ name ∷ l
    → head_of (split_spaces (c ∷ s)) ≡ name
unfolding split_spaces
first_word c s name l h words = rw h (
    same_head (head_of (push_first c (split_spaces s))) name (non_empty (tail_of (split_spaces s)))
      l (sym (non_empty-push_first c (split_spaces s)) ∙ (rw h at words)))

-- The name is behind the backslash, and is cut off with it.
name_cut :
    (s name : Chars) (l : List Chars)
    → spaced (b'\\' ∷ s) ≡ false
    → words_of s ≡ name ∷ l
    → (t : Chars) × (slice_from (1 + byte_len name) (b'\\' ∷ s) ≡ some t)
name_cut [] name l h words = absurd (unfold split_spaces non_empty in cc)
name_cut (c ∷ s) name l h words =
    let first = first_part (c ∷ s) in
    (
      first.0,
      slice_from-next b'\\' (byte_len name) (c ∷ s)
          ∙ ap (λ n. slice_from (byte_len n) (c ∷ s)) (sym (first_word c s name l h words))
          ∙ first.1,
    )

parse_command-Calm : (s : Chars) → spaced (b'\\' ∷ s) ≡ false → Calm (parse_command (b'\\' ∷ s) s)
unfolding parse_command
parse_command-Calm s h =
    parse_words-Calm (b'\\' ∷ s) (words_of s) (λ name l words. name_cut s name l h words)

parse-Calm : (input : Chars) (active : Bool) → spaced input ≡ false → Calm (parse input active)
unfolding parse
parse-Calm [] active h = no_command-Calm
parse-Calm (c ∷ s) true h = no_command-Calm
parse-Calm (c ∷ s) false h = elim (Bool-cases (c == b'\\')) [
  | inl slash ↦
      let same = (==_iff c b'\\').0 slash in
      rw same (if-Calm (not (one_line (b'\\' ∷ s))) _ _ (refused-Calm _) (parse_command-Calm s h))
  | inr other ↦ rw other no_command-Calm
]

-- No line makes the parser panic, unless white space stands directly behind the backslash.
pub parse-is_panicked :
    (input : Chars) (active : Bool)
    → spaced input ≡ false
    → is_panicked (parse input active) ≡ false
parse-is_panicked input active h = (parse-Calm input active h).calm
