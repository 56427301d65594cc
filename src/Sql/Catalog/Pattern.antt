-- ===== src/Sql/Catalog/Pattern.antt =====
-- The pattern that is sent means what the user's pattern means.
use dsql_cli.Prelude.{
  ℕ, ◌≡◌, refl, arith, Bool, true, false, ◌&&◌, ◌||◌, [], ◌∷◌, Chars, ◌==◌, if◌then◌else◌,
}
use dsql_cli.Sql.Catalog.{relation_pattern}

abbrev pub some_suffix : (Chars → Bool) → Chars → Bool
some_suffix m [] = m []
some_suffix m (c ∷ s) = m (c ∷ s) || some_suffix m s

abbrev pub one_character : (Chars → Bool) → Chars → Bool
one_character m [] = false
one_character m (c ∷ s) = m s

abbrev pub this_character : ℕ → (Chars → Bool) → Chars → Bool
this_character x m [] = false
this_character x m (c ∷ s) = c == x && m s

abbrev pub nothing_left : Chars → Bool
nothing_left [] = true
nothing_left (c ∷ s) = false

-- `LIKE` with the backslash as its escape: `%` is any text and `_` any character, and a character
-- behind a backslash is itself. The flag says that the backslash has been read.
unfoldable pub like : Bool → Chars → Chars → Bool
like true [] s = false
like true (x ∷ p) s = this_character x (like false p) s
like false [] s = nothing_left s
like false (x ∷ p) s =
    if x == b'\\'
    then like true p s
    else if x == b'%'
    then some_suffix (like false p) s
    else if x == b'_'
    then one_character (like false p) s
    else this_character x (like false p) s

-- The user's patterns: `*` is any text, and every other character is itself.
unfoldable pub glob : Chars → Chars → Bool
glob [] s = nothing_left s
glob (x ∷ p) s = if x == b'*' then some_suffix (glob p) s else this_character x (glob p) s

some_suffix-ext :
    (f g : Chars → Bool) (s : Chars) → ((t : Chars) → f t ≡ g t) → some_suffix f s ≡ some_suffix g s
some_suffix-ext f g [] h = h []
some_suffix-ext f g (c ∷ s) h = rw (h (c ∷ s), some_suffix-ext f g s h)

this_character-ext :
    (x : ℕ) (f g : Chars → Bool) (s : Chars)
    → ((t : Chars) → f t ≡ g t)
    → this_character x f s ≡ this_character x g s
this_character-ext x f g [] h = refl
this_character-ext x f g (c ∷ s) h = rw (h s)

-- The pattern sent to the database matches, under `LIKE`, the names that the user's pattern
-- matches: a `%`, `_` or backslash of the user stands for itself.
pub like-relation_pattern : (p s : Chars) → like false (relation_pattern p) s ≡ glob p s
unfolding like glob relation_pattern
like-relation_pattern [] s = refl
like-relation_pattern (x ∷ p) s = ground (
  arith,
  some_suffix-ext (like false (relation_pattern p)) (glob p) s (like-relation_pattern p),
  this_character-ext x (like false (relation_pattern p)) (glob p) s (like-relation_pattern p),
)
