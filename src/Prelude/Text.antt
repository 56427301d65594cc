-- ===== src/Prelude/Text.antt =====
-- Texts as lists of numbers: the bytes, or the characters, of a Rust string; and ASCII tests.
use Prim.Native.Nat.{ℕ, ◌+◌, ◌≤◌, ◌<◌}
use Prim.Native.Char.{code}
use Prim.Native.String.{String}
use mathlib.Core.Path.{◌≡◌, refl}
use mathlib.Core.Logic.{◌↔◌, ◌⊎◌, inl}
use mathlib.Core.Bool.{Bool, true, false, ◌&&◌, ◌||◌}
use mathlib.Core.List.{List, [], ◌∷◌, ◌++◌}
use native.Mathlib.Omega.{arith}
use dsql_cli.Prelude.Lists.{length}
use dsql_cli.Prelude.Tests.{leb, ◌==◌, if◌then◌else◌}

abbrev pub Bytes : Type 0
Bytes = List ℕ

-- The codes of a literal; its bytes, since every literal of the development is ASCII.
abbrev pub codes : String → Bytes
codes String.[] = []
codes (String.◌∷◌ c s) = code c ∷ codes s

-- `==` on strings.
abbrev pub text_eq : Bytes → Bytes → Bool
text_eq [] [] = true
text_eq (x ∷ xs) (y ∷ ys) = x == y && text_eq xs ys
text_eq _ _ = false

-- `starts_with` on byte slices.
abbrev pub starts_with : Bytes → Bytes → Bool
starts_with xs [] = true
starts_with [] (y ∷ ys) = false
starts_with (x ∷ xs) (y ∷ ys) = x == y && starts_with xs ys

abbrev pub is_ascii_lowercase : ℕ → Bool
is_ascii_lowercase c = leb b'a' c && leb c b'z'

abbrev pub is_ascii_uppercase : ℕ → Bool
is_ascii_uppercase c = leb b'A' c && leb c b'Z'

abbrev pub is_ascii_digit : ℕ → Bool
is_ascii_digit c = leb b'0' c && leb c b'9'

abbrev pub is_ascii_alphabetic : ℕ → Bool
is_ascii_alphabetic c = is_ascii_lowercase c || is_ascii_uppercase c

-- Space, tab, line feed, form feed and carriage return.
abbrev pub is_ascii_whitespace : ℕ → Bool
is_ascii_whitespace c = c == 32 || c == 9 || c == 10 || c == 12 || c == 13

abbrev pub to_ascii_lowercase : ℕ → ℕ
to_ascii_lowercase c = if is_ascii_uppercase c then c + 32 else c

pub starts_with_le : (xs ys : Bytes) → starts_with xs ys ≡ true → length ys ≤ length xs
starts_with_le xs [] h = omega arith
starts_with_le [] (y ∷ ys) h = cc
starts_with_le (x ∷ xs) (y ∷ ys) h = ground (arith, starts_with_le xs ys)

-- More text behind keeps a match, and makes one only of what was too short.
pub starts_with-append :
    (xs zs ys : Bytes)
    → (starts_with (xs ++ zs) ys ≡ starts_with xs ys)
      ⊎ ((starts_with (xs ++ zs) ys ≡ true) × (length xs < length ys))
starts_with-append xs zs [] = inl refl
starts_with-append [] zs (y ∷ ys) = ground arith
starts_with-append (x ∷ xs) zs (y ∷ ys) = ground (arith, starts_with-append xs zs ys)

pub text_eq_iff : (a b : Bytes) → (text_eq a b ≡ true) ↔ (a ≡ b)
text_eq_iff (x ∷ a) (y ∷ b) = ground (arith, text_eq_iff a b)
text_eq_iff _ _ = ground arith
