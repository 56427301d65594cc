-- ===== src/Prelude/Reverse.antt =====
-- `rev_onto xs ys` is the reverse of `xs` in front of `ys`: the text around a cursor.
use Prim.Native.Nat.{◌+◌}
use mathlib.Core.Path.{◌≡◌, refl}
use mathlib.Core.List.{List, [], ◌∷◌, ◌++◌}
use native.Mathlib.Omega.{arith}
use dsql_cli.Prelude.Lists.{length, take, drop, take-length-append, drop-length-append}

module _ {ℓ} {A : Type ℓ} where
  abbrev pub rev_onto : List A → List A → List A
  rev_onto [] ys = ys
  rev_onto (x ∷ xs) ys = rev_onto xs (x ∷ ys)

  pub rev_onto-append : (xs ys zs : List A) → rev_onto (xs ++ ys) zs ≡ rev_onto ys (rev_onto xs zs)
  rev_onto-append [] ys zs = refl
  rev_onto-append (x ∷ xs) ys zs = rev_onto-append xs ys (x ∷ zs)

  pub rev_onto-rev_onto :
      (xs ys zs : List A) → rev_onto (rev_onto xs ys) zs ≡ rev_onto ys (xs ++ zs)
  rev_onto-rev_onto [] ys zs = refl
  rev_onto-rev_onto (x ∷ xs) ys zs = rev_onto-rev_onto xs (x ∷ ys) zs

  pub rev_onto_split : (xs ys zs : List A) → rev_onto xs (ys ++ zs) ≡ rev_onto xs ys ++ zs
  rev_onto_split [] ys zs = refl
  rev_onto_split (x ∷ xs) ys zs = rev_onto_split xs (x ∷ ys) zs

  pub length-rev_onto : (xs ys : List A) → length (rev_onto xs ys) ≡ length xs + length ys
  length-rev_onto [] ys = omega arith
  length-rev_onto (x ∷ xs) ys = omega (arith, length-rev_onto xs (x ∷ ys))

module _ {ℓ} {A : Type ℓ} where
  pub drop-rev_onto : (xs ys : List A) → drop (length xs) (rev_onto xs ys) ≡ ys
  drop-rev_onto xs ys =
      let e : length xs ≡ length (rev_onto xs []) = omega (arith, length-rev_onto xs []) in
      rw (e, rev_onto_split xs [] ys) (drop-length-append (rev_onto xs []) ys)

  pub take-rev_onto : (xs ys : List A) → take (length xs) (rev_onto xs ys) ≡ rev_onto xs []
  take-rev_onto xs ys =
      let e : length xs ≡ length (rev_onto xs []) = omega (arith, length-rev_onto xs []) in
      rw (e, rev_onto_split xs [] ys) (take-length-append (rev_onto xs []) ys)
