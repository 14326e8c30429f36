-- ===== src/Common/Sort.antt =====
-- `Array.prototype.sort`: the default order of texts, by UTF-16 code units, and a stable sort by a
-- given order.
use Prim.Native.Nat.{ℕ, ◌+◌, ◌-◌, ◌/◌, ◌%◌}
use Prim.Native.Char.{code}
use Prim.Native.String.{String}
use mathlib.Core.Path.{◌≡◌, refl}
use mathlib.Core.Bool.{Bool, true, false}
use mathlib.Core.List.{List, [], ◌∷◌, ◌++◌}
use native.Mathlib.Omega.{arith}
use package.nova_test.Common.Tests.{if◌then◌else◌, ltb, ◌==◌}
use package.nova_test.Common.Lists.{contains}

units : ℕ → List ℕ
units c =
    if ltb c 0x10000
    then c ∷ []
    else (0xD800 + (c - 0x10000) / 0x400) ∷ (0xDC00 + (c - 0x10000) % 0x400) ∷ []

code_units : String → List ℕ
unfolding units
code_units String.[] = []
code_units (String.◌∷◌ c s) = units (code c) ++ code_units s

lex_le : List ℕ → List ℕ → Bool
lex_le [] ys = true
lex_le (x ∷ xs) [] = false
lex_le (x ∷ xs) (y ∷ ys) =
    let rest = lex_le xs ys in if ltb x y then true else if x == y then rest else false

unfoldable pub text_le : String → String → Bool
unfolding code_units lex_le
text_le s t = lex_le (code_units s) (code_units t)

module _ {ℓ} {A : Type ℓ} (le : A → A → Bool) where
  unfoldable pub insert : A → List A → List A
  insert x [] = x ∷ []
  insert x (y ∷ ys) = if le x y then x ∷ y ∷ ys else y ∷ insert x ys

  unfoldable pub sort : List A → List A
  unfolding insert
  sort [] = []
  sort (x ∷ xs) = insert x (sort xs)

contains-insert :
    (le : String → String → Bool) (x y : String) (ys : List String)
    → contains (insert le x ys) y ≡ contains (x ∷ ys) y
unfolding insert contains
contains-insert le x y [] = refl
contains-insert le x y (z ∷ ys) = ground (arith, contains-insert le x y ys)

pub contains-sort :
    (le : String → String → Bool) (ys : List String) (y : String)
    → contains (sort le ys) y ≡ contains ys y
unfolding sort contains
contains-sort le [] y = refl
contains-sort le (x ∷ ys) y =
    ground (arith, contains-insert le x y (sort le ys), contains-sort le ys y)
