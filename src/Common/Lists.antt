-- ===== src/Common/Lists.antt =====
-- Lists measured by native numbers, predicates on lists, and lists of texts used as sets.
use Prim.Native.Nat.{ℕ, zero, suc, ◌+◌, ◌≤◌, ◌<◌}
use Prim.Native.String.{String}
use mathlib.Core.Path.{◌≡◌, refl, sym, ap, subst}
use mathlib.Core.Logic.{ite, ◌⊎◌, inl, inr}
use mathlib.Core.List.{List, [], ◌∷◌, ◌++◌}
use mathlib.Core.Option.{Option, none, some}
use mathlib.Core.Bool.{Bool, true, false}
use native.Mathlib.Omega.{arith}
use package.nova_test.Common.Tests.{if◌then◌else◌, text_dec}

module _ {ℓ} {A : Type ℓ} where
  abbrev pub length : List A → ℕ
  length [] = 0
  length (x ∷ xs) = suc (length xs)

  pub length-append : (xs ys : List A) → length (xs ++ ys) ≡ length xs + length ys
  length-append [] ys = omega arith
  length-append (x ∷ xs) ys = omega (arith, length-append xs ys)

  abbrev pub All {κ} : (A → Type κ) → List A → Type κ
  All P [] = Unit
  All P (x ∷ xs) = P x × All P xs

  pub append_one : (xs : List A) (x : A) (ys : List A) → (xs ++ x ∷ []) ++ ys ≡ xs ++ x ∷ ys
  append_one [] x ys = refl
  append_one (z ∷ xs) x ys = ap (λ ws. z ∷ ws) (append_one xs x ys)

  pub All-append {κ} : (P : A → Type κ) (xs ys : List A) → All P xs → All P ys → All P (xs ++ ys)
  All-append P [] ys hx hy = hy
  All-append P (x ∷ xs) ys hx hy = (hx.0, All-append P xs ys hx.1 hy)

  -- `list.some(test)` and `list.every(test)`
  abbrev pub any : (A → Bool) → List A → Bool
  any test [] = false
  any test (x ∷ xs) = if test x then true else any test xs

  abbrev pub every : (A → Bool) → List A → Bool
  every test [] = true
  every test (x ∷ xs) = if test x then every test xs else false

  abbrev pub is_empty : List A → Bool
  is_empty [] = true
  is_empty (x ∷ xs) = false

  -- `list[i]`
  unfoldable pub get_elem? : List A → ℕ → Option A
  get_elem? [] i = none
  get_elem? (x ∷ xs) zero = some x
  get_elem? (x ∷ xs) (suc i) = get_elem? xs i

  -- `list.splice(i, 1)`
  unfoldable pub erase_idx : List A → ℕ → List A
  erase_idx [] i = []
  erase_idx (x ∷ xs) zero = xs
  erase_idx (x ∷ xs) (suc i) = x ∷ erase_idx xs i

  -- `list.findIndex(test)`, `none` for -1
  unfoldable pub find_index : (A → Bool) → List A → Option ℕ
  find_index test [] = none
  find_index test (x ∷ xs) =
      if test x then some 0 else elim (find_index test xs) [ none ↦ none | some i ↦ some (suc i) ]

  pub length-erase_idx :
      (xs : List A) (i : ℕ) (x : A)
      → get_elem? xs i ≡ some x
      → length (erase_idx xs i) + 1 ≡ length xs
  unfolding get_elem? erase_idx
  length-erase_idx [] i x h = cc
  length-erase_idx (y ∷ xs) zero x h = omega arith
  length-erase_idx (y ∷ xs) (suc i) x h = omega (arith, length-erase_idx xs i x h)

  pub All-erase_idx {κ} : (P : A → Type κ) (xs : List A) (i : ℕ) → All P xs → All P (erase_idx xs i)
  unfolding erase_idx
  All-erase_idx P [] i h = h
  All-erase_idx P (x ∷ xs) zero h = h.1
  All-erase_idx P (x ∷ xs) (suc i) h = (h.0, All-erase_idx P xs i h.1)

  pub get_elem?-All {κ} :
      (P : A → Type κ) (xs : List A) (i : ℕ) (x : A) → All P xs → get_elem? xs i ≡ some x → P x
  unfolding get_elem?
  get_elem?-All P [] i x h e = cc
  get_elem?-All P (y ∷ xs) zero x h e = let q : y ≡ x = ground arith in subst P q h.0
  get_elem?-All P (y ∷ xs) (suc i) x h e = get_elem?-All P xs i x h.1 e

  pub get_elem?-append_length :
      (xs : List A) (y : A) (ys : List A) → get_elem? (xs ++ y ∷ ys) (length xs) ≡ some y
  unfolding get_elem?
  get_elem?-append_length [] y ys = refl
  get_elem?-append_length (x ∷ xs) y ys = get_elem?-append_length xs y ys

  pub All-mono {κ μ} :
      (P : A → Type κ) (Q : A → Type μ)
      → ((x : A) → P x → Q x)
      → (xs : List A) → All P xs
      → All Q xs
  All-mono P Q f [] h = tt
  All-mono P Q f (x ∷ xs) h = (f x h.0, All-mono P Q f xs h.1)

  -- `list.slice(0, n)`
  unfoldable pub take : ℕ → List A → List A
  take zero xs = []
  take (suc n) [] = []
  take (suc n) (x ∷ xs) = x ∷ take n xs

  -- `list.includes(x)`
  unfoldable pub includes : Discrete A → List A → A → Bool
  includes dec [] x = false
  includes dec (y ∷ ys) x = ite (dec y x) true (includes dec ys x)

  -- `list.filter(test)`
  unfoldable pub keep : (A → Bool) → List A → List A
  keep test [] = []
  keep test (x ∷ xs) = let rest = keep test xs in if test x then x ∷ rest else rest

-- The list has the element.
abbrev pub In : {A : Type 0} → A → List A → Type 0
In x [] = ⊥
In x (y ∷ ys) = (x ≡ y) ⊎ In x ys

pub All-In : {A : Type 0} (P : A → Type 0) (x : A) (xs : List A) → All P xs → In x xs → P x
All-In P x [] h i = absurd i
All-In P x (y ∷ ys) h (inl e) = subst P (sym e) h.0
All-In P x (y ∷ ys) h (inr i) = All-In P x ys h.1 i

pub In-append_left : {A : Type 0} (x : A) (xs ys : List A) → In x xs → In x (xs ++ ys)
In-append_left x [] ys i = absurd i
In-append_left x (y ∷ xs) ys (inl e) = inl e
In-append_left x (y ∷ xs) ys (inr i) = inr (In-append_left x xs ys i)

pub In-append_right : {A : Type 0} (x : A) (xs ys : List A) → In x ys → In x (xs ++ ys)
In-append_right x [] ys i = i
In-append_right x (y ∷ xs) ys i = inr (In-append_right x xs ys i)

-- `set.has(x)`, and `list.includes(x)` for texts
unfoldable pub contains : List String → String → Bool
contains [] x = false
contains (y ∷ ys) x = ite (text_dec y x) true (contains ys x)

-- `set.add(x)`
unfoldable pub add : List String → String → List String
add ys x = if contains ys x then ys else ys ++ x ∷ []

-- `set.delete(x)`
unfoldable pub remove : List String → String → List String
remove [] x = []
remove (y ∷ ys) x = ite (text_dec y x) (remove ys x) (y ∷ remove ys x)

-- No text stands twice.
abbrev pub Distinct : List String → Type 0
Distinct [] = Unit {0}
Distinct (x ∷ xs) = (contains xs x ≡ false) × Distinct xs

pub contains-append :
    (xs ys : List String) (x : String)
    → contains (xs ++ ys) x ≡ (if contains xs x then true else contains ys x)
unfolding contains
contains-append [] ys x = refl
contains-append (y ∷ xs) ys x = ground (arith, contains-append xs ys x)

pub contains-remove :
    (ys : List String) (x y : String)
    → contains (remove ys x) y ≡ ite (text_dec x y) false (contains ys y)
unfolding contains remove
contains-remove [] x y = ground arith
contains-remove (z ∷ ys) x y = ground (arith, contains-remove ys x y)

pub contains-add :
    (ys : List String) (x y : String)
    → contains (add ys x) y ≡ ite (text_dec x y) true (contains ys y)
unfolding add contains
contains-add ys x y = ground (arith, contains-append ys (x ∷ []) y)

pub remove-Distinct : (ys : List String) (x : String) → Distinct ys → Distinct (remove ys x)
unfolding remove
remove-Distinct [] x d = tt
remove-Distinct (y ∷ ys) x d = ground (arith, remove-Distinct ys x d.1, contains-remove ys x y)

pub append-Distinct :
    (ys : List String) (x : String) → contains ys x ≡ false → Distinct ys → Distinct (ys ++ x ∷ [])
unfolding contains
append-Distinct [] x h d = (refl, tt)
append-Distinct (y ∷ ys) x h d = ground (arith, append-Distinct ys x, contains-append ys (x ∷ []) y)

pub length-remove-le : (ys : List String) (x : String) → length (remove ys x) ≤ length ys
unfolding remove
length-remove-le [] x = omega arith
length-remove-le (y ∷ ys) x = ground (arith, length-remove-le ys x)

pub remove_absent : (ys : List String) (x : String) → contains ys x ≡ false → remove ys x ≡ ys
unfolding remove contains
remove_absent [] x h = refl
remove_absent (y ∷ ys) x h = ground (arith, remove_absent ys x)

-- What holds of every text that the list contains.
abbrev pub AllIn : (String → Type 0) → List String → Type 0
AllIn P xs = (x : String) → contains xs x ≡ true → P x

pub add-AllIn :
    (P : String → Type 0) (xs : List String) (x : String) → AllIn P xs → P x → AllIn P (add xs x)
add-AllIn P xs x h p y c = elim (text_dec x y) [
  | yes e ↦ subst P e p
  | no e ↦ h y (ground (arith, contains-add xs x y))
]

-- How many of the texts `ns` are not in the list `path`.
pub free : List String → List String → ℕ
free [] path = 0
free (n ∷ ns) path = if contains path n then free ns path else suc (free ns path)

free-le : (ns path : List String) (n : String) → free ns (n ∷ path) ≤ free ns path
unfolding free contains
free-le [] path n = ground arith
free-le (m ∷ ns) path n = ground (arith, free-le ns path n)

pub free-lt :
    (ns path : List String) (n : String)
    → contains ns n ≡ true
    → contains path n ≡ false
    → free ns (n ∷ path) < free ns path
unfolding free contains
free-lt [] path n c p = cc
free-lt (m ∷ ns) path n c p = ground (arith, free-lt ns path n, free-le ns path n)

pub free-nil : (ns : List String) → free ns [] ≡ length ns
unfolding free contains
free-nil [] = refl
free-nil (n ∷ ns) = ground (arith, free-nil ns)
