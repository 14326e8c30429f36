-- ===== src/Common/Map.antt =====
-- The JavaScript `Map` with text keys, as an association list in insertion order.
use Prim.Native.String.{String}
use mathlib.Core.Path.{◌≡◌, refl, sym, subst}
use mathlib.Core.Logic.{ite, if_pos, if_neg, ◌≢◌, inl, inr}
use mathlib.Core.List.{List, [], ◌∷◌, map}
use mathlib.Core.Option.{Option, none, some}
use mathlib.Core.Bool.{Bool, true, false}
use native.Mathlib.Omega.{arith}
use package.nova_test.Common.Tests.{text_dec, is_some, Option-cases}
use package.nova_test.Common.Lists.{contains, Distinct}

abbrev pub Map {ℓ} : Type ℓ → Type ℓ
Map V = List (String × V)

module _ {ℓ} {V : Type ℓ} where
  unfoldable pub get : Map V → String → Option V
  get [] k = none
  get ((j, v) ∷ m) k = ite (text_dec j k) (some v) (get m k)

  -- A new key goes to the end; an old one keeps its place.
  unfoldable pub set : Map V → String → V → Map V
  set [] k v = (k, v) ∷ []
  set ((j, w) ∷ m) k v = ite (text_dec j k) ((j, v) ∷ m) ((j, w) ∷ set m k v)

  unfoldable pub delete : Map V → String → Map V
  delete [] k = []
  delete ((j, w) ∷ m) k = ite (text_dec j k) (delete m k) ((j, w) ∷ delete m k)

  abbrev pub has : Map V → String → Bool
  has m k = is_some (get m k)

  abbrev pub keys : Map V → List String
  keys = map (λ e. e.0)

  abbrev pub values : Map V → List V
  values = map (λ e. e.1)

  abbrev pub All {κ} : (String → V → Type κ) → Map V → Type κ
  All P [] = Unit
  All P ((k, v) ∷ m) = P k v × All P m

  pub get-set :
      (m : Map V) (k : String) (v : V) (j : String)
      → get (set m k v) j ≡ ite (text_dec k j) (some v) (get m j)
  unfolding get set
  get-set [] k v j = refl
  get-set ((i, w) ∷ m) k v j = ground (arith, get-set m k v j)

  pub get-set_self : (m : Map V) (k : String) (v : V) → get (set m k v) k ≡ some v
  get-set_self m k v = ground (arith, get-set m k v k)

  pub get-set_ne :
      (m : Map V) (k : String) (v : V) (j : String) → k ≢ j → get (set m k v) j ≡ get m j
  get-set_ne m k v j h = ground (arith, get-set m k v j)

  pub get-delete :
      (m : Map V) (k j : String) → get (delete m k) j ≡ ite (text_dec k j) none (get m j)
  unfolding get delete
  get-delete [] k j = ground arith
  get-delete ((i, w) ∷ m) k j = ground (arith, get-delete m k j)

  pub set-All {κ} :
      (P : String → V → Type κ) (m : Map V) (k : String) (v : V)
      → All P m
      → P k v
      → All P (set m k v)
  unfolding set
  set-All P [] k v h p = (p, tt)
  set-All P ((j, w) ∷ m) k v h p = elim (text_dec j k) [
    | yes e ↦ rw (if_pos _ e) (subst (λ x. P x v) (sym e) p, h.1)
    | no n ↦ rw (if_neg _ n) (h.0, set-All P m k v h.1 p)
  ]

  pub delete-All {κ} :
      (P : String → V → Type κ) (m : Map V) (k : String) → All P m → All P (delete m k)
  unfolding delete
  delete-All P [] k h = tt
  delete-All P ((j, w) ∷ m) k h = elim (text_dec j k) [
    | yes e ↦ rw (if_pos _ e) (delete-All P m k h.1)
    | no n ↦ rw (if_neg _ n) (h.0, delete-All P m k h.1)
  ]

  pub get-All {κ} :
      (P : String → V → Type κ) (m : Map V) (k : String) (v : V)
      → All P m
      → get m k ≡ some v
      → P k v
  unfolding get
  get-All P [] k v h e = cc
  get-All P ((j, w) ∷ m) k v h e = elim (text_dec j k) [
    | yes p ↦ let q : w ≡ v = ground arith in subst (λ x. P x v) p (subst (P j) q h.0)
    | no n ↦ get-All P m k v h.1 (ground arith)
  ]

  pub contains-keys : (m : Map V) (k : String) → contains (keys m) k ≡ has m k
  unfolding get contains
  contains-keys [] k = refl
  contains-keys ((j, w) ∷ m) k = ground (arith, contains-keys m k)

  pub get-absent : (m : Map V) (k : String) → contains (keys m) k ≡ false → get m k ≡ none
  get-absent m k h = elim (Option-cases (get m k)) [
    | inl e ↦ e
    | inr (v, e) ↦ absurd (ground (arith, contains-keys m k))
  ]

  pub contains-keys-set :
      (m : Map V) (k : String) (v : V) (j : String)
      → contains (keys (set m k v)) j ≡ ite (text_dec k j) true (contains (keys m) j)
  unfolding set contains
  contains-keys-set [] k v j = refl
  contains-keys-set ((i, w) ∷ m) k v j = ground (arith, contains-keys-set m k v j)

  pub set-Distinct :
      (m : Map V) (k : String) (v : V) → Distinct (keys m) → Distinct (keys (set m k v))
  unfolding set contains
  set-Distinct [] k v d = (refl, tt)
  set-Distinct ((j, w) ∷ m) k v d =
      ground (arith, set-Distinct m k v d.1, contains-keys-set m k v j)

  -- A new value for an old key.
  pub keys-set : (m : Map V) (k : String) (v w : V) → get m k ≡ some w → keys (set m k v) ≡ keys m
  unfolding get set
  keys-set [] k v w e = cc
  keys-set ((i, x) ∷ m) k v w e = ground (arith, keys-set m k v w)
