-- ===== src/DistributedScheduler/Sorting.antt =====
-- What the sort of services/runtime/src/distributed-scheduler.ts keeps and puts first.
use mathlib.Core.Path.{subst}
use nova_test.Common.Sort.{sort, insert}
use nova_test.Common.{
  ℕ, ◌≤◌, ◌≡◌, refl, Bool, true, false, List, [], ◌∷◌, keep, All, All-mono, In, inl, inr, arith,
  Bool-cases, ◌⊎◌,
}
use nova_test.DistributedScheduler.{PeerSnapshot}

In-insert :
    (le : PeerSnapshot → PeerSnapshot → Bool) (x y : PeerSnapshot) (ys : List PeerSnapshot)
    → (y ≡ x) ⊎ In y ys
    → In y (insert le x ys)
unfolding insert
In-insert le x y [] (inl e) = inl e
In-insert le x y [] (inr i) = absurd i
In-insert le x y (z ∷ ys) h = elim (Bool-cases (le x z)) [
  | inl b ↦ rw (b, insert) (elim h [ inl e ↦ inl e | inr i ↦ inr i ])
  | inr b ↦
      rw (b, insert)
        (elim h [
          | inl e ↦ inr (In-insert le x y ys (inl e))
          | inr (inl e) ↦ inl e
          | inr (inr i) ↦ inr (In-insert le x y ys (inr i))
        ])
]

pub In-sort :
    (le : PeerSnapshot → PeerSnapshot → Bool) (y : PeerSnapshot) (ys : List PeerSnapshot)
    → In y ys
    → In y (sort le ys)
unfolding sort
In-sort le y [] i = i
In-sort le y (x ∷ ys) (inl e) = In-insert le x y (sort le ys) (inl e)
In-sort le y (x ∷ ys) (inr i) = In-insert le x y (sort le ys) (inr (In-sort le y ys i))

insert-All :
    (P : PeerSnapshot → Type 0) (le : PeerSnapshot → PeerSnapshot → Bool)
    → (x : PeerSnapshot) (ys : List PeerSnapshot) → P x
    → All P ys
    → All P (insert le x ys)
unfolding insert
insert-All P le x [] p h = (p, tt)
insert-All P le x (y ∷ ys) p h = elim (Bool-cases (le x y)) [
  | inl b ↦ rw (b, insert) (p, h)
  | inr b ↦ rw (b, insert) (h.0, insert-All P le x ys p h.1)
]

pub sort-All :
    (P : PeerSnapshot → Type 0) (le : PeerSnapshot → PeerSnapshot → Bool) (ys : List PeerSnapshot)
    → All P ys
    → All P (sort le ys)
unfolding sort
sort-All P le [] h = h
sort-All P le (y ∷ ys) h = insert-All P le y (sort le ys) h.0 (sort-All P le ys h.1)

-- The first has the greatest score.
abbrev pub IsLed : (PeerSnapshot → ℕ) → List PeerSnapshot → Type 0
IsLed f [] = Unit {0}
IsLed f (p ∷ ps) = All (λ q. f q ≤ f p) ps

module _ (f : PeerSnapshot → ℕ) (le : PeerSnapshot → PeerSnapshot → Bool)
    (above : (a b : PeerSnapshot) → le a b ≡ true → f b ≤ f a)
    (below : (a b : PeerSnapshot) → le a b ≡ false → f a ≤ f b) where
  insert-IsLed : (x : PeerSnapshot) (ys : List PeerSnapshot) → IsLed f ys → IsLed f (insert le x ys)
  unfolding insert
  insert-IsLed x [] h = tt
  insert-IsLed x (y ∷ ys) h = elim (Bool-cases (le x y)) [
    | inl b ↦
        rw (b, insert)
          (
            above x y b,
            All-mono (λ q. f q ≤ f y) (λ q. f q ≤ f x) (λ q l. omega (arith, l, above x y b)) ys h,
          )
    | inr b ↦ rw (b, insert) (insert-All (λ q. f q ≤ f y) le x ys (below x y b) h)
  ]

  pub sort-IsLed : (ys : List PeerSnapshot) → IsLed f (sort le ys)
  unfolding sort
  sort-IsLed [] = tt
  sort-IsLed (y ∷ ys) = insert-IsLed y (sort le ys) (sort-IsLed ys)

pub keep-All :
    (Q : PeerSnapshot → Type 0) (test : PeerSnapshot → Bool) (ps : List PeerSnapshot)
    → ((p : PeerSnapshot) → In p ps → test p ≡ true → Q p)
    → All Q (keep test ps)
unfolding keep
keep-All Q test [] h = tt
keep-All Q test (p ∷ ps) h = elim (Bool-cases (test p)) [
  | inl t ↦ rw (t, keep) (h p (inl refl) t, keep-All Q test ps (λ q i. h q (inr i)))
  | inr t ↦ rw (t, keep) (keep-All Q test ps (λ q i. h q (inr i)))
]

pub In-keep :
    (test : PeerSnapshot → Bool) (q : PeerSnapshot) (ps : List PeerSnapshot)
    → In q ps
    → test q ≡ true
    → In q (keep test ps)
unfolding keep
In-keep test q [] i t = i
In-keep test q (p ∷ ps) (inl e) t =
    let u : test p ≡ true = subst (λ x. test x ≡ true) e t in rw (u, keep) (inl e)
In-keep test q (p ∷ ps) (inr i) t = elim (Bool-cases (test p)) [
  | inl u ↦ rw (u, keep) (inr (In-keep test q ps i t))
  | inr u ↦ rw (u, keep) (In-keep test q ps i t)
]
