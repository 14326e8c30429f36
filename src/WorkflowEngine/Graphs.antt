-- ===== src/WorkflowEngine/Graphs.antt =====
-- The depth-first search of `validate` in services/runtime/src/workflow-engine.ts, over the nodes
-- that follow each node.
use mathlib.Core.Path.{subst}
use nova_test.Common.{
  ℕ, zero, suc, ◌+◌, ◌<◌, ◌≡◌, refl, ◌≢◌, sym, ◌⊎◌, inl, inr, true, List, [], ◌∷◌, String, arith,
  free, free-lt, free-nil, contains, length, ◌↔◌, In, if◌then◌else◌, Bool-cases, text_dec,
}

-- What a visit gives: the nodes visited so far, a cycle, or no answer for lack of fuel.
pub data Visit : Type 0 where
  clean : List String → Visit
  cycle exhausted : Visit

Visit-cases :
    (v : Visit) → ((out : List String) × (v ≡ clean out)) ⊎ ((v ≡ cycle) ⊎ (v ≡ exhausted))
Visit-cases (clean out) = inl (out, refl)
Visit-cases cycle = inr (inl refl)
Visit-cases exhausted = inr (inr refl)

-- The loop over the nodes that follow, with the visit of one of them.
unfoldable pub visit_each : (List String → String → Visit) → List String → List String → Visit
visit_each call visited [] = clean visited
visit_each call visited (n ∷ ns) = elim (call visited n) [
  | clean more ↦ visit_each call more ns
  | cycle ↦ cycle
  | exhausted ↦ exhausted
]

-- `path` holds the nodes of the set `visiting`: those whose visits are under way, which each visit
-- leaves as it found them unless it meets a cycle.
unfoldable pub visit : (String → List String) → ℕ → List String → List String → String → Visit
unfolding visit_each
visit next zero path visited n = exhausted
visit next (suc fuel) path visited n =
    if contains path n
    then cycle
    else if contains visited n
    then clean visited
    else elim (visit_each (visit next fuel (n ∷ path)) visited (next n)) [
      | clean more ↦ clean (n ∷ more)
      | cycle ↦ cycle
      | exhausted ↦ exhausted
    ]

module _ (next : String → List String) where
  pub data Reach : String → String → Type 0 where
    here : {n : String} → Reach n n
    via : {a b c : String} → In b (next a) → Reach b c → Reach a c

  -- A walk of at least one edge.
  abbrev pub Walk : String → String → Type 0
  Walk a c = (b : String) × In b (next a) × Reach b c

  -- A cycle that can be reached from the node.
  abbrev pub HasCycle : String → Type 0
  HasCycle s = (u : String) × Reach s u × Walk u u

  -- Each node stands after all that follow it.
  abbrev IsPostorder : List String → Type 0
  IsPostorder [] = Unit {0}
  IsPostorder (n ∷ ns) = ((m : String) → In m (next n) → contains ns m ≡ true) × IsPostorder ns

  IsPostorder-closed :
      (ns : List String) (a b : String)
      → IsPostorder ns
      → contains ns a ≡ true
      → In b (next a)
      → contains ns b ≡ true
  unfolding contains
  IsPostorder-closed [] a b h c i = cc
  IsPostorder-closed (n ∷ ns) a b h c i = elim (text_dec n a) [
    | yes e ↦ ground (arith, h.0 b (subst (λ x. In b (next x)) (sym e) i))
    | no e ↦ ground (arith, IsPostorder-closed ns a b h.1 (ground arith) i)
  ]

  Reach-closed :
      (ns : List String) {a b : String}
      → IsPostorder ns
      → contains ns a ≡ true
      → Reach a b
      → contains ns b ≡ true
  Reach-closed ns h c here = c
  Reach-closed ns h c (via {a} {b} i r) = Reach-closed ns h (IsPostorder-closed ns a b h c i) r

  no-Walk : (ns : List String) (a : String) → IsPostorder ns → contains ns a ≡ true → ¬ Walk a a
  unfolding contains
  no-Walk [] a h c w = cc
  no-Walk (n ∷ ns) a h c (b, i, r) = elim (text_dec n a) [
    | yes e ↦
        no-Walk ns a h.1 (Reach-closed ns h.1 (h.0 b (subst (λ x. In b (next x)) (sym e) i)) r)
          (b, i, r)
    | no e ↦ no-Walk ns a h.1 (ground arith) (b, i, r)
  ]

  no_cycle : (ns : List String) (s : String) → IsPostorder ns → contains ns s ≡ true → ¬ HasCycle s
  no_cycle ns s h c (u, r, w) = no-Walk ns u h (Reach-closed ns h c r) w

  pub Reach-step : {a b c : String} → Reach a b → In c (next b) → Reach a c
  Reach-step here i = via i here
  Reach-step (via j r) i = via j (Reach-step r i)

  pub Reach-trans : {a b c : String} → Reach a b → Reach b c → Reach a c
  Reach-trans here s = s
  Reach-trans (via i r) s = via i (Reach-trans r s)

  -- How a loop ends: with a list of the nodes visited, or with the answer of one of its visits.
  each-cases :
      (call : List String → String → Visit) (visited ns : List String)
      → ((out : List String) × (visit_each call visited ns ≡ clean out))
        ⊎ ((v : List String) × (m : String) × In m ns × (call v m ≡ visit_each call visited ns))
  unfolding visit_each
  each-cases call visited [] = inl (visited, refl)
  each-cases call visited (n ∷ ns) = elim (Visit-cases (call visited n)) [
    | inl (more, e) ↦
        rw (e, visit_each)
          (elim (each-cases call more ns) [
            | inl p ↦ inl p
            | inr (v, m, i, q) ↦ inr (v, m, inr i, q)
          ])
    | inr (inl e) ↦ rw (e, visit_each) (inr (visited, n, inl refl, e))
    | inr (inr e) ↦ rw (e, visit_each) (inr (visited, n, inl refl, e))
  ]

  abbrev IsVisited : List String → String → List String → Type 0
  IsVisited visited n out =
      IsPostorder out
      × (contains out n ≡ true)
      × ((m : String) → contains visited m ≡ true → contains out m ≡ true)

  abbrev AreVisited : List String → List String → List String → Type 0
  AreVisited visited ns out =
      IsPostorder out
      × ((m : String) → In m ns → contains out m ≡ true)
      × ((m : String) → contains visited m ≡ true → contains out m ≡ true)

  each-clean :
      (call : List String → String → Visit)
      → ((v : List String) (m : String) (out : List String)
          → IsPostorder v
          → call v m ≡ clean out
          → IsVisited v m out)
      → (visited ns out : List String) → IsPostorder visited
      → visit_each call visited ns ≡ clean out
      → AreVisited visited ns out
  unfolding visit_each
  each-clean call f visited [] out h e =
      let q : visited ≡ out = ground arith in
      subst (λ o. AreVisited visited [] o) q (h, (λ m i. absurd i), λ m c. c)
  each-clean call f visited (n ∷ ns) out h e = elim (Visit-cases (call visited n)) [
    | inl (more, q) ↦
        let (hp, hn, hm) = f visited n more h q in
        let (gp, gn, gm) = each-clean call f more ns out hp (ground (arith, q)) in
        (gp, (λ m i. elim i [ inl p ↦ rw (p) (gm n hn) | inr j ↦ gn m j ]), λ m c. gm m (hm m c))
    | inr (inl q) ↦ absurd (ground arith)
    | inr (inr q) ↦ absurd (ground arith)
  ]

  visit-clean :
      (fuel : ℕ) (path visited : List String) (n : String) (out : List String)
      → IsPostorder visited
      → visit next fuel path visited n ≡ clean out
      → IsVisited visited n out
  unfolding visit contains
  visit-clean zero path visited n out h e = cc
  visit-clean (suc fuel) path visited n out h e = elim (Bool-cases (contains path n)) [
    | inl p ↦ absurd (ground arith)
    | inr p ↦ elim (Bool-cases (contains visited n)) [
      | inl c ↦
          let q : visited ≡ out = ground arith in
          subst (λ o. IsVisited visited n o) q (h, c, λ m d. d)
      | inr c ↦ elim (Visit-cases (visit_each (visit next fuel (n ∷ path)) visited (next n))) [
        | inl (more, q) ↦
            let (gp, gn, gm) =
              each-clean (visit next fuel (n ∷ path)) (λ v m o. visit-clean fuel (n ∷ path) v m o)
                visited (next n) more h q in
            let r : n ∷ more ≡ out = ground arith in
            subst (λ o. IsVisited visited n o) r
              ((gn, gp), ground arith, λ m d. ground (arith, gm m d))
        | inr (inl q) ↦ absurd (ground arith)
        | inr (inr q) ↦ absurd (ground arith)
      ]
    ]
  ]

  abbrev pub IsPath : List String → String → Type 0
  IsPath path n = (p : String) → contains path p ≡ true → Walk p n

  pub IsPath-next :
      (path : List String) (n m : String) → IsPath path n → In m (next n) → IsPath (n ∷ path) m
  unfolding contains
  IsPath-next path n m h i p c = elim (text_dec n p) [
    | yes e ↦ subst (λ x. Walk x m) e (m, i, here)
    | no e ↦ let (b, j, r) = h p (ground arith) in (b, j, Reach-step r i)
  ]

  visit-cycle :
      (fuel : ℕ) (path visited : List String) (n : String)
      → IsPath path n
      → visit next fuel path visited n ≡ cycle
      → HasCycle n
  unfolding visit
  visit-cycle zero path visited n h e = cc
  visit-cycle (suc fuel) path visited n h e = elim (Bool-cases (contains path n)) [
    | inl p ↦ (n, here, h n p)
    | inr p ↦ elim (each-cases (visit next fuel (n ∷ path)) visited (next n)) [
      | inl (out, q) ↦ absurd (ground arith)
      | inr (v, m, i, q) ↦
          let (u, r, w) =
            visit-cycle fuel (n ∷ path) v m (IsPath-next path n m h i) (ground arith) in
          (u, via i r, w)
    ]
  ]

  visit-exhausted :
      (nodes : List String)
      → ((a m : String) → In m (next a) → contains nodes m ≡ true)
      → (fuel : ℕ) (path visited : List String) (n : String) → contains nodes n ≡ true
      → free nodes path < fuel
      → visit next fuel path visited n ≢ exhausted
  unfolding visit
  visit-exhausted nodes h zero path visited n c l e = ground arith
  visit-exhausted nodes h (suc fuel) path visited n c l e = elim (Bool-cases (contains path n)) [
    | inl p ↦ ground arith
    | inr p ↦ elim (each-cases (visit next fuel (n ∷ path)) visited (next n)) [
      | inl (out, q) ↦ ground arith
      | inr (v, m, i, q) ↦
          visit-exhausted nodes h fuel (n ∷ path) v m (h n m i)
            (omega (arith, free-lt nodes path n c p)) (ground arith)
    ]
  ]

  -- A search from a node, with one more unit of fuel than there are nodes, finds no cycle exactly if
  -- the node reaches none.
  pub visit-clean_iff :
      (nodes : List String)
      → ((a m : String) → In m (next a) → contains nodes m ≡ true)
      → (s : String) → contains nodes s ≡ true
      → ((out : List String) × (visit next (length nodes + 1) [] [] s ≡ clean out)) ↔ (¬ HasCycle s)
  unfolding contains
  visit-clean_iff nodes h s c = (
    λ p.
        let (gp, gn, gm) = visit-clean (length nodes + 1) [] [] s p.0 tt p.1 in
        no_cycle p.0 s gp gn,
    λ f. elim (Visit-cases (visit next (length nodes + 1) [] [] s)) [
      | inl p ↦ p
      | inr (inl e) ↦ absurd (f (visit-cycle (length nodes + 1) [] [] s (λ p d. cc) e))
      | inr (inr e) ↦
          absurd
            (visit-exhausted nodes h (length nodes + 1) [] [] s c (omega (arith, free-nil nodes)) e)
    ],
  )
