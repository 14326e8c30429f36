-- ===== src/WorkflowEngine/Pending/Order.antt =====
-- Which node `nextPendingNode` of services/runtime/src/workflow-engine.ts gives.
use mathlib.Core.Path.{subst}
use nova_test.Common.{
  ◌≡◌, ◌∙◌, refl, ap, sym, Bool, true, false, not, List, [], ◌∷◌, map, String, some, keep, ◌||◌,
  contains, In, inl, inr, arith, Option-cases, Bool-cases, text_dec,
}
use nova_test.WorkflowEngine.{Context, WorkflowEdge}
use nova_test.WorkflowEngine.Validation.{adjacency}
use nova_test.WorkflowEngine.Pending.{
  first_pending, incoming_done, first_ready, outgoing, meets, answer, candidates, next_pending,
}

first_pending-some :
    (completed ns : List String) (m : String)
    → first_pending completed ns ≡ some m
    → (contains completed m ≡ false) × In m ns
first_pending-some completed [] m e = cc
first_pending-some completed (n ∷ ns) m e = elim (Bool-cases (contains completed n)) [
  | inl c ↦ let (f, i) = first_pending-some completed ns m (ground arith) in (f, inr i)
  | inr c ↦ let q : n ≡ m = ground arith in (ground arith, inl (sym q))
]

-- The edge lets the node run: it leads there from a completed node.
abbrev pub Leads : List WorkflowEdge → List String → String → Type 0
Leads es completed m = (a : String) × (contains completed a ≡ true) × In m (adjacency es a)

adjacency_self :
    (es : List WorkflowEdge) (e : WorkflowEdge) → In e es → In e.to (adjacency es e.from)
unfolding adjacency
adjacency_self [] e i = absurd i
adjacency_self (x ∷ es) e (inl p) =
    let q : adjacency (x ∷ es) x.from ≡ x.to ∷ adjacency es x.from = ground arith in
    subst (λ y. In y.to (adjacency (x ∷ es) y.from)) (sym p) (subst (In x.to) (sym q) (inl refl))
adjacency_self (x ∷ es) e (inr i) = elim (text_dec x.from e.from) [
  | yes p ↦
      let q : adjacency (x ∷ es) e.from ≡ x.to ∷ adjacency es e.from = ground arith in
      subst (In e.to) (sym q) (inr (adjacency_self es e i))
  | no p ↦
      let q : adjacency (x ∷ es) e.from ≡ adjacency es e.from = ground arith in
      subst (In e.to) (sym q) (adjacency_self es e i)
]

first_ready-some :
    (es : List WorkflowEdge) (completed : List String) (rest : List WorkflowEdge) (m : String)
    → first_ready es completed rest ≡ some m
    → (e : WorkflowEdge) × In e rest
      × (e.to ≡ m)
      × (contains completed e.from ≡ true)
      × (contains completed m ≡ false)
unfolding first_ready
first_ready-some es completed [] m q = cc
first_ready-some es completed (e ∷ rest) m q =
    elim (Bool-cases (not (contains completed e.from) || contains completed e.to)) [
      | inl c ↦
          let (x, i, a, b, d) = first_ready-some es completed rest m (ground arith) in
          (x, inr i, a, b, d)
      | inr c ↦ elim (Bool-cases (incoming_done es completed e.to)) [
        | inl r ↦
            let p : e.to ≡ m = ground arith in
            (
              e,
              inl refl,
              p,
              ground arith,
              subst (λ y. contains completed y ≡ false) p (ground arith),
            )
        | inr r ↦
            let (x, i, a, b, d) = first_ready-some es completed rest m (ground arith) in
            (x, inr i, a, b, d)
      ]
    ]

-- A ready edge is found, if it alone leads on.
first_ready-only :
    (es : List WorkflowEdge) (completed : List String) (m : String)
    → incoming_done es completed m ≡ true
    → (rest : List WorkflowEdge) (e : WorkflowEdge) → In e rest
    → e.to ≡ m
    → contains completed e.from ≡ true
    → contains completed m ≡ false
    → ((x : WorkflowEdge)
        → In x rest
        → contains completed x.from ≡ true
        → contains completed x.to ≡ false
        → x.to ≡ m)
    → first_ready es completed rest ≡ some m
unfolding first_ready
first_ready-only es completed m d [] e i t c f h = absurd i
first_ready-only es completed m d (x ∷ rest) e (inl p) t c f h =
    let q : x.to ≡ m = ap (λ y. y.to) (sym p) ∙ t in
    let r : contains completed x.from ≡ true = subst (λ y. contains completed y.from ≡ true) p c in
    ground arith
first_ready-only es completed m d (x ∷ rest) e (inr i) t c f h =
    let more = first_ready-only es completed m d rest e i t c f (λ y j. h y (inr j)) in
    elim (Bool-cases (not (contains completed x.from) || contains completed x.to)) [
      | inl k ↦ ground arith
      | inr k ↦ let q : x.to ≡ m = h x (inl refl) (ground arith) (ground arith) in ground arith
    ]

In-kept :
    (test : WorkflowEdge → Bool) (m : String) (es : List WorkflowEdge)
    → In m (map (λ e. e.to) (keep test es))
    → In m (map (λ e. e.to) es)
unfolding keep
In-kept test m [] i = i
In-kept test m (e ∷ es) i = elim (Bool-cases (test e)) [
  | inl t ↦
      let q : keep test (e ∷ es) ≡ e ∷ keep test es = ground arith in
      elim (subst (λ l. In m (map (λ e'. e'.to) l)) q i) [
        | inl r ↦ inl r
        | inr k ↦ inr (In-kept test m es k)
      ]
  | inr t ↦
      let q : keep test (e ∷ es) ≡ keep test es = ground arith in
      inr (In-kept test m es (subst (λ l. In m (map (λ e'. e'.to) l)) q i))
]

targets-adjacency :
    (es : List WorkflowEdge) (n : String) → map (λ e. e.to) (outgoing es n) ≡ adjacency es n
unfolding outgoing adjacency keep
targets-adjacency [] n = refl
targets-adjacency (e ∷ es) n = ground (arith, targets-adjacency es n)

In-targets : (es : List WorkflowEdge) (e : WorkflowEdge) → In e es → In e.to (map (λ x. x.to) es)
In-targets [] e i = absurd i
In-targets (x ∷ es) e (inl p) = inl (ap (λ y. y.to) p)
In-targets (x ∷ es) e (inr i) = inr (In-targets es e i)

pub outgoing-adjacency :
    (es : List WorkflowEdge) (n : String) (e : WorkflowEdge)
    → In e (outgoing es n)
    → In e.to (adjacency es n)
outgoing-adjacency es n e i =
    subst (In e.to) (targets-adjacency es n) (In-targets (outgoing es n) e i)

adjacency-edge :
    (es : List WorkflowEdge) (n m : String)
    → In m (adjacency es n)
    → (e : WorkflowEdge) × In e es × (e.from ≡ n) × (e.to ≡ m)
unfolding adjacency
adjacency-edge [] n m i = absurd i
adjacency-edge (e ∷ es) n m i = elim (text_dec e.from n) [
  | yes p ↦
      let q : adjacency (e ∷ es) n ≡ e.to ∷ adjacency es n = ground arith in
      elim (subst (In m) q i) [
        | inl r ↦ (e, inl refl, p, sym r)
        | inr k ↦ let (x, j, a, b) = adjacency-edge es n m k in (x, inr j, a, b)
      ]
  | no p ↦
      let q : adjacency (e ∷ es) n ≡ adjacency es n = ground arith in
      let (x, j, a, b) = adjacency-edge es n m (subst (In m) q i) in (x, inr j, a, b)
]

module _ {C : Type 0} where
  candidates-adjacency :
      (es : List WorkflowEdge) (context : Context C) (n m : String)
      → In m (candidates es context n)
      → In m (adjacency es n)
  unfolding candidates
  candidates-adjacency es context n m i =
      subst (In m) (targets-adjacency es n)
        (In-kept (λ e. meets e.condition (answer context n)) m (outgoing es n) i)

  -- The node that comes next is not completed, and an edge leads to it from a completed node.
  pub next_pending-some :
      (es : List WorkflowEdge) (completed : List String) (n : String) (context : Context C)
      → (m : String) → contains completed n ≡ true
      → next_pending es completed n context ≡ some m
      → (contains completed m ≡ false) × Leads es completed m
  unfolding next_pending
  next_pending-some es completed n context m c e =
      elim (Option-cases (first_pending completed (candidates es context n))) [
        | inr (x, q) ↦
            let (f, i) = first_pending-some completed (candidates es context n) m (ground arith) in
            (f, (n, c, candidates-adjacency es context n m i))
        | inl q ↦
            let (x, i, t, d, f) = first_ready-some es completed es m (ground arith) in
            (f, (x.from, d, subst (λ y. In y (adjacency es x.from)) t (adjacency_self es x i)))
      ]

  -- If only one node that is not completed is led to from completed nodes, and all edges to it come
  -- from such nodes, it comes next. This holds whatever the conditions of the edges: also those
  -- that an approval that was denied, or a decision, does not meet.
  pub next_pending-only :
      (es : List WorkflowEdge) (completed : List String) (n : String) (context : Context C)
      → (e : WorkflowEdge) → In e es
      → contains completed n ≡ true
      → contains completed e.from ≡ true
      → contains completed e.to ≡ false
      → incoming_done es completed e.to ≡ true
      → ((x : WorkflowEdge)
          → In x es
          → contains completed x.from ≡ true
          → contains completed x.to ≡ false
          → x.to ≡ e.to)
      → next_pending es completed n context ≡ some e.to
  unfolding next_pending
  next_pending-only es completed n context e i cn c f d h =
      elim (Option-cases (first_pending completed (candidates es context n))) [
        | inr (x, q) ↦
            let (g, k) = first_pending-some completed (candidates es context n) x q in
            let (y, j, a, b) = adjacency-edge es n x (candidates-adjacency es context n x k) in
            let r : y.to ≡ e.to =
              h y j (subst (λ z. contains completed z ≡ true) (sym a) cn)
                (subst (λ z. contains completed z ≡ false) (sym b) g) in
            ground arith
        | inl q ↦ ground (arith, first_ready-only es completed e.to d es e i refl c f h)
      ]
